-- ===== src/UserClient/Box/Room.antt =====
-- How a plate is closed when the next file does not fit.
use cess_dcdn_components.UserClient.Box.Create.{
  IsLaid, IsSteady, above_room, above_sum, closed_with, length-zero_bytes, room_lem, sum_lem,
}
use mathlib.Core.List.{append-nil}
use cess_dcdn_components.Base.FilePath.{join}
use cess_dcdn_components.Base.Int.{add64}
use cess_dcdn_components.UserClient.Box.Layout.{offsets}
use cess_dcdn_components.UserClient.Box.{
  close, is_full, make_room, pad, write_data_to, Filling, Folder, zero_bytes,
}
use cess_dcdn_components.Base.{
  codes, fail_if, not, bind_ok, pure, Bool-cases, Outcome, err, false, inl, inr, panic, sym, true,
  ◌==◌, ◌∙◌, ◌<◌, ◌∷◌, Bytes, [], arith, length, ltb, map, ok, refl, ℕ, ◌++◌, ◌+◌, ◌-◌, ◌^◌, ◌≡◌,
  ◌≤◌,
}

module _ {W : Type 0} (folder : Folder W) (F : ℕ) (path dir : Bytes) (written : W → Bytes)
    (at : Bytes → Bytes) (small : F < 2 ^ 62) (steady : IsSteady folder path written at) where
  -- A file of the directory by its name.
  abbrev pub contents : Bytes → Bytes
  contents name = at (join (dir ∷ name ∷ []))

  pub write_data_to_lem :
      (bytes : Bytes) (w : W) → write_data_to folder F path bytes w ≡ (ok tt, steady.grown bytes w)
  unfolding write_data_to
  write_data_to_lem bytes w =
      bind_ok (folder.write path bytes)
        (λ n. fail_if (not (n == length bytes)) (codes "written data is inconsistent"))
        (steady.write bytes w)
      ∙ rw whole refl
    where
      whole : (length bytes == length bytes) ≡ true
      whole = ground arith

  -- There is room for a file of `n` bytes.
  abbrev pub HasRoom : ℕ → Outcome Filling × W → Type 0
  HasRoom n (ok s, w) = IsLaid F contents s (written w) × (s.size + n ≤ F)
  HasRoom n (err e, w) = ⊥
  HasRoom n (panic, w) = ⊥

  abbrev padded : Filling → Filling
  padded s = record s {
    plate = record s.plate { indexs = s.plate.indexs ++ (s.size ∷ []) };
    padding = add64 s.padding (F - s.size);
  }

  make_room-padded :
      (n : ℕ) (s : Filling) (w : W)
      → IsLaid F contents s (written w)
      → is_full F s n ≡ true
      → ltb s.size F ≡ true
      → make_room folder F path n s w
        ≡ (ok (close (padded s)), steady.grown (zero_bytes (F - s.size)) w)
  unfolding pad
  make_room-padded n s w h full less =
      rw full (bind_ok (pad folder F path s) (λ t. pure (close t)) pad_lem)
    where
      pad_lem : pad folder F path s w ≡ (ok (padded s), steady.grown (zero_bytes (F - s.size)) w)
      pad_lem =
          rw (room_lem F s.size small h.bound, above_room F s.size small h.bound, less)
            (bind_ok (write_data_to folder F path (zero_bytes (F - s.size))) (λ _. pure (padded s))
              (write_data_to_lem (zero_bytes (F - s.size)) w))

  padded-HasRoom :
      (n : ℕ) (s : Filling) (w : W)
      → n ≤ F
      → IsLaid F contents s (written w)
      → is_full F s n ≡ true
      → ltb s.size F ≡ true
      → HasRoom n (make_room folder F path n s w)
  padded-HasRoom n s w fits h full less =
      rw (make_room-padded n s w h full less, steady.written-grown (zero_bytes (F - s.size)) w)
        (
          closed_with F contents s (written w) (zero_bytes (F - s.size)) _ h
              (record {
                rest = zero_bytes (F - s.size);
                tail = s.size ∷ [];
                bytes = refl;
                places = rw h.places refl;
                ends = h.size;
              })
              (omega (arith, h.size, h.bound, length-zero_bytes (F - s.size))) _,
          omega arith,
        )

  exact-HasRoom :
      (n : ℕ) (s : Filling) (w : W)
      → n ≤ F
      → IsLaid F contents s (written w)
      → is_full F s n ≡ true
      → ltb s.size F ≡ false
      → HasRoom n (make_room folder F path n s w)
  unfolding pad
  exact-HasRoom n s w fits h full less =
      rw
        (
          full,
          room_lem F s.size small h.bound,
          above_room F s.size small h.bound,
          less,
          ← append-nil (written w),
        )
        (
          closed_with F contents s (written w) [] s.plate h
              (record {
                rest = [];
                tail = [];
                bytes = refl;
                places = h.places ∙ sym (append-nil (offsets 0 (map contents s.plate.files)));
                ends = refl;
              })
              (ground (arith, h.size, h.bound)) _,
          omega arith,
        )

  pub make_room-HasRoom :
      (n : ℕ) (s : Filling) (w : W)
      → n ≤ F
      → IsLaid F contents s (written w)
      → HasRoom n (make_room folder F path n s w)
  make_room-HasRoom n s w fits h = elim (Bool-cases (is_full F s n)) [
    | inl full ↦ (elim (Bool-cases (ltb s.size F)) [
      | inl less ↦ padded-HasRoom n s w fits h full less
      | inr less ↦ exact-HasRoom n s w fits h full less
    ])
    | inr room ↦ rw room (h, enough room)
  ]
    where
      enough : is_full F s n ≡ false → s.size + n ≤ F
      enough room =
          ground
            (arith, sum_lem F s.size n small h.bound fits, above_sum F s.size n small h.bound fits)
