-- ===== src/UserClient/Box/Create.antt =====
-- How `CreateAFileBox` fills the plates of a box.
use cess_dcdn_components.Base.Int.{add64, sub64}
use cess_dcdn_components.UserClient.Box.Layout.{
  concat-snoc, offsets-snoc, IsPacked, concat, offsets,
}
use cess_dcdn_components.UserClient.Box.{
  FilePlate, append_file, empty_plate, Filling, Folder, above, zero_bytes,
}
use cess_dcdn_components.Base.{
  All-snoc, Pairs-snoc, ap, length-append, ◌<◌, ◌∷◌, All, Bytes, List, Pairs, [], arith, length,
  ltb, map, ok, refl, suc, zero, ℕ, ◌++◌, ◌+◌, ◌-◌, ◌^◌, ◌≡◌, ◌≢◌, ◌≤◌,
}
use mathlib.Core.List.{append_assoc, append-nil, map-append}

-- What the operating system promises of a file that is written at its end, and of the files of the
-- directory, which nobody else writes meanwhile: `written` are the bytes of the file at `path`.
pub record IsSteady {W : Type 0} (folder : Folder W) (path : Bytes) (written : W → Bytes)
    (contents : Bytes → Bytes) : Type 0 where
  pub grown : Bytes → W → W
  pub emptied : W → W
  pub create : (w : W) → folder.create path w ≡ (ok tt, emptied w)
  pub write :
      (bytes : Bytes) (w : W) → folder.write path bytes w ≡ (ok (length bytes), grown bytes w)
  pub read : (p : Bytes) (w : W) → p ≢ path → folder.read_file p w ≡ (ok (contents p), w)
  pub sync : (w : W) → folder.sync path w ≡ (ok tt, w)
  pub written-emptied : (w : W) → written (emptied w) ≡ []
  pub written-grown : (bytes : Bytes) (w : W) → written (grown bytes w) ≡ written w ++ bytes

pub length-zero_bytes : (n : ℕ) → length (zero_bytes n) ≡ n
unfolding zero_bytes
length-zero_bytes zero = refl
length-zero_bytes (suc n) = omega (arith, length-zero_bytes n)

-- The tests on words, where the sizes are those of a fragment.
pub room_lem : (F s : ℕ) → F < 2 ^ 62 → s ≤ F → sub64 F s ≡ F - s
room_lem F s f h = omega arith

pub above_room : (F s : ℕ) → F < 2 ^ 62 → s ≤ F → above (F - s) 0 ≡ ltb s F
above_room F s f h = ground arith

pub sum_lem : (F s n : ℕ) → F < 2 ^ 62 → s ≤ F → n ≤ F → add64 n s ≡ n + s
sum_lem F s n f h k = omega arith

pub above_sum : (F s n : ℕ) → F < 2 ^ 62 → s ≤ F → n ≤ F → above (n + s) F ≡ ltb F (n + s)
above_sum F s n f h k = ground arith

module _ (F : ℕ) (contents : Bytes → Bytes) where
  -- The bytes written are the fragments of the closed plates, each of the right size, and the files of
  -- the open plate.
  pub record IsLaid (s : Filling) (image : Bytes) : Type 0 where
    pub fragments : List Bytes
    pub bytes : image ≡ concat fragments ++ concat (map contents s.plate.files)
    pub closed : Pairs (IsPacked contents) s.closed fragments
    pub sized : All (λ b. length b ≡ F) fragments
    pub places : s.plate.indexs ≡ offsets 0 (map contents s.plate.files)
    pub size : s.size ≡ length (concat (map contents s.plate.files))
    pub bound : s.size ≤ F

  -- A plate that is closed lies in the next fragment, whose bytes end with the padding.
  pub closed_with :
      (s : Filling) (image rest : Bytes) (p : FilePlate)
      → (h : IsLaid s image) → IsPacked contents p (concat (map contents s.plate.files) ++ rest)
      → length (concat (map contents s.plate.files)) + length rest ≡ F
      → (padding : ℕ)
      → IsLaid
          (record {
            closed = s.closed ++ (p ∷ []);
            padding = padding;
            plate = empty_plate;
            size = 0;
            total = s.total;
          })
          (image ++ rest)
  unfolding concat offsets
  closed_with s image rest p h packed full padding = record {
    fragments = h.fragments ++ (piece ∷ []);
    bytes =
        rw (h.bytes, concat-snoc h.fragments piece, append-nil (concat h.fragments ++ piece))
          (append_assoc (concat h.fragments) (concat (map contents s.plate.files)) rest);
    closed = Pairs-snoc (IsPacked contents) s.closed h.fragments p piece h.closed packed;
    sized =
        All-snoc (λ b. length b ≡ F) h.fragments piece h.sized
          (omega (arith, length-append (concat (map contents s.plate.files)) rest));
    places = refl;
    size = refl;
    bound = omega arith;
  }
    where
      piece : Bytes
      piece = concat (map contents s.plate.files) ++ rest

  pub append_file-IsLaid :
      (s : Filling) (image name : Bytes) (n : ℕ)
      → F < 2 ^ 62
      → IsLaid s image
      → s.size + n ≤ F
      → length (contents name) ≡ n
      → IsLaid (append_file name n s) (image ++ contents name)
  append_file-IsLaid s image name n f h room e = record {
    fragments = h.fragments;
    bytes =
        rw
          (
            h.bytes,
            map-append contents s.plate.files (name ∷ []),
            concat-snoc (map contents s.plate.files) (contents name),
          )
          (append_assoc (concat h.fragments) (concat (map contents s.plate.files)) (contents name));
    closed = h.closed;
    sized = h.sized;
    places =
        rw
          (
            map-append contents s.plate.files (name ∷ []),
            offsets-snoc 0 (map contents s.plate.files) (contents name),
            h.places,
          )
          (ap (λ k. offsets 0 (map contents s.plate.files) ++ (k ∷ [])) (omega (arith, h.size)));
    size =
        rw
          (
            map-append contents s.plate.files (name ∷ []),
            concat-snoc (map contents s.plate.files) (contents name),
          )
          (omega (
            arith,
            h.size,
            h.bound,
            length-append (concat (map contents s.plate.files)) (contents name),
          ));
    bound = omega (arith, h.bound);
  }
