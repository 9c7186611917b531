-- ===== src/UserClient/Box/Names.antt =====
-- Which files the plates record while a box is filled.
use cess_dcdn_components.Base.{
  Action, Bool-cases, Bytes, List, Option, Outcome, [], ap, err, inl, inr, next, none, ok, panic,
  pure, refl, some, sym, ℕ, ◌++◌, ◌>>=◌, ◌>>◌, ◌∙◌, ◌∷◌, ◌≡◌,
}
use mathlib.Core.List.{append_assoc, append-nil}
use mathlib.Core.Path.{subst}
use cess_dcdn_components.UserClient.Box.{
  append_file, close, fill, is_full, make_room, pad, place, seal_plate, set_last, write_data_to,
  Entry, FilePlate, Filling, Folder, above, packed_size, zero_bytes,
}
use cess_dcdn_components.Base.FilePath.{join}
use cess_dcdn_components.Base.Int.{add64, sub64}

-- The names in the plates, one plate after the other.
abbrev pub files_of : List FilePlate → List Bytes
files_of [] = []
files_of (p ∷ ps) = p.files ++ files_of ps

-- The names of the entries that are packed.
abbrev named_by : Bytes → Option ℕ → List Bytes → List Bytes
named_by name none rest = rest
named_by name (some n) rest = name ∷ rest

abbrev pub packed_names : List Entry → List Bytes
packed_names [] = []
packed_names (e ∷ es) = named_by e.name (packed_size e) (packed_names es)

-- The names in the closed plates and in the open one.
abbrev pub names_in : Filling → List Bytes
names_in s = files_of s.closed ++ s.plate.files

files_of-snoc :
    (ps : List FilePlate) (p : FilePlate) → files_of (ps ++ (p ∷ [])) ≡ files_of ps ++ p.files
files_of-snoc [] p = append-nil p.files
files_of-snoc (q ∷ ps) p =
    ap (λ r. q.files ++ r) (files_of-snoc ps p) ∙ sym (append_assoc q.files (files_of ps) p.files)

-- What is sealed has the names of the closed plates, and a mark at the end.
pub set_last-files :
    (size : ℕ) (ps qs : List FilePlate)
    → set_last (seal_plate size) ps ≡ ok qs
    → files_of qs ≡ files_of ps ++ ([] ∷ [])
unfolding set_last
set_last-files size [] qs h = cc
set_last-files size (p ∷ []) qs h =
    let same : seal_plate size p ∷ [] ≡ qs = cc in
    rw (← same, append-nil p.files) (append-nil (p.files ++ ([] ∷ [])))
set_last-files size (p ∷ q ∷ ps) qs h =
    sealed_by (set_last (seal_plate size) (q ∷ ps)) refl (set_last-files size (q ∷ ps)) h
  where
    sealed_by :
        (o : Outcome (List FilePlate))
        → set_last (seal_plate size) (q ∷ ps) ≡ o
        → ((rest : List FilePlate)
            → set_last (seal_plate size) (q ∷ ps) ≡ ok rest
            → files_of rest ≡ files_of (q ∷ ps) ++ ([] ∷ []))
        → (elim o [ ok rest ↦ ok (p ∷ rest) | err e ↦ err e | panic ↦ panic ]) ≡ ok qs
        → files_of qs ≡ (p.files ++ files_of (q ∷ ps)) ++ ([] ∷ [])
    sealed_by (ok rest) e ih k =
        let same : p ∷ rest ≡ qs = cc in
        rw (← same, append_assoc p.files (files_of (q ∷ ps)) ([] ∷ []))
          (ap (λ r. p.files ++ r) (ih rest e))
    sealed_by (err x) e ih k = cc
    sealed_by panic e ih k = cc

-- There is a plate to seal, or no plate.
pub set_last-panic :
    (size : ℕ) (ps : List FilePlate) → set_last (seal_plate size) ps ≡ panic → ps ≡ []
unfolding set_last
set_last-panic size [] h = refl
set_last-panic size (p ∷ []) h = cc
set_last-panic size (p ∷ q ∷ ps) h =
    sealed_by (set_last (seal_plate size) (q ∷ ps)) refl (set_last-panic size (q ∷ ps)) h
  where
    sealed_by :
        (o : Outcome (List FilePlate))
        → set_last (seal_plate size) (q ∷ ps) ≡ o
        → (set_last (seal_plate size) (q ∷ ps) ≡ panic → q ∷ ps ≡ [])
        → (elim o [ ok rest ↦ ok (p ∷ rest) | err e ↦ err e | panic ↦ panic ]) ≡ panic
        → p ∷ q ∷ ps ≡ []
    sealed_by (ok rest) e ih k = cc
    sealed_by (err x) e ih k = cc
    sealed_by panic e ih k = let none_left = ih e in cc

module _ {W : Type 0} (folder : Folder W) (F : ℕ) (path dir : Bytes) where
  -- A filling that has these names.
  abbrev pub HasNames : List Bytes → Outcome Filling × W → Type 0
  HasNames names (ok s, w) = names_in s ≡ names
  HasNames names (err e, w) = Unit
  HasNames names (panic, w) = Unit

  next-HasNames :
      {A : Type 0} (names : List Bytes) (r : Outcome A × W) (f : A → Action W Filling)
      → ((a : A) (v : W) → HasNames names (f a v))
      → HasNames names (next f r)
  next-HasNames names (ok a, w) f k = k a w
  next-HasNames names (err e, w) f k = tt
  next-HasNames names (panic, w) f k = tt

  then-HasNames :
      (names names' : List Bytes) (r : Outcome Filling × W) (f : Filling → Action W Filling)
      → HasNames names r
      → ((s : Filling) (v : W) → names_in s ≡ names → HasNames names' (f s v))
      → HasNames names' (next f r)
  then-HasNames names names' (ok s, w) f h k = k s w h
  then-HasNames names names' (err e, w) f h k = tt
  then-HasNames names names' (panic, w) f h k = tt

  abbrev padded : Filling → ℕ → Filling
  padded s room = record s {
    plate = record s.plate { indexs = s.plate.indexs ++ (s.size ∷ []) };
    padding = add64 s.padding room;
  }

  pad-HasNames : (s : Filling) (w : W) → HasNames (names_in s) (pad folder F path s w)
  unfolding pad
  pad-HasNames s w = elim (Bool-cases (above (sub64 F s.size) 0)) [
    | inl room ↦ rw room (
        next-HasNames (names_in s) (write_data_to folder F path (zero_bytes (sub64 F s.size)) w)
          (λ _. pure (padded s (sub64 F s.size))) (λ _ v. refl))
    | inr full ↦ rw full refl
  ]

  make_room-HasNames :
      (n : ℕ) (s : Filling) (w : W) → HasNames (names_in s) (make_room folder F path n s w)
  make_room-HasNames n s w = elim (Bool-cases (is_full F s n)) [
    | inl full ↦ rw full (
        then-HasNames (names_in s) (names_in s) (pad folder F path s w) (λ t. pure (close t))
          (pad-HasNames s w)
          (λ t v h.
            append-nil (files_of (t.closed ++ (t.plate ∷ [])))
            ∙ files_of-snoc t.closed t.plate
            ∙ h))
    | inr room ↦ rw room refl
  ]

  place-HasNames :
      (name : Bytes) (n : ℕ) (s : Filling) (w : W)
      → HasNames (names_in s ++ (name ∷ [])) (place folder F path dir name n s w)
  unfolding place
  place-HasNames name n s w =
      then-HasNames (names_in s) (names_in s ++ (name ∷ [])) (make_room folder F path n s w)
        (λ t. folder.read_file (join (dir ∷ name ∷ [])) >>= λ bytes.
          write_data_to folder F path bytes >> pure (append_file name n t))
        (make_room-HasNames n s w)
        (λ t v h.
          next-HasNames (names_in s ++ (name ∷ [])) (folder.read_file (join (dir ∷ name ∷ [])) v)
            (λ bytes. write_data_to folder F path bytes >> pure (append_file name n t))
            (λ bytes u.
              next-HasNames (names_in s ++ (name ∷ [])) (write_data_to folder F path bytes u)
                (λ _. pure (append_file name n t))
                (λ _ x.
                  sym (append_assoc (files_of t.closed) t.plate.files (name ∷ []))
                  ∙ ap (λ ns. ns ++ (name ∷ [])) h)))

  abbrev fill_after : Entry → List Entry → Filling → Option ℕ → Action W Filling
  fill_after e es s o = elim o [
    | none ↦ fill folder F path dir es s
    | some n ↦ place folder F path dir e.name n s >>= fill folder F path dir es
  ]

  -- The loop over the entries records each that is packed, in their order.
  pub fill-HasNames :
      (es : List Entry) (s : Filling) (w : W)
      → HasNames (names_in s ++ packed_names es) (fill folder F path dir es s w)
  unfolding fill
  fill-HasNames [] s w = sym (append-nil (names_in s))
  fill-HasNames (e ∷ es) s w = filled_by (packed_size e) (fill-HasNames es)
    where
      filled_by :
          (o : Option ℕ)
          → ((s : Filling) (w : W)
              → HasNames (names_in s ++ packed_names es) (fill folder F path dir es s w))
          → HasNames (names_in s ++ named_by e.name o (packed_names es)) (fill_after e es s o w)
      filled_by none k = k s w
      filled_by (some n) k =
          then-HasNames (names_in s ++ (e.name ∷ [])) (names_in s ++ (e.name ∷ packed_names es))
            (place folder F path dir e.name n s w) (fill folder F path dir es)
            (place-HasNames e.name n s w)
            (λ t v h.
              subst (λ ns. HasNames ns (fill folder F path dir es t v))
                (ap (λ ns. ns ++ packed_names es) h
                  ∙ append_assoc (names_in s) (e.name ∷ []) (packed_names es))
                (k t v))
