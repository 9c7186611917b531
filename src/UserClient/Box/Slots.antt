-- ===== src/UserClient/Box/Slots.antt =====
-- How a file of a box is found and read: the searches and slices of `DownloadFileInBox` and
-- `DownloadFileInBoxFromGateway` (cd2n-client/client/files.go).
use cess_dcdn_components.Base.Text.{text_eq_refl, eq_of_text_eq, text_eq}
use cess_dcdn_components.Base.Int.{i64_half}
use cess_dcdn_components.UserClient.Box.{FilePlate}
use cess_dcdn_components.Base.{
  false, true, zero, ◌≢◌, refl, ◌⊎◌, Bool-cases, ap, arith, get_elem?, inl, inr, suc, ◌≡◌, Bytes,
  List, Option, Outcome, [], drop, err, if◌then◌else◌, leb, length, ltb, none, ok, panic, some,
  take, ℕ, ◌+◌, ◌∷◌,
}

-- The inner loop: the first place of the name in a plate.
unfoldable pub find_in : Bytes → ℕ → List Bytes → Option ℕ
find_in name j [] = none
find_in name j (file ∷ files) =
    let rest = find_in name (j + 1) files in if text_eq file name then some j else rest

-- The outer loop, over `sidx` and `didx`; -1 is `none`. Its `break` leaves the inner loop only.
unfoldable pub find_slot : Bytes → ℕ → List FilePlate → Option (ℕ × ℕ) → Option (ℕ × ℕ)
unfolding find_in
find_slot name i [] at = at
find_slot name i (p ∷ ps) at =
    find_slot name (i + 1) ps (elim (find_in name 0 p.files) [ none ↦ at | some j ↦ some (i, j) ])

module _ (beyond : ℕ → Bytes → Outcome Bytes) where
  -- `data[:b]`; an index that is negative as an `int64` panics, and one beyond the length depends on the
  -- capacity.
  abbrev pub up_to : ℕ → Bytes → Outcome Bytes
  up_to b bytes =
      if leb b (length bytes)
      then ok (take b bytes)
      else if ltb b i64_half
      then beyond b bytes
      else panic

  -- `data` between the first two indexes left, or from the only one to the end.
  unfoldable pub cut : List ℕ → Bytes → Outcome Bytes
  cut [] bytes = ok bytes
  cut (a ∷ []) bytes = if leb a (length bytes) then ok (drop a bytes) else panic
  cut (a ∷ b ∷ ix) bytes =
      if ltb b a
      then panic
      else (elim (up_to b bytes) [ ok part ↦ ok (drop a part) | err e ↦ err e | panic ↦ panic ])

  -- The lines after `os.ReadFile`.
  abbrev pub read_slot : ℕ → FilePlate → Bytes → Outcome Bytes
  read_slot j p bytes = cut (drop j p.indexs) bytes

-- What the searches find is a place of the name.
find_in_sound :
    (name : Bytes) (j k : ℕ) (files : List Bytes)
    → find_in name j files ≡ some k
    → (i : ℕ) × (k ≡ j + i) × (get_elem? files i ≡ some name)
unfolding find_in
find_in_sound name j k [] h = cc
find_in_sound name j k (file ∷ files) h = elim (Bool-cases (text_eq file name)) [
  | inl same ↦ (0, ground arith, ap some (eq_of_text_eq file name same))
  | inr differ ↦
      let (i, e, g) = find_in_sound name (j + 1) k files (rw differ at h) in (suc i, omega arith, g)
]

-- The place of the name at which a search stands: a plate of the list, or the place it came with.
abbrev Placed : Bytes → ℕ → List FilePlate → Option (ℕ × ℕ) → ℕ → ℕ → Type 0
Placed name i ps start k j =
    (start ≡ some (k, j))
    ⊎ ((m : ℕ) × (p : FilePlate) × (k ≡ i + m)
        × (get_elem? ps m ≡ some p)
        × (get_elem? p.files j ≡ some name))

pub find_slot_sound :
    (name : Bytes) (i : ℕ) (ps : List FilePlate) (start : Option (ℕ × ℕ)) (k j : ℕ)
    → find_slot name i ps start ≡ some (k, j)
    → Placed name i ps start k j
unfolding find_slot
find_slot_sound name i [] start k j h = inl h
find_slot_sound name i (p ∷ ps) start k j h =
    placed_by (find_in name 0 p.files) refl (find_slot_sound name (i + 1) ps _ k j h)
  where
    placed_by :
        (o : Option ℕ)
        → find_in name 0 p.files ≡ o
        → Placed name (i + 1) ps (elim o [ none ↦ start | some j ↦ some (i, j) ]) k j
        → Placed name i (p ∷ ps) start k j
    placed_by o e (inr (m, q, e', g, n)) = inr (suc m, q, omega arith, g, n)
    placed_by none e (inl s) = inl s
    placed_by (some j') e (inl s) =
        let (t, d, g) = find_in_sound name 0 j' p.files e in
        let place : t ≡ j = ground arith in inr (0, p, ground arith, refl, rw (← place) g)

-- A search that fails has seen no place of the name.
find_in-none :
    (name : Bytes) (j : ℕ) (files : List Bytes)
    → find_in name j files ≡ none
    → (k : ℕ) → get_elem? files k ≢ some name
unfolding find_in
find_in-none name j [] h k e = cc
find_in-none name j (file ∷ files) h k e = elim (Bool-cases (text_eq file name)) [
  | inl same ↦ let found = rw same at h in cc
  | inr differ ↦ later k e differ (find_in-none name (j + 1) files (rw differ at h))
]
  where
    later :
        (k : ℕ)
        → get_elem? (file ∷ files) k ≡ some name
        → text_eq file name ≡ false
        → ((k : ℕ) → get_elem? files k ≢ some name)
        → ⊥
    later zero e differ ih =
        let same : file ≡ name = cc in
        let eq : text_eq file name ≡ true = rw same (text_eq_refl name) in
        ground (arith, eq, differ)
    later (suc k) e differ ih = ih k e

find_slot_keeps :
    (name : Bytes) (i : ℕ) (ps : List FilePlate) (x : ℕ × ℕ) → find_slot name i ps (some x) ≢ none
unfolding find_slot
find_slot_keeps name i [] x h = cc
find_slot_keeps name i (p ∷ ps) x h =
    kept_by (find_in name 0 p.files) (find_slot_keeps name (i + 1) ps) h
  where
    kept_by :
        (o : Option ℕ)
        → ((x : ℕ × ℕ) → find_slot name (i + 1) ps (some x) ≢ none)
        → find_slot name (i + 1) ps (elim o [ none ↦ some x | some j ↦ some (i, j) ]) ≢ none
    kept_by none ih e = ih x e
    kept_by (some j) ih e = ih (i, j) e

pub find_slot-none :
    (name : Bytes) (i : ℕ) (ps : List FilePlate)
    → find_slot name i ps none ≡ none
    → (m k : ℕ) (p : FilePlate) → get_elem? ps m ≡ some p
    → get_elem? p.files k ≢ some name
unfolding find_slot
find_slot-none name i [] h m k p e g = cc
find_slot-none name i (q ∷ ps) h m k p e g =
    missed_by (find_in name 0 q.files) refl h (find_slot-none name (i + 1) ps) m e
  where
    missed_by :
        (o : Option ℕ)
        → find_in name 0 q.files ≡ o
        → find_slot name (i + 1) ps (elim o [ none ↦ none | some j ↦ some (i, j) ]) ≡ none
        → (find_slot name (i + 1) ps none ≡ none
            → (m k : ℕ) (p : FilePlate) → get_elem? ps m ≡ some p
            → get_elem? p.files k ≢ some name)
        → (m : ℕ) → get_elem? (q ∷ ps) m ≡ some p
        → ⊥
    missed_by (some j) f h ih m e = find_slot_keeps name (i + 1) ps (i, j) h
    missed_by none f h ih zero e =
        let same : q ≡ p = cc in find_in-none name 0 q.files f k (rw same g)
    missed_by none f h ih (suc m) e = ih h m k p e g
