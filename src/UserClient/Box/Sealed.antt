-- ===== src/UserClient/Box/Sealed.antt =====
-- What the lines after the loop of `CreateAFileBox` do to the last plate.
use mathlib.Core.List.{append_assoc}
use cess_dcdn_components.UserClient.Box.Layout.{
  Ends, IsPacked, Reads, Reads-of_IsPacked, concat, offsets,
}
use cess_dcdn_components.UserClient.Box.{set_last, FilePlate, seal_plate}
use cess_dcdn_components.Base.{
  Pairs, length-map, Bytes, List, Outcome, [], ap, arith, err, get_elem?-snoc, inl, inr, length,
  length-append, map, ok, panic, refl, ℕ, ◌++◌, ◌+◌, ◌<◌, ◌∷◌, ◌≡◌,
}

module _ (beyond : ℕ → Bytes → Outcome Bytes) (contents : Bytes → Bytes) where
  -- Every file of a plate is read back from the plate's fragment; of the last plate this is said where it
  -- has more indexes than names.
  abbrev pub ReadsBox : List FilePlate → List Bytes → Type 0
  ReadsBox [] [] = Unit
  ReadsBox [] (b ∷ bs) = ⊥
  ReadsBox (p ∷ ps) [] = ⊥
  ReadsBox (p ∷ []) (b ∷ bs) =
      (bs ≡ []) × (length p.files < length p.indexs → Reads beyond contents p b)
  ReadsBox (p ∷ q ∷ ps) (b ∷ bs) = Reads beyond contents p b × ReadsBox (q ∷ ps) bs

  length-offsets : (s : ℕ) (ps : List Bytes) → length (offsets s ps) ≡ length ps
  unfolding offsets
  length-offsets s [] = refl
  length-offsets s (p ∷ ps) = omega (arith, length-offsets (s + length p) ps)

  -- The index that is added after the last plate's does not change where its padding begins.
  seal_plate-IsPacked :
      (p : FilePlate) (b rest : Bytes) (tail : List ℕ) (size : ℕ)
      → b ≡ concat (map contents p.files) ++ rest
      → p.indexs ≡ offsets 0 (map contents p.files) ++ tail
      → Ends (length (concat (map contents p.files))) rest tail
      → length (p.files ++ ([] ∷ [])) < length (p.indexs ++ (size ∷ []))
      → IsPacked contents (record p { indexs = p.indexs ++ (size ∷ []) }) b
  seal_plate-IsPacked p b rest [] size e i ends more = absurd (
      omega (
        arith,
        ap length i,
        length-append p.files ([] ∷ []),
        length-append p.indexs (size ∷ []),
        length-append (offsets 0 (map contents p.files)) [],
        length-offsets 0 (map contents p.files),
        length-map contents p.files,
      ))
  seal_plate-IsPacked p b rest (t ∷ ts) size e i ends more = record {
    rest = rest;
    tail = t ∷ (ts ++ (size ∷ []));
    bytes = e;
    places = rw i (append_assoc (offsets 0 (map contents p.files)) (t ∷ ts) (size ∷ []));
    ends = ends;
  }

  seal_plate-Reads :
      (p : FilePlate) (b : Bytes) (size : ℕ)
      → IsPacked contents p b
      → length (seal_plate size p).files < length (seal_plate size p).indexs
      → Reads beyond contents (seal_plate size p) b
  seal_plate-Reads p b size h more j name e ne = elim (get_elem?-snoc p.files [] j name e) [
    | inl old ↦
        Reads-of_IsPacked beyond contents (record p { indexs = p.indexs ++ (size ∷ []) }) b
          (seal_plate-IsPacked p b h.rest h.tail size h.bytes h.places h.ends more) j name old ne
    | inr marker ↦ absurd (ne marker)
  ]

  abbrev pub SealedBox : List Bytes → Outcome (List FilePlate) → Type 0
  SealedBox bs (ok ps) = ReadsBox ps bs
  SealedBox bs (err e) = ⊥
  SealedBox bs panic = bs ≡ []

  -- The list that the recursion builds, with the plate in front.
  abbrev in_front : FilePlate → Outcome (List FilePlate) → Outcome (List FilePlate)
  in_front p r = elim r [ ok rest ↦ ok (p ∷ rest) | err e ↦ err e | panic ↦ panic ]

  in_front-SealedBox :
      (p : FilePlate) (b c : Bytes) (bs : List Bytes) (r : Outcome (List FilePlate))
      → Reads beyond contents p b
      → SealedBox (c ∷ bs) r
      → SealedBox (b ∷ c ∷ bs) (in_front p r)
  in_front-SealedBox p b c bs (ok []) h k = absurd k
  in_front-SealedBox p b c bs (ok (q ∷ ps)) h k = (h, k)
  in_front-SealedBox p b c bs (err e) h k = absurd k
  in_front-SealedBox p b c bs panic h k = cc

  -- The last plate is sealed, and there is no panic unless there is no plate.
  pub set_last-SealedBox :
      (size : ℕ) (ps : List FilePlate) (bs : List Bytes)
      → Pairs (IsPacked contents) ps bs
      → SealedBox bs (set_last (seal_plate size) ps)
  unfolding set_last
  set_last-SealedBox size [] [] h = refl
  set_last-SealedBox size [] (b ∷ bs) h = absurd h
  set_last-SealedBox size (p ∷ ps) [] h = absurd h
  set_last-SealedBox size (p ∷ []) (b ∷ []) h = (refl, seal_plate-Reads p b size h.0)
  set_last-SealedBox size (p ∷ []) (b ∷ c ∷ bs) h = absurd h.1
  set_last-SealedBox size (p ∷ q ∷ ps) (b ∷ []) h = absurd h.1
  set_last-SealedBox size (p ∷ q ∷ ps) (b ∷ c ∷ bs) h =
      in_front-SealedBox p b c bs (set_last (seal_plate size) (q ∷ ps))
        (Reads-of_IsPacked beyond contents p b h.0) (set_last-SealedBox size (q ∷ ps) (c ∷ bs) h.1)
