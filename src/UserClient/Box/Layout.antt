-- ===== src/UserClient/Box/Layout.antt =====
-- How a plate lies in its fragment: the files one after the other, and where each begins.
use cess_dcdn_components.UserClient.Box.{FilePlate}
use cess_dcdn_components.UserClient.Box.Slots.{read_slot, cut}
use cess_dcdn_components.Base.{
  drop, get_elem?, get_elem?-map, map, some, suc, zero, ◌≢◌, Bytes, List, Outcome, [], ap, arith,
  drop_append, leb, length, length-append, ltb_of_le, ok, refl, sym, take_append, true, ℕ, ◌++◌,
  ◌+◌, ◌∙◌, ◌∷◌, ◌≡◌,
}
use mathlib.Core.List.{append_assoc, append-nil}

-- Texts one after the other.
unfoldable pub concat : List Bytes → Bytes
concat [] = []
concat (p ∷ ps) = p ++ concat ps

-- Where each of them begins when the first begins at `s`.
unfoldable pub offsets : ℕ → List Bytes → List ℕ
offsets s [] = []
offsets s (p ∷ ps) = s ∷ offsets (s + length p) ps

pub concat-snoc : (ps : List Bytes) (p : Bytes) → concat (ps ++ (p ∷ [])) ≡ concat ps ++ p
unfolding concat
concat-snoc [] p = append-nil p
concat-snoc (q ∷ ps) p = ap (λ r. q ++ r) (concat-snoc ps p) ∙ sym (append_assoc q (concat ps) p)

pub offsets-snoc :
    (s : ℕ) (ps : List Bytes) (p : Bytes)
    → offsets s (ps ++ (p ∷ [])) ≡ offsets s ps ++ ((s + length (concat ps)) ∷ [])
unfolding offsets concat
offsets-snoc s [] p = ap (λ n. n ∷ []) (omega arith)
offsets-snoc s (q ∷ ps) p =
    ap (λ ix. s ∷ ix)
      (offsets-snoc (s + length q) ps p
        ∙ ap (λ n. offsets (s + length q) ps ++ (n ∷ []))
            (omega (arith, length-append q (concat ps))))

-- What the indexes after the last file's say: where the file ends, or else that it ends the fragment.
abbrev pub Ends : ℕ → Bytes → List ℕ → Type 0
Ends n rest [] = rest ≡ []
Ends n rest (t ∷ ts) = t ≡ n

Ends-start : (n : ℕ) (rest : Bytes) (tail : List ℕ) → Ends n rest tail → Ends (0 + n) rest tail
Ends-start n rest [] h = h
Ends-start n rest (t ∷ ts) h = omega arith

-- The fragment holds the plate's files one after the other, from its beginning; the indexes say where
-- each begins and, when more follows the last file, where that ends.
pub record IsPacked (contents : Bytes → Bytes) (p : FilePlate) (fragment : Bytes) : Type 0 where
  pub rest : Bytes
  pub tail : List ℕ
  pub bytes : fragment ≡ concat (map contents p.files) ++ rest
  pub places : p.indexs ≡ offsets 0 (map contents p.files) ++ tail
  pub ends : Ends (length (concat (map contents p.files))) rest tail

module _ (beyond : ℕ → Bytes → Outcome Bytes) where
  -- A text between two others, by the places where it begins and ends.
  cut-middle :
      (pre x rest : Bytes) (ix : List ℕ)
      → cut beyond (length pre ∷ (length pre + length x) ∷ ix) (pre ++ (x ++ rest)) ≡ ok x
  unfolding cut
  cut-middle pre x rest ix =
      rw
        (
          ltb_of_le (length pre + length x) (length pre) (omega arith),
          fits,
          ← length-append pre x,
          ← append_assoc pre x rest,
          take_append (pre ++ x) rest,
          drop_append pre x,
        )
        refl
    where
      fits : leb (length pre + length x) (length (pre ++ (x ++ rest))) ≡ true
      fits = ground (arith, length-append pre (x ++ rest), length-append x rest)

  cut-last : (pre x : Bytes) → cut beyond (length pre ∷ []) (pre ++ x) ≡ ok x
  unfolding cut
  cut-last pre x = rw (fits, drop_append pre x) refl
    where
      fits : leb (length pre) (length (pre ++ x)) ≡ true
      fits = ground (arith, length-append pre x)

  cut-first :
      (p : Bytes) (ps : List Bytes) (pre rest : Bytes) (tail : List ℕ)
      → Ends (length pre + length (p ++ concat ps)) rest tail
      → cut beyond
          (length pre ∷ (offsets (length pre + length p) ps ++ tail))
          (pre ++ ((p ++ concat ps) ++ rest))
        ≡ ok p
  unfolding offsets concat
  cut-first p [] pre rest [] h = rw (h, append-nil (p ++ []), append-nil p) (cut-last pre p)
  cut-first p [] pre rest (t ∷ ts) h = rw (h, append-nil p) (cut-middle pre p rest ts)
  cut-first p (q ∷ ps) pre rest tail h =
      rw (append_assoc p (q ++ concat ps) rest) (cut-middle pre p ((q ++ concat ps) ++ rest) _)

  -- Each of the texts is read by the place where it begins.
  pub cut_part :
      (ps : List Bytes) (j : ℕ) (x pre rest : Bytes) (tail : List ℕ)
      → get_elem? ps j ≡ some x
      → Ends (length pre + length (concat ps)) rest tail
      → cut beyond (drop j (offsets (length pre) ps ++ tail)) (pre ++ (concat ps ++ rest)) ≡ ok x
  unfolding offsets concat
  cut_part [] j x pre rest tail e h = cc
  cut_part (p ∷ ps) zero x pre rest tail e h =
      let same : p ≡ x = cc in rw (← same) (cut-first p ps pre rest tail h)
  cut_part (p ∷ ps) (suc j) x pre rest tail e h =
      rw
        (
          append_assoc p (concat ps) rest,
          ← append_assoc pre p (concat ps ++ rest),
          ← length-append pre p,
        )
        (cut_part ps j x (pre ++ p) rest tail e (rw (length-append pre p, ← sum) h))
    where
      sum : length pre + length (p ++ concat ps) ≡ length pre + length p + length (concat ps)
      sum = omega (arith, length-append p (concat ps))

  module _ (contents : Bytes → Bytes) where
    -- Each file of the plate is read back from the fragment.
    abbrev pub Reads : FilePlate → Bytes → Type 0
    Reads p fragment =
        (j : ℕ) (name : Bytes)
        → get_elem? p.files j ≡ some name
        → name ≢ []
        → read_slot beyond j p fragment ≡ ok (contents name)

    pub Reads-of_IsPacked :
        (p : FilePlate) (fragment : Bytes) → IsPacked contents p fragment → Reads p fragment
    Reads-of_IsPacked p fragment h j name e ne =
        rw (h.bytes, h.places)
          (cut_part (map contents p.files) j (contents name) [] h.rest h.tail
            (get_elem?-map contents p.files j name e) (Ends-start _ h.rest h.tail h.ends))
