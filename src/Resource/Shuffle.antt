-- ===== src/Resource/Shuffle.antt =====
-- `ShuffleSegments`: it exchanges elements, and loses none.
use cess_dcdn_components.Base.{
  ◌∙◌, Bool, List, Option, [], arith, get_elem?, if◌then◌else◌, length, none, refl, set, some, suc,
  zero, ℕ, ◌+◌, ◌-◌, ◌<◌, ◌∷◌, ◌≡◌, ◌≤◌,
}

abbrev one_if : Bool → ℕ
one_if b = if b then 1 else 0

module _ {A : Type 0} where
  -- `xs[i], xs[j] = xs[j], xs[i]`; an index out of range panics in Go.
  abbrev pub swap : List A → ℕ → ℕ → Option (List A)
  swap xs i j = elim (get_elem? xs i) [
    | none ↦ none
    | some x ↦ elim (get_elem? xs j) [ none ↦ none | some y ↦ some (set (set xs i y) j x) ]
  ]

  -- The loop from the index `i` down to 1; `rand.Intn(i+1)` answers with `pick i`.
  unfoldable pub shuffle_from : (ℕ → ℕ) → ℕ → List A → Option (List A)
  shuffle_from pick zero xs = some xs
  shuffle_from pick (suc i) xs = elim (swap xs (suc i) (pick (suc i))) [
    | none ↦ none
    | some ys ↦ shuffle_from pick i ys
  ]

  -- `ShuffleSegments`
  unfoldable pub shuffle_segments : (ℕ → ℕ) → List A → Option (List A)
  unfolding shuffle_from
  shuffle_segments pick xs = shuffle_from pick (length xs - 1) xs

  -- How many elements pass a test.
  abbrev pub tally : (A → Bool) → List A → ℕ
  tally p [] = 0
  tally p (x ∷ xs) = if p x then suc (tally p xs) else tally p xs

  get_elem?-some : (xs : List A) (i : ℕ) → i < length xs → (x : A) × (get_elem? xs i ≡ some x)
  get_elem?-some [] i h = absurd (omega arith)
  get_elem?-some (x ∷ xs) zero h = (x, refl)
  get_elem?-some (x ∷ xs) (suc i) h = get_elem?-some xs i (omega arith)

  length-set : (xs : List A) (i : ℕ) (v : A) → length (set xs i v) ≡ length xs
  length-set [] i v = refl
  length-set (x ∷ xs) zero v = refl
  length-set (x ∷ xs) (suc i) v = omega (arith, length-set xs i v)

  tally-set :
      (p : A → Bool) (xs : List A) (i : ℕ) (v : A) {x : A}
      → get_elem? xs i ≡ some x
      → tally p (set xs i v) + one_if (p x) ≡ tally p xs + one_if (p v)
  tally-set p [] i v e = cc
  tally-set p (x ∷ xs) zero v e = ground arith
  tally-set p (x ∷ xs) (suc i) v e = ground (arith, tally-set p xs i v e)

  -- What stands at the second place stays there, when it is stored at the first.
  get_elem?-set :
      (xs : List A) (i j : ℕ) {y : A} → get_elem? xs j ≡ some y → get_elem? (set xs i y) j ≡ some y
  get_elem?-set [] i j e = e
  get_elem?-set (x ∷ xs) zero zero e = refl
  get_elem?-set (x ∷ xs) zero (suc j) e = e
  get_elem?-set (x ∷ xs) (suc i) zero e = e
  get_elem?-set (x ∷ xs) (suc i) (suc j) e = get_elem?-set xs i j e

  tally-swap :
      (p : A → Bool) (xs : List A) (i j : ℕ)
      → i < length xs
      → j < length xs
      → (ys : List A) × (swap xs i j ≡ some ys)
        × (length ys ≡ length xs)
        × (tally p ys ≡ tally p xs)
  tally-swap p xs i j hi hj =
      let (x, ex) = get_elem?-some xs i hi in
      let (y, ey) = get_elem?-some xs j hj in
      (
        set (set xs i y) j x,
        rw (ex, swap) (rw ey refl),
        length-set (set xs i y) j x ∙ length-set xs i y,
        omega
            (arith, tally-set p xs i y ex, tally-set p (set xs i y) j x (get_elem?-set xs i j ey)),
      )

  shuffle_from-tally :
      (pick : ℕ → ℕ) (p : A → Bool) (i : ℕ) (xs : List A)
      → ((k : ℕ) → pick k ≤ k)
      → i ≤ length xs - 1
      → (ys : List A) × (shuffle_from pick i xs ≡ some ys)
        × (length ys ≡ length xs)
        × (tally p ys ≡ tally p xs)
  unfolding shuffle_from
  shuffle_from-tally pick p zero xs h b = (xs, refl, refl, refl)
  shuffle_from-tally pick p (suc i) xs h b =
      let (ys, e, l, t) =
        tally-swap p xs (suc i) (pick (suc i)) (omega arith) (omega (arith, h (suc i))) in
      let (zs, e', l', t') = shuffle_from-tally pick p i ys h (omega arith) in
      (zs, rw (e, shuffle_from) e', l' ∙ l, t' ∙ t)

  -- With picks that `rand.Intn` can make, the exchange never leaves the list, and as many elements pass
  -- any test after it as before, in a list of the same length.
  pub shuffle_segments-tally :
      (pick : ℕ → ℕ) (p : A → Bool) (xs : List A)
      → ((i : ℕ) → pick i ≤ i)
      → (ys : List A) × (shuffle_segments pick xs ≡ some ys)
        × (length ys ≡ length xs)
        × (tally p ys ≡ tally p xs)
  unfolding shuffle_segments
  shuffle_segments-tally pick p xs h = shuffle_from-tally pick p (length xs - 1) xs h (omega arith)
