-- ===== src/Transfer/Reads.antt =====
-- What `ReadData` makes of a message, by the chunks in which it arrives.
use cess_dcdn_components.Transfer.Streams.{buffer_size, read_data, read_data_from, reads, remaining}
use cess_dcdn_components.Base.{
  Bytes, List, [], ap, arith, drop, err, length, length-drop, length-take, ok, panic, refl, suc,
  take, take-append-drop, take_all, zero, ℕ, ◌*◌, ◌++◌, ◌+◌, ◌<◌, ◌∙◌, ◌∷◌, ◌≡◌, ◌≢◌, ◌≤◌,
}
use mathlib.Core.List.{append_assoc}

module _ (n : ℕ) (positive : 0 < n) where
  pub reads-remaining : (c : Bytes) (cs : List Bytes) → reads (remaining n c cs) < reads (c ∷ cs)
  reads-remaining c cs = ground (arith, length-drop n c)

  read_data_from-total :
      (fuel : ℕ) (res e : Bytes) (cs : List Bytes)
      → reads cs ≤ fuel
      → read_data_from n fuel res e cs ≢ panic
  unfolding read_data_from
  read_data_from-total zero res e [] h = absurd (omega arith)
  read_data_from-total zero res e (c ∷ cs) h = absurd (omega arith)
  read_data_from-total (suc fuel) res e [] h = ground arith
  read_data_from-total (suc fuel) res e (c ∷ cs) h =
      let less = reads-remaining c cs in
      ground (arith, read_data_from-total fuel (res ++ take n c) e (remaining n c cs) (omega arith))

  pub remaining_more :
      (c : Bytes) (cs : List Bytes) → n < length c → remaining n c cs ≡ drop n c ∷ cs
  remaining_more c cs h = ground arith

  pub remaining_last : (c : Bytes) (cs : List Bytes) → length c ≤ n → remaining n c cs ≡ cs
  remaining_last c cs h = ground arith

  -- A read that fills the buffer goes on.
  read_data_from-full :
      (fuel : ℕ) (res e c : Bytes) (cs : List Bytes)
      → n ≤ length c
      → read_data_from n (suc fuel) res e (c ∷ cs)
        ≡ read_data_from n fuel (res ++ take n c) e (remaining n c cs)
  unfolding read_data_from
  read_data_from-full fuel res e c cs h = ground (arith, length-take n c h)

  append-take : (res c : Bytes) → (res ++ take n c) ++ drop n c ≡ res ++ c
  append-take res c =
      append_assoc res (take n c) (drop n c) ∙ ap (λ l. res ++ l) (take-append-drop n c)

  read_data_from-short :
      (fuel k r : ℕ) (res e c : Bytes) (cs : List Bytes)
      → k < fuel
      → length c ≡ k * n + r
      → r < n
      → (0 < k → 0 < r)
      → read_data_from n fuel res e (c ∷ cs) ≡ ok (res ++ c)
  unfolding read_data_from
  read_data_from-short zero k r res e c cs f h s t = absurd (omega arith)
  read_data_from-short (suc fuel) zero r res e c cs f h s t =
      ground (arith, take_all n c (omega arith))
  read_data_from-short (suc fuel) (suc k) r res e c cs f h s t =
      read_data_from-full fuel res e c cs (ground arith)
      ∙ rw (remaining_more c cs (ground (arith, t (omega arith)))) (
          read_data_from-short fuel k r (res ++ take n c) e (drop n c) cs (omega arith)
            (ground (arith, length-drop n c)) s (λ _. t (omega arith))
          ∙ ap ok (append-take res c))

  read_data_from-multiple :
      (fuel k : ℕ) (res e c : Bytes)
      → suc k < fuel
      → length c ≡ suc k * n
      → read_data_from n fuel res e (c ∷ []) ≡ err e
  unfolding read_data_from
  read_data_from-multiple zero k res e c f h = absurd (omega arith)
  read_data_from-multiple (suc zero) k res e c f h = absurd (omega arith)
  read_data_from-multiple (suc (suc fuel)) zero res e c f h =
      read_data_from-full (suc fuel) res e c [] (omega arith)
      ∙ rw (remaining_last c [] (omega arith)) refl
  read_data_from-multiple (suc fuel) (suc k) res e c f h =
      read_data_from-full fuel res e c [] (ground arith)
      ∙ rw (remaining_more c [] (ground arith)) (
          read_data_from-multiple fuel k (res ++ take n c) e (drop n c) (omega arith)
            (ground (arith, length-drop n c)))

-- A message that arrives in one chunk is read whole, unless its length is a multiple of the buffer's.
pub read_data_short :
    (e c : Bytes) (cs : List Bytes) (k r : ℕ)
    → length c ≡ k * buffer_size + r
    → 0 < r
    → r < buffer_size
    → read_data e (c ∷ cs) ≡ ok c
unfolding read_data
read_data_short e c cs k r h p s =
    read_data_from-short buffer_size (omega arith) (reads (c ∷ cs)) k r [] e c cs (omega arith) h s
      (λ _. p)

-- A message whose length is a positive multiple of the buffer's, in one chunk with nothing after it, is
-- lost: the read after it meets the end, and `ReadData` answers with that error only.
pub read_data_multiple :
    (e c : Bytes) (k : ℕ) → length c ≡ suc k * buffer_size → read_data e (c ∷ []) ≡ err e
unfolding read_data
read_data_multiple e c k h =
    read_data_from-multiple buffer_size (omega arith) (reads (c ∷ [])) k [] e c (omega arith) h
