-- ===== src/Transfer/Writes.antt =====
-- What `WriteData` makes of a message, and how it leaves the file.
use cess_dcdn_components.Transfer.Reads.{remaining_last, remaining_more}
use cess_dcdn_components.Transfer.Streams.{
  buffer_size, reads, remaining, write_data, write_data_from,
}
use cess_dcdn_components.Base.{
  if◌then◌else◌, ltb, pure, bind_ok, ◌>>◌, Action, Bytes, List, [], ap, arith, drop, err, length,
  length-drop, length-take, ok, refl, suc, take, take-append-drop, take_all, zero, ℕ, ◌*◌, ◌++◌,
  ◌+◌, ◌<◌, ◌∙◌, ◌∷◌, ◌≡◌, ◌≤◌,
}
use mathlib.Core.List.{append_assoc}

module _ {W : Type 0} (write : Bytes → Action W (Unit {0})) (content : W → Bytes)
    (works : (b : Bytes) (w : W) → (write b w).0 ≡ ok tt)
    (appends : (b : Bytes) (w : W) → content (write b w).1 ≡ content w ++ b) where
  after_write : (b : Bytes) (w : W) (f : Action W (Unit {0})) → (write b >> f) w ≡ f (write b w).1
  after_write b w f = bind_ok (write b) (λ _. f) (ap (λ r. (r, (write b w).1)) (works b w))

  module _ (n : ℕ) (positive : 0 < n) where
    -- A write of a whole buffer goes on; a shorter one is the last.
    write_data_from-full :
        (fuel : ℕ) (e c : Bytes) (cs : List Bytes) (w : W)
        → n ≤ length c
        → write_data_from write n (suc fuel) e (c ∷ cs) w
          ≡ write_data_from write n fuel e (remaining n c cs) (write (take n c) w).1
    unfolding write_data_from
    write_data_from-full fuel e c cs w h =
        after_write (take n c) w (
          if ltb (length (take n c)) n
          then pure tt
          else write_data_from write n fuel e (remaining n c cs))
        ∙ ground (arith, length-take n c h)

    write_data_from-last :
        (fuel : ℕ) (e c : Bytes) (cs : List Bytes) (w : W)
        → length c < n
        → write_data_from write n (suc fuel) e (c ∷ cs) w ≡ (ok tt, (write (take n c) w).1)
    unfolding write_data_from
    write_data_from-last fuel e c cs w h =
        after_write (take n c) w (
          if ltb (length (take n c)) n
          then pure tt
          else write_data_from write n fuel e (remaining n c cs))
        ∙ ground (arith, take_all n c (omega arith))

    content-take : (c : Bytes) (w : W) → content (write (take n c) w).1 ++ drop n c ≡ content w ++ c
    content-take c w = rw (appends (take n c) w) (
        append_assoc (content w) (take n c) (drop n c)
        ∙ ap (λ l. content w ++ l) (take-append-drop n c))

    write_data_from-short :
        (fuel k r : ℕ) (e c : Bytes) (cs : List Bytes) (w : W)
        → k < fuel
        → length c ≡ k * n + r
        → r < n
        → (0 < k → 0 < r)
        → ((write_data_from write n fuel e (c ∷ cs) w).0 ≡ ok tt)
          × (content (write_data_from write n fuel e (c ∷ cs) w).1 ≡ content w ++ c)
    write_data_from-short zero k r e c cs w f h s t = absurd (omega arith)
    write_data_from-short (suc fuel) zero r e c cs w f h s t =
        rw (write_data_from-last fuel e c cs w (omega arith))
          (refl, rw (take_all n c (omega arith)) (appends c w))
    write_data_from-short (suc fuel) (suc k) r e c cs w f h s t =
        let rest =
          write_data_from-short fuel k r e (drop n c) cs (write (take n c) w).1 (omega arith)
            (ground (arith, length-drop n c)) s (λ _. t (omega arith)) in
        rw (write_data_from-full fuel e c cs w (ground arith)) (
          rw (remaining_more n positive c cs (ground (arith, t (omega arith))))
            (rest.0, rest.1 ∙ content-take c w))

    write_data_from-multiple :
        (fuel k : ℕ) (e c : Bytes) (w : W)
        → suc k < fuel
        → length c ≡ suc k * n
        → ((write_data_from write n fuel e (c ∷ []) w).0 ≡ err e)
          × (content (write_data_from write n fuel e (c ∷ []) w).1 ≡ content w ++ c)
    unfolding write_data_from
    write_data_from-multiple zero k e c w f h = absurd (omega arith)
    write_data_from-multiple (suc zero) k e c w f h = absurd (omega arith)
    write_data_from-multiple (suc (suc fuel)) zero e c w f h =
        rw (write_data_from-full (suc fuel) e c [] w (omega arith)) (
          rw (remaining_last n positive c [] (omega arith))
            (refl, rw (take_all n c (omega arith)) (appends c w)))
    write_data_from-multiple (suc fuel) (suc k) e c w f h =
        let rest =
          write_data_from-multiple fuel k e (drop n c) (write (take n c) w).1 (omega arith)
            (ground (arith, length-drop n c)) in
        rw (write_data_from-full fuel e c [] w (ground arith))
          (rw (remaining_more n positive c [] (ground arith)) (rest.0, rest.1 ∙ content-take c w))

  -- A body whose length is no multiple of the buffer's is written whole, without an error.
  pub write_data_short :
      (e c : Bytes) (k r : ℕ) (w : W)
      → length c ≡ k * buffer_size + r
      → 0 < r
      → r < buffer_size
      → ((write_data write e (c ∷ []) w).0 ≡ ok tt)
        × (content (write_data write e (c ∷ []) w).1 ≡ content w ++ c)
  unfolding write_data
  write_data_short e c k r w h p s =
      write_data_from-short buffer_size (omega arith) (reads (c ∷ [])) k r e c [] w (omega arith) h
        s (λ _. p)

  -- A body whose length is a positive multiple of the buffer's is written whole, but `WriteData`
  -- fails, with the error at the reader's end.
  pub write_data_multiple :
      (e c : Bytes) (k : ℕ) (w : W)
      → length c ≡ suc k * buffer_size
      → ((write_data write e (c ∷ []) w).0 ≡ err e)
        × (content (write_data write e (c ∷ []) w).1 ≡ content w ++ c)
  unfolding write_data
  write_data_multiple e c k w h =
      write_data_from-multiple buffer_size (omega arith) (reads (c ∷ [])) k e c w (omega arith) h
