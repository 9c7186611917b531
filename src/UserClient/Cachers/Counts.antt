-- ===== src/UserClient/Cachers/Counts.antt =====
-- What the workers count: the paths they return, and how many there are at most.
use cess_dcdn_components.Base.FilePath.{join}
use cess_dcdn_components.UserClient.Cachers.{
  worker_moved, finished, run, scanning, start_pool, start_worker, step_at, waiting, Tally, Phase,
  Pool, Source, Worker, counting, fetching, step,
}
use cess_dcdn_components.Base.{
  Option, false, inl, inr, length-append, length-map, map, none, sym, true, ◌∙◌, Bool, Bytes, List,
  [], arith, get_elem?, length, refl, set, some, suc, zero, ℕ, ◌+◌, ◌<◌, ◌∷◌, ◌≡◌, ◌≤◌, ◌⊎◌,
}

-- One for a worker between the test of a fragment and its count.
abbrev pub in_flight : Phase → ℕ
in_flight (fetching f fs) = 1
in_flight (counting f fs) = 1
in_flight _ = 0

unfoldable pub pending : List Worker → ℕ
pending [] = 0
pending (w ∷ ws) = in_flight w.phase + pending ws

in_flight_le : (p : Phase) → in_flight p ≤ 1
in_flight_le p = ground arith

pub pending_le : (ws : List Worker) → pending ws ≤ length ws
unfolding pending
pending_le [] = omega arith
pending_le (w ∷ ws) = omega (arith, in_flight_le w.phase, pending_le ws)

pub pending-set :
    (ws : List Worker) (i : ℕ) (w v : Worker)
    → get_elem? ws i ≡ some w
    → pending (set ws i v) + in_flight w.phase ≡ pending ws + in_flight v.phase
unfolding pending
pending-set [] i w v e = cc
pending-set (u ∷ ws) zero w v e = let same : u ≡ w = cc in rw same (omega arith)
pending-set (u ∷ ws) (suc i) w v e = omega (arith, pending-set ws i w v e)

length-set : {A : Type 0} (xs : List A) (i : ℕ) (x : A) → length (set xs i x) ≡ length xs
length-set [] i x = refl
length-set (y ∷ xs) zero x = refl
length-set (y ∷ xs) (suc i) x = omega (arith, length-set xs i x)

module _ (data_shards : ℕ) (dir : Bytes) where
  -- One path and one credit for each that was counted, and no more than one over the wanted for each
  -- worker but the first.
  pub record IsCounted (n : ℕ) (p : Pool) : Type 0 where
    pub paths : length p.tally.res ≡ p.tally.dld
    pub credits : length p.tally.credited ≡ p.tally.dld
    pub workers : length p.workers ≡ n
    pub bound : p.tally.dld + pending p.workers + 1 ≤ data_shards + n

  step_counts :
      (fetched : Bool) (src : Source) (phase : Phase) (s : Tally)
      → let (s', phase') = step data_shards dir fetched src phase s in
        (length s'.res + s.dld ≡ s'.dld + length s.res)
        × (length s'.credited + s.dld ≡ s'.dld + length s.credited)
        × ((s'.dld + in_flight phase' ≤ s.dld + in_flight phase)
            ⊎ ((s.dld < data_shards) × (s'.dld ≡ s.dld)))
  unfolding step
  step_counts fetched src waiting s = ground arith
  step_counts fetched src (scanning []) s = ground arith
  step_counts fetched src (scanning (f ∷ fs)) s = ground arith
  step_counts true src (fetching f fs) s = ground arith
  step_counts false src (fetching f fs) s = ground arith
  step_counts fetched src (counting f fs) s = ground (
    arith,
    length-append s.res (join (dir ∷ f ∷ []) ∷ []),
    length-append s.credited (src.account ∷ []),
  )
  step_counts fetched src finished s = ground arith

  worker_moved-IsCounted :
      (n : ℕ) (p : Pool) (i : ℕ) (w : Worker) (r : Tally × Phase)
      → IsCounted n p
      → get_elem? p.workers i ≡ some w
      → (length r.0.res + p.tally.dld ≡ r.0.dld + length p.tally.res)
        × (length r.0.credited + p.tally.dld ≡ r.0.dld + length p.tally.credited)
        × ((r.0.dld + in_flight r.1 ≤ p.tally.dld + in_flight w.phase)
            ⊎ ((p.tally.dld < data_shards) × (r.0.dld ≡ p.tally.dld)))
      → IsCounted n (worker_moved data_shards dir p.workers i w r)
  worker_moved-IsCounted n p i w (s, phase) h e (a, b, c) = record {
    paths = omega (arith, h.paths);
    credits = omega (arith, h.credits);
    workers = length-set p.workers i (record w { phase = phase }) ∙ h.workers;
    bound = bounded c;
  }
    where
      bounded :
          (s.dld + in_flight phase ≤ p.tally.dld + in_flight w.phase)
            ⊎ ((p.tally.dld < data_shards) × (s.dld ≡ p.tally.dld))
          → s.dld + pending (set p.workers i (record w { phase = phase })) + 1 ≤ data_shards + n
      bounded (inl less) =
          omega (arith, h.bound, pending-set p.workers i w (record w { phase = phase }) e)
      bounded (inr few) = omega (
        arith,
        few.0,
        few.1,
        h.workers,
        length-set p.workers i (record w { phase = phase }),
        pending_le (set p.workers i (record w { phase = phase })),
      )

  step_at-IsCounted :
      (n : ℕ) (m : ℕ × Bool) (p : Pool) → IsCounted n p → IsCounted n (step_at data_shards dir m p)
  unfolding step_at
  step_at-IsCounted n (i, fetched) p h = go (get_elem? p.workers i) refl
    where
      go :
          (o : Option Worker)
          → get_elem? p.workers i ≡ o
          → IsCounted n (elim o [
            | none ↦ p
            | some w ↦
                worker_moved data_shards dir p.workers i w
                  (step data_shards dir fetched w.source w.phase p.tally)
          ])
      go none e = h
      go (some w) e =
          worker_moved-IsCounted n p i w (step data_shards dir fetched w.source w.phase p.tally) h e
            (step_counts fetched w.source w.phase p.tally)

  run-IsCounted :
      (n : ℕ) (ms : List (ℕ × Bool)) (p : Pool)
      → IsCounted n p
      → IsCounted n (run data_shards dir ms p)
  unfolding run
  run-IsCounted n [] p h = h
  run-IsCounted n (m ∷ ms) p h =
      run-IsCounted n ms (step_at data_shards dir m p) (step_at-IsCounted n m p h)

  pub pending-start : (ss : List Source) → pending (map start_worker ss) ≡ 0
  unfolding pending
  pending-start [] = refl
  pending-start (s ∷ ss) = omega (arith, pending-start ss)

  start-IsCounted : (ss : List Source) → 0 < data_shards → IsCounted (length ss) (start_pool ss)
  unfolding start_pool
  start-IsCounted ss h = record {
    paths = refl;
    credits = refl;
    workers = length-map start_worker ss;
    bound = omega (arith, pending-start ss);
  }

  pub length-workers :
      (ss : List Source) (ms : List (ℕ × Bool))
      → 0 < data_shards
      → length (run data_shards dir ms (start_pool ss)).workers ≡ length ss
  length-workers ss ms h =
      (run-IsCounted (length ss) ms (start_pool ss) (start-IsCounted ss h)).workers

  -- However the workers of some nodes take turns and whatever the downloads answer, each path that is
  -- returned was counted and credited once, and with `n` workers there are at most `n - 1` more of them
  -- than are wanted.
  pub run_counts :
      (ss : List Source) (ms : List (ℕ × Bool))
      → 0 < data_shards
      → let s = (run data_shards dir ms (start_pool ss)).tally in
        (length s.res ≡ s.dld)
        × (length s.credited ≡ length s.res)
        × (length s.res + 1 ≤ data_shards + length ss)
  run_counts ss ms h =
      let c = run-IsCounted (length ss) ms (start_pool ss) (start-IsCounted ss h) in
      (c.paths, c.credits ∙ sym c.paths, omega (arith, c.paths, c.bound))
