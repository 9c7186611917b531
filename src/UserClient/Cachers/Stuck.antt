-- ===== src/UserClient/Cachers/Stuck.antt =====
-- What the workers do where the nodes have too few fragments: they wait for ever.
use cess_dcdn_components.Base.Int.{ltb_ℤ, pos}
use cess_dcdn_components.Base.Text.{text_eq, text_eq_iff}
use cess_dcdn_components.UserClient.Cachers.Counts.{
  length-workers, pending-set, pending-start, in_flight, pending,
}
use cess_dcdn_components.UserClient.Cachers.{
  worker_moved, all_finished, is_finished, run, start_pool, start_worker, step_at, Phase, Pool,
  Source, Tally, Worker, counting, fetching, finished, is_cached, scanning, step, uncache, waiting,
}
use cess_dcdn_components.Base.{
  All-get, All-set, Bool, Bool-cases, Option, get_elem?, inl, inr, leb, map, none, refl, some, All,
  Bytes, List, [], arith, false, length, true, ℕ, ◌+◌, ◌<◌, ◌∷◌, ◌≡◌, ◌≤◌,
}

-- The texts of a list are ones of another.
abbrev pub Within : List Bytes → List Bytes → Type 0
Within all fs = All (λ f. is_cached f all ≡ true) fs

abbrev Fresh : List Bytes → Type 0
Fresh [] = Unit
Fresh (f ∷ fs) = (is_cached f fs ≡ false) × Fresh fs

is_cached-uncache :
    (f g : Bytes) (gs : List Bytes)
    → text_eq f g ≡ false
    → is_cached f gs ≡ true
    → is_cached f (uncache g gs) ≡ true
unfolding is_cached uncache
is_cached-uncache f g [] d h = cc
is_cached-uncache f g (k ∷ gs) d h =
    ground (arith, text_eq_iff k g, text_eq_iff k f, text_eq_iff f g, is_cached-uncache f g gs d)

length-uncache_le : (f : Bytes) (gs : List Bytes) → length (uncache f gs) ≤ length gs
unfolding uncache
length-uncache_le f [] = omega arith
length-uncache_le f (g ∷ gs) = ground (arith, length-uncache_le f gs)

length-uncache :
    (f : Bytes) (gs : List Bytes) → is_cached f gs ≡ true → length (uncache f gs) < length gs
unfolding is_cached uncache
length-uncache f [] h = cc
length-uncache f (g ∷ gs) h = ground (arith, length-uncache_le f gs, length-uncache f gs)

Within-uncache :
    (g : Bytes) (all fs : List Bytes)
    → is_cached g fs ≡ false
    → Within all fs
    → Within (uncache g all) fs
unfolding is_cached
Within-uncache g all [] d h = tt
Within-uncache g all (f ∷ fs) d (h, hs) =
    let differ : text_eq f g ≡ false = ground arith in
    let rest : is_cached g fs ≡ false = ground arith in
    (is_cached-uncache f g all differ h, Within-uncache g all fs rest hs)

-- Distinct texts of a list are not more than the list has.
length_le_of_Within : (all fs : List Bytes) → Fresh fs → Within all fs → length fs ≤ length all
length_le_of_Within all [] d h = omega arith
length_le_of_Within all (f ∷ fs) (new, d) (h, hs) = omega (
  arith,
  length-uncache f all h,
  length_le_of_Within (uncache f all) fs d (Within-uncache f all fs new hs),
)

-- The order in which the workers move, where every download succeeds.
abbrev pub succeeding : List ℕ → List (ℕ × Bool)
succeeding is = map (λ i. (i, true)) is

leb_of_lt : (a b : ℕ) → a < b → leb b a ≡ false
leb_of_lt a b h = ground arith

module _ (data_shards : ℕ) (dir : Bytes) (all : List Bytes) where
  -- The fragments that a worker has before it are among those of the nodes, and it has not ended.
  abbrev IsRunning : Phase → Type 0
  IsRunning waiting = Unit
  IsRunning (scanning fs) = Within all fs
  IsRunning (fetching f fs) = Within all fs
  IsRunning (counting f fs) = Within all fs
  IsRunning finished = ⊥

  abbrev IsAtWork : Worker → Type 0
  IsAtWork w = IsRunning w.phase × Within all w.source.fragments

  -- The fragments that are marked are distinct ones of the nodes, and each is counted or on its way.
  pub record IsShort (p : Pool) : Type 0 where
    pub fresh : Fresh p.tally.cached
    pub within : Within all p.tally.cached
    pub counted : p.tally.dld + pending p.workers ≡ length p.tally.cached
    pub at_work : All IsAtWork p.workers

  step_short :
      (src : Source) (phase : Phase) (s : Tally)
      → s.dld < data_shards
      → IsRunning phase
      → Within all src.fragments
      → Fresh s.cached
      → Within all s.cached
      → let (s', phase') = step data_shards dir true src phase s in
        Fresh s'.cached
        × Within all s'.cached
        × IsRunning phase'
        × (s'.dld + in_flight phase' + length s.cached ≡ length s'.cached + s.dld + in_flight phase)
  unfolding step
  step_short src waiting s l r v f w = elim (Bool-cases (ltb_ℤ s.dl (pos data_shards))) [
    | inl less ↦ rw (leb_of_lt s.dld data_shards l, less) (f, w, v, omega arith)
    | inr most ↦ rw (leb_of_lt s.dld data_shards l, most) (f, w, tt, omega arith)
  ]
  step_short src (scanning []) s l r v f w = (f, w, tt, omega arith)
  step_short src (scanning (g ∷ gs)) s l r v f w = elim (Bool-cases (is_cached g s.cached)) [
    | inl old ↦ rw (leb_of_lt s.dld data_shards l, old) (f, w, r.1, omega arith)
    | inr new ↦ rw (leb_of_lt s.dld data_shards l, new) ((new, f), (r.0, w), r.1, omega arith)
  ]
  step_short src (fetching g gs) s l r v f w = (f, w, r, omega arith)
  step_short src (counting g gs) s l r v f w = (f, w, r, omega arith)
  step_short src finished s l r v f w = absurd r

  worker_moved-IsShort :
      (p : Pool) (i : ℕ) (w : Worker) (r : Tally × Phase)
      → IsShort p
      → get_elem? p.workers i ≡ some w
      → Fresh r.0.cached
        × Within all r.0.cached
        × IsRunning r.1
        × (r.0.dld + in_flight r.1 + length p.tally.cached
            ≡ length r.0.cached + p.tally.dld + in_flight w.phase)
      → IsShort (worker_moved data_shards dir p.workers i w r)
  worker_moved-IsShort p i w (s, phase) h e (f, v, r, c) = record {
    fresh = f;
    within = v;
    counted = omega (arith, c, h.counted, pending-set p.workers i w (record w { phase = phase }) e);
    at_work =
        All-set IsAtWork p.workers i (record w { phase = phase }) h.at_work
          (r, (All-get IsAtWork p.workers i w h.at_work e).1);
  }

  short_below : (p : Pool) → length all < data_shards → IsShort p → p.tally.dld < data_shards
  short_below p few h =
      omega (arith, h.counted, length_le_of_Within all p.tally.cached h.fresh h.within)

  step_at-IsShort :
      (i : ℕ) (p : Pool)
      → length all < data_shards
      → IsShort p
      → IsShort (step_at data_shards dir (i, true) p)
  unfolding step_at
  step_at-IsShort i p few h = go (get_elem? p.workers i) refl
    where
      go :
          (o : Option Worker)
          → get_elem? p.workers i ≡ o
          → IsShort (elim o [
            | none ↦ p
            | some w ↦
                worker_moved data_shards dir p.workers i w
                  (step data_shards dir true w.source w.phase p.tally)
          ])
      go none e = h
      go (some w) e =
          let (r, v) = All-get IsAtWork p.workers i w h.at_work e in
          worker_moved-IsShort p i w (step data_shards dir true w.source w.phase p.tally) h e
            (step_short w.source w.phase p.tally (short_below p few h) r v h.fresh h.within)

  run-IsShort :
      (is : List ℕ) (p : Pool)
      → length all < data_shards
      → IsShort p
      → IsShort (run data_shards dir (succeeding is) p)
  unfolding run
  run-IsShort [] p few h = h
  run-IsShort (i ∷ is) p few h =
      run-IsShort is (step_at data_shards dir (i, true) p) few (step_at-IsShort i p few h)

  start-IsAtWork :
      (ss : List Source) → All (λ s. Within all s.fragments) ss → All IsAtWork (map start_worker ss)
  start-IsAtWork [] h = tt
  start-IsAtWork (s ∷ ss) h = ((tt, h.0), start-IsAtWork ss h.1)

  none_finished : (ws : List Worker) → All IsAtWork ws → 0 < length ws → all_finished ws ≡ false
  none_finished [] h l = absurd (omega arith)
  none_finished (w ∷ ws) h l = rw (running w.phase h.0.0) refl
    where
      running : (q : Phase) → IsRunning q → is_finished q ≡ false
      running waiting r = refl
      running (scanning fs) r = refl
      running (fetching g fs) r = refl
      running (counting g fs) r = refl
      running finished r = absurd r

  -- If the fragments of all nodes together are fewer than a segment is restored from, and the downloads
  -- succeed, then the workers never all come to an end, in whatever order and for however long they move,
  -- so the call does not return; what they have downloaded are fewer paths than were wanted.
  pub run_never_finished :
      (ss : List Source) (is : List ℕ)
      → 0 < length ss
      → All (λ s. Within all s.fragments) ss
      → length all < data_shards
      → (all_finished (run data_shards dir (succeeding is) (start_pool ss)).workers ≡ false)
        × ((run data_shards dir (succeeding is) (start_pool ss)).tally.dld < data_shards)
  unfolding start_pool
  run_never_finished ss is some_node within few =
      let h = run-IsShort is (start_pool ss) few started in
      (
        none_finished _ h.at_work
            (omega (arith, length-workers data_shards dir ss (succeeding is) (omega arith))),
        short_below _ few h,
      )
    where
      started : IsShort (start_pool ss)
      started = record {
        fresh = tt;
        within = tt;
        counted = omega (arith, pending-start data_shards dir ss);
        at_work = start-IsAtWork ss within;
      }
