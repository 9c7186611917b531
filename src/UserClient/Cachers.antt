-- ===== src/UserClient/Cachers.antt =====
-- The download of a segment's fragments from the cache nodes, by a worker for each node:
-- `DownloadSegmentFromCachers` (cd2n-client/client/files.go).
pub mod Counts
pub mod Stuck
pub mod Query
use cess_dcdn_components.Base.Text.{text_eq}
use cess_dcdn_components.Base.Int.{ltb_ℤ, negsuc, pos, ℤ, ◌+ℤ◌}
use cess_dcdn_components.Base.FilePath.{dir, join}
use cess_dcdn_components.Base.{
  Bool, Bytes, List, [], false, get_elem?, if◌then◌else◌, leb, map, none, set, some, true, ℕ, ◌&&◌,
  ◌++◌, ◌+◌, ◌||◌, ◌∷◌,
}

-- A node that has fragments of the segment, with its account.
pub record Source : Type 0 where
  pub peer : Bytes
  pub fragments : List Bytes
  pub account : Bytes

-- Where a worker stands: before the test of the counts, in the loop over the fragments, at the download
-- of one, after it, and at its end.
pub data Phase : Type 0 where
  waiting : Phase
  scanning : List Bytes → Phase
  fetching : Bytes → List Bytes → Phase
  counting : Bytes → List Bytes → Phase
  finished : Phase

-- What the workers share under the lock, and the accounts that were credited with a fragment. `dl` goes
-- up once in a pass over the fragments and down at each failure.
pub record Tally : Type 0 where
  pub dl : ℤ
  pub dld : ℕ
  pub cached : List Bytes
  pub res : List Bytes
  pub credited : List Bytes

pub record Worker : Type 0 where
  pub source : Source
  pub phase : Phase

pub record Pool : Type 0 where
  pub tally : Tally
  pub workers : List Worker

unfoldable pub is_cached : Bytes → List Bytes → Bool
is_cached f [] = false
is_cached f (g ∷ gs) = text_eq g f || is_cached f gs

unfoldable pub uncache : Bytes → List Bytes → List Bytes
uncache f [] = []
uncache f (g ∷ gs) = let rest = uncache f gs in if text_eq g f then rest else g ∷ rest

abbrev pub no_tally : Tally
no_tally = record { dl = pos 0; dld = 0; cached = []; res = []; credited = [] }

abbrev pub start_worker : Source → Worker
start_worker s = record { source = s; phase = waiting }

unfoldable pub start_pool : List Source → Pool
start_pool ss = record { tally = no_tally; workers = map start_worker ss }

module _ (data_shards : ℕ) (dir : Bytes) where
  -- What a worker does next, up to the next time it gives the lock back; `fetched` is the answer of
  -- `DownloadFileFromCache`, where that is called.
  unfoldable pub step : Bool → Source → Phase → Tally → Tally × Phase
  unfolding is_cached uncache
  step fetched source waiting s =
      if leb data_shards s.dld
      then (s, finished)
      else if ltb_ℤ s.dl (pos data_shards)
      then (record s { dl = s.dl +ℤ pos 1 }, scanning source.fragments)
      else (s, waiting)
  step fetched source (scanning []) s = (s, waiting)
  step fetched source (scanning (f ∷ fs)) s =
      if leb data_shards s.dld
      then (s, finished)
      else if is_cached f s.cached
      then (s, scanning fs)
      else (record s { cached = f ∷ s.cached }, fetching f fs)
  step true source (fetching f fs) s = (s, counting f fs)
  step false source (fetching f fs) s =
      (record s { dl = s.dl +ℤ negsuc 0; cached = uncache f s.cached }, counting f fs)
  step fetched source (counting f fs) s = (
    record s {
      dld = s.dld + 1;
      res = s.res ++ (join (dir ∷ f ∷ []) ∷ []);
      credited = s.credited ++ (source.account ∷ []);
    },
    scanning fs,
  )
  step fetched source finished s = (s, finished)

  abbrev pub worker_moved : List Worker → ℕ → Worker → Tally × Phase → Pool
  worker_moved ws i w (s, phase) = record {
    tally = s;
    workers = set ws i (record w { phase = phase });
  }

  -- One worker moves.
  unfoldable pub step_at : ℕ × Bool → Pool → Pool
  unfolding step
  step_at (i, fetched) p = elim (get_elem? p.workers i) [
    | none ↦ p
    | some w ↦ worker_moved p.workers i w (step fetched w.source w.phase p.tally)
  ]

  -- The workers move in some order, with some answers.
  unfoldable pub run : List (ℕ × Bool) → Pool → Pool
  unfolding step_at
  run [] p = p
  run (m ∷ ms) p = run ms (step_at m p)

-- `wg.Wait()` goes on when every worker has come to its end.
abbrev pub is_finished : Phase → Bool
is_finished finished = true
is_finished _ = false

abbrev pub all_finished : List Worker → Bool
all_finished [] = true
all_finished (w ∷ ws) = is_finished w.phase && all_finished ws
