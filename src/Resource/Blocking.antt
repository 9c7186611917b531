-- ===== src/Resource/Blocking.antt =====
-- When the query of the neighbours never returns.
use cess_dcdn_components.Resource.Neighbors.{ask_peer, ask_peers}
use cess_dcdn_components.Resource.{ResourceActor}
use cess_dcdn_components.Base.Dict.{insert, Dict}
use cess_dcdn_components.Base.{
  ap, bind_ok, if◌then◌else◌, leb, true, ◌∙◌, Bytes, List, [], arith, length, none, ok, some, suc,
  zero, ℕ, ◌+◌, ◌<◌, ◌∷◌, ◌≡◌, ◌≤◌,
}
use cess_dcdn_components.Types.{CacheResponse}

module _ {W : Type 0} (ra : ResourceActor W) (capacity : ℕ) (acc file : Bytes)
    (answers : (peer : Bytes) (w : W)
      → (resp : CacheResponse) × (w' : W) × (ask_peer ra acc file peer w
          ≡ (ok (some resp), w'))) where
  enough :
      {n : ℕ}
      → ra.strategy.avg_cached_segment_num ≤ n
      → leb ra.strategy.avg_cached_segment_num n ≡ true
  enough h = ground arith

  -- Once enough answers are there, and while every peer answers that it has the segment, each routine
  -- ends at its next peer; with more peers left than there are routines and places in the channel, the
  -- query of the neighbours never returns.
  pub ask_peers_blocks :
      (threads : ℕ) (ps : List Bytes) (found : Dict CacheResponse) (w : W)
      → ra.strategy.avg_cached_segment_num ≤ length found
      → threads + capacity < length ps
      → (ask_peers ra capacity threads acc file ps found w).0 ≡ ok none
  unfolding ask_peers
  ask_peers_blocks zero [] found w full many = absurd (omega arith)
  ask_peers_blocks zero (p ∷ ps) found w full many = ground arith
  ask_peers_blocks (suc threads) [] found w full many = absurd (omega arith)
  ask_peers_blocks (suc threads) (p ∷ ps) found w full many =
      let (resp, w', e) = answers p w in
      ap (λ r. r.0)
        (bind_ok (ask_peer ra acc file p)
          (λ answer. elim answer [
            | none ↦ ask_peers ra capacity (suc threads) acc file ps found
            | some resp ↦
                if leb ra.strategy.avg_cached_segment_num (length found)
                then ask_peers ra capacity threads acc file ps found
                else ask_peers ra capacity (suc threads) acc file ps (insert p resp found)
          ])
          e)
      ∙ rw (enough full) (ask_peers_blocks threads ps found w' full (omega arith))
