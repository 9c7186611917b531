-- ===== src/Resource/Neighbors.antt =====
-- Queries and downloads from neighbour cache nodes: `QuerySegmentFromNeighborCacher` and
-- `SharedSegmentFromNeighborCacher`.
use cess_dcdn_components.Base.Text.{text_eq}
use cess_dcdn_components.Transfer.Storage.{or_else}
use cess_dcdn_components.Base.FilePath.{join}
use cess_dcdn_components.Transfer.Requests.{download_file_from_cache, query_file_info_from_cache}
use cess_dcdn_components.Resource.{ResourceActor, hash_to_cid}
use cess_dcdn_components.Cacher.{DownloadResponse}
use cess_dcdn_components.Base.Dict.{Dict, insert}
use cess_dcdn_components.Base.{
  Action, Bool, Bytes, List, Option, [], codes, err, false, if◌then◌else◌, leb, length, ltb, modify,
  none, pure, some, suc, true, zero, ℕ, ◌++◌, ◌+◌, ◌-◌, ◌/◌, ◌==◌, ◌>>=◌, ◌>>◌, ◌||◌, ◌∷◌,
}
use cess_dcdn_components.Types.{CacheRequest, CacheResponse, Status, Request, hit, loading}

abbrev pub has_status : Status → Bool
has_status hit = true
has_status loading = true
has_status _ = false

abbrev pub is_loading : Status → Bool
is_loading loading = true
is_loading _ = false

module _ {W : Type 0} (ra : ResourceActor W) where
  -- The requests of the actor; their option is set where they are sent.
  abbrev pub request_for : Bytes → Bytes → CacheRequest
  request_for acc file = record {
    option = Request.other [];
    want_url = [];
    want_file = file;
    account_id = acc;
    content = [];
    sign = [];
  }

  -- How many peers the iterator is asked for.
  abbrev pub peer_limit : ℕ → ℕ
  peer_limit known =
      if ltb (ra.strategy.neighbor_num / 3) known then ra.strategy.neighbor_num else known

  -- How many routines ask.
  abbrev pub thread_limit : ℕ → ℕ
  thread_limit peer_num =
      let third = ra.strategy.neighbor_num / 3 in
      let threads = if ltb peer_num third then peer_num else third in
      if threads == 0 then 1 else threads

  -- One peer is asked: none when it does not answer with a segment that it has or loads.
  abbrev pub ask_peer : Bytes → Bytes → Bytes → Action W (Option CacheResponse)
  ask_peer acc file peer =
      or_else (ra.peers.connect peer)
        (λ _.
          or_else (query_file_info_from_cache ra.host ra.codec peer (request_for acc file))
            (λ resp.
              modify (ra.peers.feedback peer true)
              >> pure (if has_status resp.status then some resp else none))
            (modify (ra.peers.feedback peer false) >> pure none))
        (pure none)

  -- The routines over the peers in the order of the channel; `threads` are those still there. A routine
  -- that gets an answer while enough answers are there ends. Once all have ended, the channel takes
  -- `capacity` peers more, and any further one blocks the call for ever: then there is no result.
  unfoldable pub ask_peers :
      ℕ
      → ℕ
      → Bytes
      → Bytes
      → List Bytes
      → Dict CacheResponse
      → Action W (Option (Dict CacheResponse))
  ask_peers capacity threads acc file [] found = pure (some found)
  ask_peers capacity zero acc file (p ∷ ps) found =
      pure (if leb (length (p ∷ ps)) capacity then some found else none)
  ask_peers capacity (suc threads) acc file (p ∷ ps) found = ask_peer acc file p >>= λ answer.
      elim answer [
        | none ↦ ask_peers capacity (suc threads) acc file ps found
        | some resp ↦
            if leb ra.strategy.avg_cached_segment_num (length found)
            then ask_peers capacity threads acc file ps found
            else ask_peers capacity (suc threads) acc file ps (insert p resp found)
      ]

  -- The providers of a segment; an error leaves none.
  abbrev pub providers : Bytes → Action W (List Bytes)
  providers shash =
      or_else (hash_to_cid ra.peers shash)
        (λ cid. or_else (ra.peers.find_providers cid) pure (pure [])) (pure [])

  -- `QuerySegmentFromNeighborCacher`; no result when the call blocks.
  unfoldable pub query_segment_from_neighbor_cacher :
      Bytes → Bytes → Bytes → Action W (Option (Dict CacheResponse))
  unfolding ask_peers
  query_segment_from_neighbor_cacher fhash shash acc w =
      let known = ra.peers.peers_number w - 1 in
      if known == 0
      then (err (codes "no neighbor cache node"), w)
      else (do
        peers ← ra.peers.peers_iterator (peer_limit known)
        first ← providers shash
        ask_peers (thread_limit (peer_limit known)) (thread_limit (peer_limit known)) acc
            (join (fhash ∷ shash ∷ [])) (first ++ peers) [])
          w

  -- The segment is announced once; the result tells whether it has been.
  abbrev pub announce : Bytes → Bool → Action W Bool
  announce shash true = pure true
  announce shash false =
      or_else (hash_to_cid ra.peers shash)
        (λ cid. or_else (ra.peers.provide cid) (λ _. pure true) (pure false)) (pure false)

  -- What `SharedSegmentFromNeighborCacher` keeps: the count, the files that it has, whether the segment
  -- was announced, and the responses.
  pub record Shared : Type 0 where
    pub count : ℕ
    pub cached_fragments : List Bytes
    pub provided : Bool
    pub responses : List DownloadResponse

  abbrev pub member : Bytes → List Bytes → Bool
  member x [] = false
  member x (y ∷ ys) = text_eq x y || member x ys

  -- The loop over the files of one peer, whose account is `origin`.
  unfoldable pub share_files :
      Bytes → Bytes → Bytes → Bytes → Bytes → List Bytes → Shared → Action W Shared
  share_files acc fhash shash peer origin [] st = pure st
  share_files acc fhash shash peer origin (f ∷ fs) st =
      if member f st.cached_fragments
      then share_files acc fhash shash peer origin fs st
      else or_else
          (download_file_from_cache ra.host ra.codec ra.disk peer (join (ra.temp_dir ∷ f ∷ []))
            (request_for acc (join (fhash ∷ shash ∷ f ∷ []))))
          (λ _. announce shash st.provided >>= λ provided.
            share_files acc fhash shash peer origin fs (record {
              count = st.count + 1;
              cached_fragments = f ∷ st.cached_fragments;
              provided = provided;
              responses =
                  st.responses
                  ++ (record {
                    resrc_path = join (ra.temp_dir ∷ f ∷ []);
                    key = join (fhash ∷ shash ∷ f ∷ []);
                    origin_node = origin;
                  }
                      ∷ []);
            }))
          (share_files acc fhash shash peer origin fs st)

  -- The loop over the peers, in the order in which the map is ranged.
  unfoldable pub share_peers : Bytes → Bytes → Bytes → Dict CacheResponse → Shared → Action W Shared
  unfolding share_files
  share_peers acc fhash shash [] st = pure st
  share_peers acc fhash shash ((peer, res) ∷ peers) st =
      if is_loading res.status
      then share_peers acc fhash shash peers st
      else if leb ra.sdk.data_shards st.count
      then pure st
      else share_files acc fhash shash peer res.info.account res.cached_files st
        >>= share_peers acc fhash shash peers

  -- `SharedSegmentFromNeighborCacher`
  unfoldable pub shared_segment_from_neighbor_cacher :
      Bytes → Bytes → Bytes → Dict CacheResponse → Action W (List DownloadResponse)
  unfolding share_peers
  shared_segment_from_neighbor_cacher acc fhash shash peers =
      share_peers acc fhash shash peers
        (record { count = 0; cached_fragments = []; provided = false; responses = [] })
      >>= λ st. pure st.responses
