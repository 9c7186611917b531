-- ===== src/Resource/Download.antt =====
-- `DownloadStoragedFiles`: which segments of a file the actor fetches, and from where.
use Prim.Native.Nat.{min}
use cess_dcdn_components.Base.Text.{text_eq}
use cess_dcdn_components.Base.FilePath.{join}
use cess_dcdn_components.Resource.Neighbors.{
  announce, query_segment_from_neighbor_cacher, shared_segment_from_neighbor_cacher,
}
use cess_dcdn_components.Resource.{ResourceActor}
use cess_dcdn_components.Transfer.Storage.{FileMetadata, Fragment, Segment, or_else}
use cess_dcdn_components.Cacher.{DownloadResponse, origin_site_tag}
use cess_dcdn_components.Base.Dict.{Dict}
use cess_dcdn_components.Types.{CacheResponse}
use cess_dcdn_components.Base.{
  Action, Bool, Bytes, List, Option, [], crash, false, if◌then◌else◌, leb, length, none, not, pure,
  some, wrapping, ℕ, ◌&&◌, ◌++◌, ◌+◌, ◌-◌, ◌/◌, ◌>>=◌, ◌||◌, ◌∷◌,
}

-- The variables of its loop, and the responses so far.
pub record Loop : Type 0 where
  pub num : ℕ
  pub done : Bool
  pub provided : Bool
  pub responses : List DownloadResponse

abbrev pub first_loop : Loop
first_loop = record { num = 0; done = false; provided = false; responses = [] }

abbrev pub count_segment : Loop → Loop
count_segment st = record st { num = st.num + 1 }

module _ {W : Type 0} (ra : ResourceActor W) where
  -- How many segments are fetched at most.
  abbrev pub cache_num : FileMetadata → ℕ
  cache_num meta =
      min (ra.strategy.min_cached_segment_num + length meta.segments / ra.strategy.neighbor_num)
        ra.strategy.max_cached_segment_num

  module _ (acc fhash shash : Bytes) where
    -- One fragment from its storage node; its key names the segment that was asked for.
    abbrev pub stored_response : Bytes → DownloadResponse
    stored_response hash = record {
      resrc_path = join (ra.temp_dir ∷ hash ∷ []);
      key = join (fhash ∷ shash ∷ hash ∷ []);
      origin_node = origin_site_tag;
    }

    abbrev pub fetch_stored : Fragment → Action W (Unit {0})
    fetch_stored f = do
      peer ← ra.sdk.query_miner_items f.miner
      ra.sdk.read_data_action peer f.hash (join (ra.temp_dir ∷ f.hash ∷ []))

    abbrev pub keep_fragment : Loop → Bytes → Bool → Loop
    keep_fragment st hash provided = record st {
      provided = provided;
      responses = st.responses ++ (stored_response hash ∷ []);
    }

    -- The loop over the fragments of a segment, with its count.
    unfoldable pub fetch_stored_fragments : List Fragment → ℕ → Loop → Action W Loop
    fetch_stored_fragments [] count st = pure st
    fetch_stored_fragments (f ∷ fs) count st =
        if leb ra.sdk.data_shards count
        then pure st
        else or_else (fetch_stored f)
            (λ _. announce ra shash st.provided >>= λ provided.
              fetch_stored_fragments fs (count + 1) (keep_fragment st f.hash provided))
            (fetch_stored_fragments fs count st)

    -- A segment from the storage nodes.
    unfoldable pub fetch_from_storage : Segment → Loop → Action W Loop
    unfolding fetch_stored_fragments
    fetch_from_storage s st =
        fetch_stored_fragments s.fragments 0 st >>= λ st'. pure (count_segment st')

    -- What follows the answers of the neighbours: a segment that enough of them have is left alone, and
    -- one that they shared nothing of comes from the storage nodes.
    abbrev pub fetch_shared : Segment → Loop → List DownloadResponse → Action W Loop
    fetch_shared s st [] = fetch_from_storage s st
    fetch_shared s st (r ∷ rs) =
        pure (record (count_segment st) { responses = st.responses ++ (r ∷ rs) })

    abbrev pub fetch_known : Segment → Loop → Option (Dict CacheResponse) → Action W Loop
    fetch_known s st none = crash
    fetch_known s st (some peers) =
        if leb ra.strategy.avg_cached_segment_num (length peers)
        then pure st
        else shared_segment_from_neighbor_cacher ra acc fhash s.hash peers >>= fetch_shared s st

    -- A query that blocks for ever (no result) ends everything, as a panic does.
    unfoldable pub fetch_segment : Segment → Loop → Action W Loop
    unfolding fetch_from_storage
    fetch_segment s st =
        or_else (query_segment_from_neighbor_cacher ra fhash s.hash acc) (fetch_known s st)
          (fetch_from_storage s st)

    abbrev pub see : Segment → Loop → Loop
    see s st = record st { done = text_eq s.hash shash || st.done }

    -- The body of the loop after its first guard, in the state that has seen the segment.
    abbrev pub consider : ℕ → Segment → Loop → Action W Loop
    consider limit s st =
        if not st.done && leb (limit - 1) st.num then pure st else fetch_segment s st

    -- The loop over the segments.
    unfoldable pub fetch_segments : ℕ → List Segment → Loop → Action W Loop
    unfolding fetch_segment
    fetch_segments limit [] st = pure st
    fetch_segments limit (s ∷ ss) st =
        if leb limit st.num
        then pure st
        else consider limit s (see s st) >>= fetch_segments limit ss

  -- `DownloadStoragedFiles`; `shuffle` is the order that `ShuffleSegments` leaves.
  unfoldable pub download_storaged_files :
      (List Segment → List Segment) → Bytes → Bytes → Bytes → Action W (List DownloadResponse)
  unfolding fetch_segments
  download_storaged_files shuffle acc fhash shash = do
    meta ← wrapping "download fragments from storager error" (ra.sdk.query_file fhash)
    st ← fetch_segments acc fhash shash (cache_num meta) (shuffle meta.segments) first_loop
    pure st.responses
