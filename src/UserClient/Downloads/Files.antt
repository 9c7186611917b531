-- ===== src/UserClient/Downloads/Files.antt =====
-- The download of a whole file, segment by segment: `DownloadFile` (cd2n-client/client/files.go).
use cess_dcdn_components.Base.FilePath.{dir, join}
use cess_dcdn_components.UserClient.Downloads.{data_in_list, fetch_missing}
use cess_dcdn_components.UserClient.Cachers.Query.{Selector, query_segment_from_cachers}
use cess_dcdn_components.Transfer.Storage.{
  FileMetadata, Fragment, Sdk, Segment, add_path, afterwards, download_segment_from_storage,
  or_else, recovery_file_via_segments, remove_all,
}
use cess_dcdn_components.Transfer.Requests.{Disk}
use cess_dcdn_components.Base.Dict.{Dict}
use cess_dcdn_components.Types.{CacheResponse}
use cess_dcdn_components.Base.{
  Action, Bytes, List, Option, Outcome, [], codes, crash, err, fail_if, get_state, if◌then◌else◌,
  leb, length, lift, modify, none, not, ok, panic, pure, some, take, wrapping, ℕ, ◌++◌, ◌==◌, ◌>>=◌,
  ◌>>◌, ◌∷◌,
}

-- An error as a value, for code that goes on after it.
abbrev pub attempted : {W A : Type 0} → Outcome A × W → Outcome (Outcome A) × W
attempted (ok a, w) = (ok (ok a), w)
attempted (err e, w) = (ok (err e), w)
attempted (panic, w) = (panic, w)

abbrev pub attempt : {W A : Type 0} → Action W A → Action W (Outcome A)
attempt m w = attempted (m w)

module _ {W : Type 0} (sdk : Sdk W) (disk : Disk W) (sel : Selector W)
    (from_cachers : Bytes → Bytes → Bytes → Dict CacheResponse → Action W (List Bytes)) where
  -- `from_cachers` is as in `DownloadSegment`. `RSRestore` of some paths, after which the fragments are
  -- removed.
  abbrev pub restore_and_remove : Bytes → List Bytes → List Bytes → Action W (Option Bytes)
  restore_and_remove seg_path used paths = do
    wrapping "download file error" (sdk.rs_restore seg_path used)
    modify (remove_all sdk disk paths)
    pure (some seg_path)

  -- The loop over the fragments of a segment, which ends at a restored segment or without one.
  unfoldable pub fill_segment :
      Bytes → Bytes → Bytes → List Fragment → List Bytes → Action W (Option Bytes)
  unfolding data_in_list
  fill_segment seg_path dir shash [] paths = pure none
  fill_segment seg_path dir shash (f ∷ fs) paths =
      let rest = fill_segment seg_path dir shash fs paths in
      let more = paths ++ (join (dir ∷ f.hash ∷ []) ∷ []) in
      let next_one = fill_segment seg_path dir shash fs more in
      if data_in_list f.hash paths
      then rest
      else or_else (fetch_missing sdk disk sel from_cachers dir shash f)
          (λ _.
            if leb sdk.data_shards (length more)
            then restore_and_remove seg_path more more
            else next_one)
          rest

  -- A segment that no node has, and one of which nodes gave some fragments.
  abbrev pub stored_segment : Bytes → Bytes → Bytes → Action W (Option Bytes)
  stored_segment dir fhash shash =
      wrapping "download file error" (download_segment_from_storage sdk disk dir fhash shash)
      >>= λ p. pure (some p)

  abbrev pub cached_segment : Bytes → Segment → List Bytes → Action W (Option Bytes)
  cached_segment dir s paths =
      if leb sdk.data_shards (length paths)
      then restore_and_remove (join (dir ∷ s.hash ∷ [])) (take sdk.data_shards paths) paths
      else fill_segment (join (dir ∷ s.hash ∷ [])) dir s.hash s.fragments paths

  abbrev pub segment_of : Bytes → Bytes → Segment → Dict CacheResponse → Action W (Option Bytes)
  segment_of dir fhash s [] = stored_segment dir fhash s.hash
  segment_of dir fhash s (e ∷ cached) =
      from_cachers fhash s.hash dir (e ∷ cached) >>= cached_segment dir s

  -- The body of the loop over the segments.
  unfoldable pub one_segment : Bytes → Bytes → ℕ → Segment → Action W (Option Bytes)
  unfolding fill_segment query_segment_from_cachers download_segment_from_storage
  one_segment dir fhash cacher_num s =
      or_else (query_segment_from_cachers sel fhash s.hash cacher_num cacher_num)
        (segment_of dir fhash s) (stored_segment dir fhash s.hash)

  -- The paths of the segments so far, and whether the loop came to its end.
  abbrev pub after_segment :
      List Bytes
      → (List Bytes → Action W (List Bytes × Outcome (Unit {0})))
      → Outcome (Option Bytes)
      → Action W (List Bytes × Outcome (Unit {0}))
  after_segment kept k (ok r) = k (add_path sdk disk kept r)
  after_segment kept k (err e) = pure (kept, err e)
  after_segment kept k panic = crash

  unfoldable pub all_segments :
      Bytes → Bytes → ℕ → List Segment → List Bytes → Action W (List Bytes × Outcome (Unit {0}))
  unfolding one_segment
  all_segments dir fhash cacher_num [] kept = pure (kept, ok tt)
  all_segments dir fhash cacher_num (s ∷ ss) kept =
      attempt (one_segment dir fhash cacher_num s)
      >>= after_segment kept (all_segments dir fhash cacher_num ss)

  -- The lines after the loop; `write` puts bytes at the end of the file.
  abbrev pub recover :
      (Bytes → W → W)
      → Bytes
      → FileMetadata
      → Bytes
      → List Bytes × Outcome (Unit {0})
      → Action W Bytes
  recover write path meta cipher (kept, r) = do
    lift (λ _. r)
    wrapping "download file error" (do
      fail_if (not (length kept == length meta.segments))
          (codes "the number of downloaded segments is inconsistent")
      recovery_file_via_segments sdk disk write kept meta cipher)
    pure path

  -- The deferred function, whatever the answer.
  abbrev pub recover_and_remove :
      (Bytes → W → W)
      → Bytes
      → FileMetadata
      → Bytes
      → List Bytes × Outcome (Unit {0})
      → Action W Bytes
  recover_and_remove write path meta cipher r =
      afterwards sdk disk (remove_all sdk disk r.0) (recover write path meta cipher r)

  -- `DownloadFile`
  unfoldable pub download_file : (Bytes → Bytes → W → W) → Bytes → Bytes → Bytes → Action W Bytes
  unfolding all_segments recovery_file_via_segments
  download_file write dir fhash cipher = do
    wrapping "download file error" (do disk.stat dir; disk.create (join (dir ∷ fhash ∷ [])))
    meta ← wrapping "download file error" (sdk.query_file fhash)
    w ← get_state
    r ← all_segments dir fhash (sel.peers_number w) meta.segments []
    recover_and_remove (write (join (dir ∷ fhash ∷ []))) (join (dir ∷ fhash ∷ [])) meta cipher r
