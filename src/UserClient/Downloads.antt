-- ===== src/UserClient/Downloads.antt =====
-- Downloads that ask the cache nodes first: `DownloadSegment` and `DownloadFile`
-- (cd2n-client/client/files.go).
pub mod Cleanup
pub mod Files
pub mod Delivery
use cess_dcdn_components.Base.FilePath.{join}
use cess_dcdn_components.Base.Text.{contains, text_eq}
use cess_dcdn_components.UserClient.Cachers.Query.{Selector, query_segment_from_cachers}
use cess_dcdn_components.Transfer.Storage.{
  FileMetadata, Fragment, Sdk, Segment, download_segment_from_storage, or_else, remove_all,
}
use cess_dcdn_components.Transfer.Requests.{Disk}
use cess_dcdn_components.Base.Dict.{Dict}
use cess_dcdn_components.Types.{CacheResponse}
use cess_dcdn_components.Base.{
  Action, Bool, Bytes, List, Outcome, [], codes, err, false, if◌then◌else◌, leb, length, not, ok,
  panic, pure, take, wrapping, ◌++◌, ◌>>=◌, ◌>>◌, ◌||◌, ◌∷◌,
}

-- `DataInList`: a text is in the list if it is part of an element.
unfoldable pub data_in_list : Bytes → List Bytes → Bool
data_in_list text [] = false
data_in_list text (e ∷ es) = contains e text || data_in_list text es

-- What the deferred function sees when it runs: the paths, and the answer if there is one yet.
pub data Collected : Type 0 where
  collecting : List Bytes → Collected
  restored : List Bytes → Outcome (Unit {0}) → Collected

module _ {W : Type 0} (sdk : Sdk W) (disk : Disk W) (sel : Selector W)
    (from_cachers : Bytes → Bytes → Bytes → Dict CacheResponse → Action W (List Bytes)) where
  -- `from_cachers` is `DownloadSegmentFromCachers` for a file, a segment and a directory: the paths that a
  -- run of the workers leaves when all of them have come to their end.

  -- `RSRestore` with as many of the paths as are needed.
  abbrev pub restore : Bytes → List Bytes → Action W (Unit {0})
  restore path paths = sdk.rs_restore path (take sdk.data_shards paths)

  -- One fragment from its miner, which is asked for the segment's hash.
  abbrev pub fetch_missing : Bytes → Bytes → Fragment → Action W Bytes
  fetch_missing sdir shash f = do
    peer ← sdk.query_miner_items f.miner
    sdk.read_data_action peer shash (join (sdir ∷ f.hash ∷ []))
    pure (join (sdir ∷ f.hash ∷ []))

  -- The end of a round in which a fragment came: the segment is restored when there are enough.
  abbrev pub after_fetch : Bytes → List Bytes → Action W Collected
  after_fetch path paths w =
      if leb sdk.data_shards (length paths)
      then (let (r, w') = restore path paths w in (ok (restored paths r), w'))
      else (ok (collecting paths), w)

  abbrev pub go_on : (List Bytes → Action W Collected) → Collected → Action W Collected
  go_on k (collecting paths) = k paths
  go_on k (restored paths r) = pure (restored paths r)

  -- The loop over the fragments of a segment.
  unfoldable pub collect_missing :
      Bytes → Bytes → Bytes → List Fragment → List Bytes → Action W Collected
  unfolding data_in_list
  collect_missing path sdir shash [] paths = pure (collecting paths)
  collect_missing path sdir shash (f ∷ fs) paths =
      let rest = collect_missing path sdir shash fs paths in
      if data_in_list f.hash paths
      then rest
      else or_else (fetch_missing sdir shash f)
          (λ p. after_fetch path (paths ++ (p ∷ [])) >>= go_on (collect_missing path sdir shash fs))
          rest

  -- The loop over the file's segments.
  unfoldable pub collect_segments :
      Bytes → Bytes → Bytes → List Segment → List Bytes → Action W Collected
  unfolding collect_missing
  collect_segments path sdir shash [] paths = pure (collecting paths)
  collect_segments path sdir shash (s ∷ ss) paths =
      if not (text_eq s.hash shash)
      then collect_segments path sdir shash ss paths
      else collect_missing path sdir shash s.fragments paths
        >>= go_on (collect_segments path sdir shash ss)

  abbrev pub removing : List Bytes → Outcome Bytes → Action W Bytes
  removing paths r w = (r, remove_all sdk disk paths w)

  abbrev pub restored_path : Bytes → Outcome (Unit {0}) → Outcome Bytes
  restored_path path (ok u) = ok path
  restored_path path (err e) = err (codes "download file segment error: " ++ e)
  restored_path path panic = panic

  -- The deferred function and the answer after the loops.
  abbrev pub end_collecting : Bytes → Collected → Action W Bytes
  end_collecting path (collecting paths) =
      removing paths (
        err
          (codes "download file segment error: the number of downloaded fragment is inconsistent"))
  end_collecting path (restored paths r) = removing paths (restored_path path r)

  -- The lines after the cache nodes were asked for fragments: there are enough, or the file's metadata is
  -- asked for.
  abbrev pub restore_now : Bytes → List Bytes → Action W Bytes
  restore_now path paths w =
      let (r, w') = restore path paths w in removing paths (restored_path path r) w'

  abbrev pub collect_rest :
      Bytes → Bytes → Bytes → List Bytes → Outcome FileMetadata → Action W Bytes
  collect_rest path sdir shash paths (ok meta) =
      collect_segments path sdir shash meta.segments paths >>= end_collecting path
  collect_rest path sdir shash paths (err e) = removing paths (err e)
  collect_rest path sdir shash paths panic = removing paths panic

  abbrev pub complete_segment : Bytes → Bytes → Bytes → List Bytes → Action W Bytes
  complete_segment fhash shash sdir paths w =
      if leb sdk.data_shards (length paths)
      then restore_now (join (sdir ∷ shash ∷ [])) paths w
      else (let (r, w') = wrapping "download file segment error" (sdk.query_file fhash) w in
          collect_rest (join (sdir ∷ shash ∷ [])) sdir shash paths r w')

  abbrev pub segment_from_storage : Bytes → Bytes → Bytes → Action W Bytes
  segment_from_storage sdir fhash shash =
      wrapping "download file segment error"
        (download_segment_from_storage sdk disk sdir fhash shash)

  -- Some node has the segment, or none has.
  abbrev pub segment_by : Bytes → Bytes → Bytes → Dict CacheResponse → Action W Bytes
  segment_by fhash shash sdir [] = segment_from_storage sdir fhash shash
  segment_by fhash shash sdir (e ∷ cached) =
      from_cachers fhash shash sdir (e ∷ cached) >>= complete_segment fhash shash sdir

  -- `DownloadSegment`
  unfoldable pub download_segment : Bytes → Bytes → Bytes → Action W Bytes
  unfolding query_segment_from_cachers download_segment_from_storage collect_segments
  download_segment fhash shash sdir w =
      (do
        wrapping "download file segment error" (disk.stat sdir)
        or_else
            (query_segment_from_cachers sel fhash shash (sel.peers_number w) (sel.peers_number w))
            (segment_by fhash shash sdir) (segment_from_storage sdir fhash shash))
        w
