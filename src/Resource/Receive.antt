-- ===== src/Resource/Receive.antt =====
-- The messages of the resource actor: `Receive` and `downloadfile`.
use cess_dcdn_components.Base.Text.{split}
use cess_dcdn_components.Base.FilePath.{join}
use cess_dcdn_components.Resource.Download.{download_storaged_files}
use cess_dcdn_components.Transfer.Storage.{Segment, or_else}
use cess_dcdn_components.Resource.{ResourceActor}
use cess_dcdn_components.Cacher.{
  DownloadRequest, DownloadResponse, Resource, node_resource_cache, origin_site_tag,
  site_resource_cache,
}
use cess_dcdn_components.Base.{
  Action, Bool, Bytes, List, [], if◌then◌else◌, not, pure, wrapping, ◌>>=◌, ◌>>◌, ◌∷◌,
}

-- What is sent to the cache actor.
pub data Sent : Type 0 where
  fragments_sent : List DownloadResponse → Sent
  page_sent : DownloadResponse → Sent
  nothing_sent : Sent

module _ {W : Type 0} (ra : ResourceActor W) where
  -- `downloadfile`
  unfoldable pub downloadfile : Bytes → Bytes → Action W (Unit {0})
  downloadfile url path =
      wrapping "download resource by http error"
        (do body ← ra.http_get url; ra.disk.create path; ra.disk.append_to path body)

  abbrev pub page_path : Bytes → Bytes
  page_path url = join (ra.temp_dir ∷ ra.get_sha256_hash url ∷ [])

  unfoldable pub receive_page_request : Bytes → Action W Sent
  unfolding downloadfile
  receive_page_request url =
      or_else (downloadfile url (page_path url))
        (λ _. pure (
          page_sent
            (record { resrc_path = page_path url; key = url; origin_node = origin_site_tag })))
        (pure nothing_sent)

  -- A download that fails is sent on as an empty list.
  abbrev pub receive_segment_request :
      (List Segment → List Segment) → Bytes → List Bytes → Action W Sent
  receive_segment_request shuffle acc (fhash ∷ shash ∷ []) =
      or_else (download_storaged_files ra shuffle acc fhash shash) (λ rs. pure (fragments_sent rs))
        (pure (fragments_sent []))
  receive_segment_request shuffle acc _ = pure nothing_sent

  abbrev pub receive_option :
      (List Segment → List Segment) → Resource → DownloadRequest → Action W Sent
  receive_option shuffle node_resource_cache req =
      receive_segment_request shuffle req.request.account_id (split req.request.want_file)
  receive_option shuffle site_resource_cache req = receive_page_request req.request.want_url

  -- `Receive`, of a `DownloadRequest`; `ready` tells whether the cache actor is registered.
  unfoldable pub receive : (List Segment → List Segment) → Bool → DownloadRequest → Action W Sent
  unfolding receive_page_request
  receive shuffle ready req =
      if not ready then pure nothing_sent else receive_option shuffle req.option req
