-- ===== src/Transfer/Requests.antt =====
-- Requests to a cache node: `SendRequestToCacher`, `DailCacheNode`, `QueryFileInfoFromCache` and
-- `DownloadFileFromCache`.
use cess_dcdn_components.Transfer.Streams.{write_data}
use cess_dcdn_components.Base.{
  Action, Bytes, Option, Outcome, [], codes, err, fail_if, is_nil, lift, none, ok, panic, pure,
  some, wrapping, ℕ, ◌>>=◌, ◌>>◌, ◌∷◌,
}
use cess_dcdn_components.Types.{CacheRequest, CacheResponse, Request, query, download, dail}

-- A libp2p host and its streams, as far as the requests use them. `copy_all` reads a stream to its end.
pub record Host (W : Type 0) : Type 0 where
  pub new_stream : Bytes → Action W ℕ
  pub write_stream : ℕ → Bytes → Action W (Unit {0})
  pub copy_all : ℕ → Action W Bytes
  pub reset_stream : ℕ → W → W
  pub close_stream : ℕ → W → W

-- `os.Create`, `os.Stat`, `os.ReadFile`, `os.Remove`, and a write at the end of an open file.
pub record Disk (W : Type 0) : Type 0 where
  pub create : Bytes → Action W (Unit {0})
  pub append_to : Bytes → Bytes → Action W (Unit {0})
  pub stat : Bytes → Action W (Unit {0})
  pub read_file : Bytes → Action W Bytes
  pub remove : Bytes → W → W

-- `encoding/json`, at the types that the requests use: `data_text` decodes a `Response` and answers with
-- its data if that is a string; `decode_data` decodes the data of a `Response` as a `CacheResponse`, and
-- `decode_whole` the message itself.
pub record Codec : Type 0 where
  pub marshal_request : CacheRequest → Outcome Bytes
  pub data_text : Bytes → Outcome (Option Bytes)
  pub decode_data : Bytes → Outcome CacheResponse
  pub decode_whole : Bytes → Outcome CacheResponse

-- The error at the end of a buffer.
abbrev pub eof : Bytes
eof = codes "EOF"

module _ {W : Type 0} (h : Host W) (codec : Codec) where
  -- A call on a stream, which is reset when the call fails.
  abbrev pub resetting : {A : Type 0} → ℕ → Action W A → Action W A
  resetting s m w =
      let (r, w') = m w in
      elim r [ ok a ↦ (ok a, w') | err e ↦ (err e, h.reset_stream s w') | panic ↦ (panic, w') ]

  -- What is sent and read on an open stream.
  abbrev pub talk : ℕ → Bytes → Action W Bytes
  talk s message = resetting s (do
    h.write_stream s message
    body ← h.copy_all s
    fail_if (is_nil body) (codes "empty response")
    pure body)

  abbrev pub closing : {A : Type 0} → ℕ → Action W A → Action W A
  closing s m w = let (r, w') = m w in (r, h.close_stream s w')

  -- `SendRequestToCacher`
  unfoldable pub send_request_to_cacher : Bytes → CacheRequest → Action W Bytes
  send_request_to_cacher peer req = wrapping "send request to cacher error" (do
    message ← lift (λ _. codec.marshal_request req)
    s ← h.new_stream peer
    closing s (talk s message))

  abbrev pub empty_request : Request → CacheRequest
  empty_request option = record {
    option = option;
    want_url = [];
    want_file = [];
    account_id = [];
    content = [];
    sign = [];
  }

  -- `DailCacheNode`: the answer is decoded as if it were the data of a `Response`.
  unfoldable pub dail_cache_node : Bytes → Action W CacheResponse
  dail_cache_node peer = wrapping "dail cache node error" (do
    body ← send_request_to_cacher peer (empty_request dail)
    fail_if (is_nil body) (codes "empty response")
    lift (λ _. codec.decode_whole body))

  abbrev pub data_of : Bytes → Option Bytes → Outcome CacheResponse
  data_of body (some text) = err text
  data_of body none = codec.decode_data body

  -- `QueryFileInfoFromCache`
  unfoldable pub query_file_info_from_cache : Bytes → CacheRequest → Action W CacheResponse
  query_file_info_from_cache peer req = wrapping "query file info error" (do
    body ← send_request_to_cacher peer (record req { option = query })
    fail_if (is_nil body) (codes "empty response")
    text ← lift (λ _. codec.data_text body)
    lift (λ _. data_of body text))

  -- `DownloadFileFromCache`: whatever comes back is the file.
  unfoldable pub download_file_from_cache :
      Disk W → Bytes → Bytes → CacheRequest → Action W (Unit {0})
  unfolding write_data
  download_file_from_cache disk peer path req = wrapping "download file error" (do
    body ← send_request_to_cacher peer (record req { option = download })
    fail_if (is_nil body) (codes "empty response")
    disk.create path
    write_data (disk.append_to path) eof (body ∷ []))
