-- ===== src/Cacher.antt =====
-- The cache actor (cd2n-node/actors/cache_actor.go): its state, what it calls, and the counters that
-- it keeps of each segment.
pub mod Records
pub mod Keys
pub mod Query
pub mod Answers
pub mod Service
pub mod Outcomes
pub mod Replies
pub mod Downloads
pub mod Paid
pub mod Queue
pub mod Passes
pub mod Requests
pub mod Receive
pub mod Restore
mod Tests
use cess_dcdn_components.Base.Int.{pos, ℤ}
use cess_dcdn_components.Store.{Leveldb}
use cess_dcdn_components.Base.Dict.{Dict}
use cess_dcdn_components.Credit.{Credit}
use cess_dcdn_components.Types.{CacheRequest, CacheResponse, Status}
use cess_dcdn_components.Base.{Action, Bool, Bytes, List, Option, codes, ℕ}

-- `BusyLine`
abbrev pub busy_line : ℤ
busy_line = pos 1024

-- `NODE_RESOURCE_CACHE` and `SITE_RESOURCE_CACHE`
pub data Resource : Type 0 where
  node_resource_cache site_resource_cache : Resource

pub record DownloadTask : Type 0 where
  pub source : Bytes
  pub doing : Bool
  pub option : Resource

-- The data of a `DownloadRequest` is always a `CacheRequest` here.
pub record DownloadRequest : Type 0 where
  pub option : Resource
  pub request : CacheRequest

pub record DownloadResponse : Type 0 where
  pub resrc_path : Bytes
  pub key : Bytes
  pub origin_node : Bytes

-- `ORIGIN_SITE_TAG`
abbrev pub origin_site_tag : Bytes
origin_site_tag = codes "origin_site_tag"

-- `cacher.FileCache` of cess-go-tools, as far as the actor calls it. Each call answers from the state
-- and may change it. `cached_keys` are the keys that `TraverseCache` visits, in its order, and
-- `cached` tells whether `GetCacheItem` answers with an item.
pub record FileCache (W : Type 0) : Type 0 where
  pub get_cache_record : Bytes → Action W Bytes
  pub add_cache_record : Bytes → Bytes → W → W
  pub move_file_to_cache : Bytes → Bytes → Action W (Unit {0})
  pub get_load_ratio : W → ℕ
  pub cached : Bytes → W → Bool
  pub cached_keys : W → List Bytes

-- Files: `os.Stat` with the size, `os.Open`, and `io.ReadAll` of an opened file.
pub record Files (W : Type 0) : Type 0 where
  pub stat : Bytes → Action W ℕ
  pub open_file : Bytes → Action W (Unit {0})
  pub read_all : Bytes → Action W Bytes

-- `struct CacheActor` without what changes, and the third-party functions that it calls: SHA-256 in
-- hexadecimal, `url.ParseRequestURI`, `common.BytesToAddress(b).Hex()`, `common.HexToAddress(s).Bytes()`
-- and `common.Bytes2Hex`; `data_shards` is the SDK's constant,
-- and `meanwhile` is what other routines add to the number of requests between two reads of it.
pub record CacheActor (W : Type 0) : Type 0 where
  pub cache : FileCache W
  pub files : Files W
  pub records : Leveldb W
  pub credit_mg : Credit W
  pub account : Bytes
  pub get_sha256_hash : Bytes → Bytes
  pub is_request_uri : Bytes → Bool
  pub bytes_to_address_hex : Bytes → Bytes
  pub hex_to_address : Bytes → Bytes
  pub bytes_to_hex : Bytes → Bytes
  pub data_shards : ℕ
  pub meanwhile : W → ℤ

-- What is written to a stream: a JSON object `{status, data}`, or the bytes of a file.
pub data Reply : Type 0 where
  text_reply : Status → Bytes → Reply
  response_reply : Status → CacheResponse → Reply
  file_reply : Bytes → Reply

-- A stream; each write fails with the error in `broken`, if there is one.
pub record Stream : Type 0 where
  pub broken : Option Bytes
  pub sent : List Reply
  pub was_reset : Bool

-- What the actor changes: its queue, nil until the download server runs, the stream that it serves,
-- the messages that it sends to the resource actor and to the asker, and the world outside.
pub record State (W : Type 0) : Type 0 where
  pub dl_queue : Option (Dict DownloadTask)
  pub req_num : ℤ
  pub stream : Stream
  pub outbox : List DownloadRequest
  pub answers : List Bytes
  pub world : W

-- A call that reads and writes the world only.
abbrev pub outside : {W A : Type 0} → Action W A → Action (State W) A
outside m s = let (r, w) = m s.world in (r, record s { world = w })
