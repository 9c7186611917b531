-- ===== src/Types.antt =====
-- The messages between cache nodes and clients, and the shared constants (cd2n-lib/types/types.go).
-- A float64 is its IEEE bit pattern: for values that are not negative the patterns are ordered as
-- the values are.
use cess_dcdn_components.Base.{ℕ, ◌*◌, List, Bytes, codes}
use cess_dcdn_components.Base.Int.{ℤ}

-- `RECORD_FRAGMENTS` and `RECORD_REQUESTS`
abbrev pub record_fragments : Bytes
record_fragments = codes "-fragments"

abbrev pub record_requests : Bytes
record_requests = codes "-requests"

-- The `STATUS_` constants; `other` is any other text.
pub data Status : Type 0 where
  hit miss loading frozen error ok : Status
  other : Bytes → Status

-- The `OPTION_` constants of a request; `other` is any other text.
pub data Request : Type 0 where
  query download dail : Request
  other : Bytes → Request

-- `CACHE_BUSY` and `CACHE_IDLE`
pub data Load : Type 0 where
  busy idle : Load

abbrev pub fragment_size : ℕ
fragment_size = 8 * 1024 * 1024

pub record CacheInfo : Type 0 where
  pub load_ratio : ℕ
  pub status : Load
  pub price : Bytes
  pub account : Bytes
  pub peer_id : Bytes
  pub credit_limit : ℤ
  pub credit_points : ℤ

pub record CacheRequest : Type 0 where
  pub option : Request
  pub want_url : Bytes
  pub want_file : Bytes
  pub account_id : Bytes
  pub content : Bytes
  pub sign : Bytes

pub record CacheResponse : Type 0 where
  pub status : Status
  pub cached_files : List Bytes
  pub info : CacheInfo
