-- ===== src/Resource.antt =====
-- The resource actor (cd2n-node/actors/resource_actor.go): its parameters and what it calls.
pub mod Neighbors
pub mod Download
pub mod Receive
pub mod Shuffle
pub mod Progress
pub mod Reach
pub mod Blocking
mod Tests
use cess_dcdn_components.Transfer.Storage.{Sdk}
use cess_dcdn_components.Transfer.Requests.{Codec, Disk, Host}
use cess_dcdn_components.Base.{
  Action, Bool, Bytes, List, Outcome, if◌then◌else◌, lift, pure, ℕ, ◌==◌, ◌>>=◌, ◌>>◌,
}

-- `struct CacheStrategy`; the numbers are configured, none of them negative.
pub record CacheStrategy : Type 0 where
  pub max_cached_segment_num : ℕ
  pub avg_cached_segment_num : ℕ
  pub min_cached_segment_num : ℕ
  pub neighbor_num : ℕ

abbrev pub or_default : ℕ → ℕ → ℕ
or_default d n = if n == 0 then d else n

-- The strategy of `NewResourceActor`.
unfoldable pub with_defaults : CacheStrategy → CacheStrategy
with_defaults s = record {
  max_cached_segment_num = or_default 16 s.max_cached_segment_num;
  avg_cached_segment_num = or_default 5 s.avg_cached_segment_num;
  min_cached_segment_num = or_default 3 s.min_cached_segment_num;
  neighbor_num = or_default 64 s.neighbor_num;
}

-- The peers that the selector and the DHT know. `peers_iterator` lists the peers that its iterator
-- hands out; `hex_decode`, `multihash` and `new_cid` make a content identifier.
pub record Peers (W : Type 0) : Type 0 where
  pub peers_number : W → ℕ
  pub peers_iterator : ℕ → Action W (List Bytes)
  pub feedback : Bytes → Bool → W → W
  pub find_providers : Bytes → Action W (List Bytes)
  pub connect : Bytes → Action W (Unit {0})
  pub provide : Bytes → Action W (Unit {0})
  pub hex_decode : Bytes → Outcome Bytes
  pub multihash : Bytes → Outcome Bytes
  pub new_cid : Bytes → Bytes

-- `struct ResourceActor`, with the directory for downloads and `http.Get`, whose body may fail while it
-- is copied.
pub record ResourceActor (W : Type 0) : Type 0 where
  pub peers : Peers W
  pub host : Host W
  pub codec : Codec
  pub disk : Disk W
  pub sdk : Sdk W
  pub strategy : CacheStrategy
  pub temp_dir : Bytes
  pub http_get : Bytes → Action W Bytes
  pub get_sha256_hash : Bytes → Bytes

-- `hashToCid`
abbrev pub hash_to_cid : {W : Type 0} → Peers W → Bytes → Action W Bytes
hash_to_cid peers hash = do
  bytes ← lift (λ _. peers.hex_decode hash)
  mh ← lift (λ _. peers.multihash bytes)
  pure (peers.new_cid mh)
