-- ===== src/Config/Bounds.antt =====
-- What holds of the numbers of a configuration that was filled in.
use cess_dcdn_components.Base.Int.{pos, ◌≤ℤ◌}
use cess_dcdn_components.Config.{
  CacherConfig, DefaultConfig, default_cache_path, default_cache_price, fill_cacher, fill_config,
  text_or,
}
use cess_dcdn_components.Base.{Bytes, [], arith, ◌^◌, ◌∷◌, ◌≡◌, ◌≢◌}

-- The bounds that the node relies on.
pub record IsUsable (c : DefaultConfig) : Type 0 where
  pub cache_size : pos (2 ^ 35) ≤ℤ c.cacher.cache_size
  pub expiration_pos : pos 1 ≤ℤ c.cacher.expiration
  pub expiration_week : c.cacher.expiration ≤ℤ pos 10080
  pub free_downloads : c.cacher.free_downloads ≢ pos 0
  pub price : c.cacher.cache_price ≢ []
  pub port : c.actor_svc_port ≢ pos 0
  pub space : c.node_work_space ≢ []

text_or-ne : (s t : Bytes) → t ≢ [] → text_or s t ≢ []
text_or-ne [] t h = h
text_or-ne (c ∷ s) t h = λ e. cc

-- A configuration that was filled in has a cache of at least 32 GiB, an expiration of a minute to a week,
-- a price, free downloads, a port and a work space, whatever the file said.
pub fill_config-IsUsable : (c : DefaultConfig) → IsUsable (fill_config c)
unfolding fill_config
fill_config-IsUsable c = record {
  cache_size = ground arith;
  expiration_pos = ground arith;
  expiration_week = ground arith;
  free_downloads = ground arith;
  price = text_or-ne c.cacher.cache_price default_cache_price (λ e. cc);
  port = ground arith;
  space = text_or-ne c.node_work_space default_cache_path (λ e. cc);
}

-- Numbers within the bounds are left as they are, so filling in once more changes no number.
pub fill_cacher_idem : (c : CacherConfig) → fill_cacher (fill_cacher c) ≡ fill_cacher c
unfolding fill_cacher
fill_cacher_idem c = ground arith
