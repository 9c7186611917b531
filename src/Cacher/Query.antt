-- ===== src/Cacher/Query.antt =====
-- Queries of the cache actor: `QueryCacheResource` and `GetCacheInfo`.
use cess_dcdn_components.Base.Int.{leb_ℤ, ltb_ℤ, pos, signed64, u64_mod, ℤ, ◌+ℤ◌}
use cess_dcdn_components.Cacher.Records.{get_file_record, put_file_record}
use cess_dcdn_components.Credit.{
  get_credit_record, is_limited, level_common, level_owner, level_untrust,
}
use cess_dcdn_components.Base.Text.{contains, split_dir, text_eq}
use cess_dcdn_components.Base.FilePath.{base}
use cess_dcdn_components.Base.Dict.{Dict, has, insert}
use cess_dcdn_components.Types.{CacheInfo, Load, busy, idle, record_fragments, record_requests}
use cess_dcdn_components.Cacher.{
  CacheActor, DownloadTask, State, busy_line, node_resource_cache, site_resource_cache,
}
use cess_dcdn_components.Base.{
  Outcome, Action, Bool, Bytes, List, Option, [], false, if◌then◌else◌, ltb, none, ok, panic, some,
  true, ℕ, ◌%◌, ◌&&◌, ◌+◌, ◌-◌, ◌==◌, ◌||◌, ◌∷◌,
}

-- 0.8 as a float64.
abbrev pub eight_tenths : ℕ
eight_tenths = 0x3fe999999999999a

-- The condition under which a query puts its key into the download queue.
abbrev pub wants_download : ℕ → ℤ → ℤ → Bool
wants_download ratio level req =
    (leb_ℤ level level_owner && leb_ℤ level_owner level)
    || (ltb ratio eight_tenths && ltb_ℤ level (pos level_untrust))
    || (ltb_ℤ level level_common && leb_ℤ (pos 2) req)
    || ltb_ℤ (pos 4) req

-- `sync.Map.LoadOrStore`
abbrev pub load_or_store : Bytes → DownloadTask → Dict DownloadTask → Dict DownloadTask
load_or_store key task m = if has key m then m else insert key task m

-- `-int64(x)` of a `uint64`.
abbrev pub negated64 : ℕ → ℤ
negated64 x = signed64 ((u64_mod - x % u64_mod) % u64_mod)

-- The keys that `TraverseCache` answers with for a segment: the key itself, or the last element of a
-- key that contains it.
unfoldable pub matching : Bytes → List Bytes → List Bytes
matching key [] = []
matching key (k ∷ ks) =
    let rest = matching key ks in
    if text_eq k key then k ∷ rest else if contains k key then (split_dir k).1 ∷ rest else rest

module _ {W : Type 0} (c : CacheActor W) where
  abbrev pub download_key : Bytes → Bool → Bytes
  download_key key is_url = if is_url then c.get_sha256_hash (base key) else key

  abbrev pub download_task : Bytes → Bool → DownloadTask
  download_task source is_url = record {
    source = source;
    doing = false;
    option = if is_url then site_resource_cache else node_resource_cache;
  }

  -- The count of a request: `req += 1` on an `int`, stored again.
  abbrev pub count_request : Bytes → W → W
  count_request key w =
      (put_file_record c key record_requests (pos ((get_file_record c key record_requests w).0 + 1))
        w).1

  -- Whether a query in the state `w` puts its key into the queue: the request is counted first.
  abbrev pub is_wanted : Bytes → Bytes → W → Bool
  is_wanted acc key w =
      wants_download (c.cache.get_load_ratio (count_request key w))
        (get_credit_record c.credit_mg acc (count_request key w)).0.level
        (pos ((get_file_record c key record_requests w).0 + 1))

  -- The queue after a query; storing into a nil queue panics.
  abbrev pub enqueue :
      Bytes → DownloadTask → Bool → Option (Dict DownloadTask) → Option (Option (Dict DownloadTask))
  enqueue key task false q = some q
  enqueue key task true none = none
  enqueue key task true (some m) = some (some (load_or_store key task m))

  -- What `QueryCacheResource` answers with.
  unfoldable pub cached_resource : Bytes → Bool → W → List Bytes
  cached_resource key true w = if c.cache.cached key w then key ∷ [] else []
  cached_resource key false w =
      if (get_file_record c key record_fragments w).0 == 0
      then []
      else matching key (c.cache.cached_keys w)

  -- The end of a query: a panic, or the new queue and the answer.
  unfoldable pub answer_query :
      List Bytes → State W → Option (Option (Dict DownloadTask)) → Outcome (List Bytes) × State W
  answer_query found_files s none = (panic, s)
  answer_query found_files s (some q) = (ok found_files, record s { dl_queue = q })

  unfoldable pub query_cache_resource : Bytes → Bytes → Bool → Action (State W) (List Bytes)
  query_cache_resource acc source is_url s =
      let key = download_key source is_url in
      let w = count_request key s.world in
      answer_query (cached_resource key is_url w) (record s { world = w })
        (enqueue key (download_task source is_url) (is_wanted acc key s.world) s.dl_queue)

  abbrev pub set_request_number : ℤ → State W → State W
  set_request_number delta s = record s { req_num = s.req_num +ℤ delta }

  -- The status that `GetCacheInfo` reports, from its two reads of the number of requests.
  unfoldable pub load_status : ℤ → ℤ → Load
  load_status first second = if ltb_ℤ busy_line first && ltb_ℤ first second then busy else idle

  -- Other routines may change the number of requests between the two reads.
  unfoldable pub get_cache_info : Bytes → State W → CacheInfo × State W
  unfolding load_status
  get_cache_info acc s =
      let ((limit, limited), w) = is_limited c.credit_mg acc s.world in
      let second = s.req_num +ℤ c.meanwhile w in
      (
        record {
          load_ratio = c.cache.get_load_ratio s.world;
          status = load_status s.req_num second;
          price = c.credit_mg.price;
          account = c.hex_to_address c.credit_mg.owner;
          peer_id = [];
          credit_limit = if limited then negated64 limit else signed64 limit;
          credit_points = pos 0;
        },
        record s { world = w; req_num = second },
      )
