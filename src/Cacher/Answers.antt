-- ===== src/Cacher/Answers.antt =====
-- What a query can find, and what it does while there is no queue.
use cess_dcdn_components.Base.Text.{text_eq, text_eq_ne}
use cess_dcdn_components.Types.{record_fragments}
use cess_dcdn_components.Cacher.Records.{
  get_file_record, on_add_item, on_delete_item, put_file_record,
}
use cess_dcdn_components.Credit.{get_credit_record, no_record}
use cess_dcdn_components.Cacher.Query.{
  is_wanted, answer_query, enqueue, cached_resource, count_request, download_key, download_task,
  load_or_store, query_cache_resource,
}
use cess_dcdn_components.Cacher.Keys.{
  IsSegmentKey, get_file_record-callbacks, get_file_record-same, suffixes_differ,
}
use cess_dcdn_components.Store.{IsLawful}
use cess_dcdn_components.Base.Dict.{lookup-insert_self, Dict, has}
use cess_dcdn_components.Cacher.{CacheActor, DownloadTask, State}
use cess_dcdn_components.Base.{
  Bool-cases, if◌then◌else◌, inl, inr, Bool, Bytes, List, [], false, none, ok, panic, refl, some,
  sym, true, ◌∙◌, ◌∷◌, ◌≡◌,
}

-- What the cache tells the actor through the callbacks.
pub data CacheEvent : Type 0 where
  added deleted : Bytes → CacheEvent

module _ {W : Type 0} (c : CacheActor W) where
  abbrev pub after_events : List CacheEvent → W → W
  after_events [] w = w
  after_events (added k ∷ es) w = after_events es (on_add_item c k w)
  after_events (deleted k ∷ es) w = after_events es (on_delete_item c k w)

enqueue-some :
    {W : Type 0} (c : CacheActor W) (key : Bytes) (task : DownloadTask) (b : Bool)
    (m : Dict DownloadTask)
    → enqueue c key task b (some m) ≡ some (some (if b then load_or_store key task m else m))
enqueue-some c key task true m = refl
enqueue-some c key task false m = refl

has-load_or_store :
    (key : Bytes) (task : DownloadTask) (m : Dict DownloadTask)
    → has key (load_or_store key task m) ≡ true
has-load_or_store key task m = elim (Bool-cases (has key m)) [
  | inl old ↦ rw old old
  | inr new ↦ rw (new, lookup-insert_self key task m)
]

module _ {W : Type 0} (c : CacheActor W) (lawful : IsLawful c.records) (q : Bytes)
    (segment : IsSegmentKey q) where
  get_file_record-after_events :
      (events : List CacheEvent) (w : W)
      → get_file_record c q record_fragments (after_events c events w)
        ≡ get_file_record c q record_fragments w
  get_file_record-after_events [] w = refl
  get_file_record-after_events (added k ∷ es) w =
      get_file_record-after_events es (on_add_item c k w)
      ∙ (get_file_record-callbacks c lawful k q true w segment).0
  get_file_record-after_events (deleted k ∷ es) w =
      get_file_record-after_events es (on_delete_item c k w)
      ∙ (get_file_record-callbacks c lawful k q true w segment).1

  get_file_record-count_request :
      (w : W)
      → get_file_record c q record_fragments (count_request c q w)
        ≡ get_file_record c q record_fragments w
  unfolding put_file_record text_eq
  get_file_record-count_request w =
      get_file_record-same c lawful q true
        (lawful.get-put_other w _ _ _ (text_eq_ne _ _ (λ e. suffixes_differ q q (sym e))))

  -- A segment with no counter of its own is never found: whatever items the cache adds and deletes, a
  -- query for it answers with no file, while the download queue is there.
  pub query_cache_resource_misses :
      (acc : Bytes) (events : List CacheEvent) (s : State W) {m : Dict DownloadTask}
      → get_file_record c q record_fragments s.world ≡ (0, false)
      → s.dl_queue ≡ some m
      → (query_cache_resource c acc q false (record s { world = after_events c events s.world })).0
        ≡ ok []
  unfolding query_cache_resource answer_query cached_resource
  query_cache_resource_misses acc events s {m} none_counted queue =
      rw
        (
          queue,
          enqueue-some c q (download_task c q false)
              (is_wanted c acc q (after_events c events s.world)) m,
          answer_query,
        )
        (rw (
          get_file_record-count_request (after_events c events s.world),
          get_file_record-after_events events s.world,
          none_counted,
        ))

module _ {W : Type 0} (c : CacheActor W) where
  -- While no queue is there, a query that wants to queue its key panics.
  pub query_cache_resource_nil :
      (acc source : Bytes) (is_url : Bool) (s : State W)
      → s.dl_queue ≡ none
      → get_credit_record c.credit_mg acc (count_request c (download_key c source is_url) s.world)
        ≡ (no_record, false)
      → (query_cache_resource c acc source is_url s).0 ≡ panic
  unfolding query_cache_resource answer_query
  query_cache_resource_nil acc source is_url s nil unknown = rw (unknown, nil, answer_query)
