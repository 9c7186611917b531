-- ===== src/Cacher/Queue.antt =====
-- The download queue: one pass of a worker over it, and `RunDownloadServer`. The workers share the
-- queue; what they do is a sequence of passes.
use cess_dcdn_components.Base.Text.{split}
use cess_dcdn_components.Cacher.Records.{get_file_record}
use cess_dcdn_components.Types.{Request, record_fragments}
use cess_dcdn_components.Base.Dict.{Dict, erase, insert}
use cess_dcdn_components.Cacher.{
  CacheActor, DownloadTask, Resource, State, node_resource_cache, site_resource_cache,
}
use cess_dcdn_components.Base.{
  Action, Bool, Bytes, Outcome, [], false, if◌then◌else◌, is_nil, leb, length, modify, none, not,
  ok, panic, pure, some, suc, true, zero, ℕ, ◌&&◌, ◌++◌, ◌==◌, ◌>>◌, ◌∷◌,
}

module _ {W : Type 0} (c : CacheActor W) where
  -- `c.dlQueue.Delete` and `c.dlQueue.Store`, which panic on a nil map.
  abbrev pub delete_task : Bytes → Action (State W) (Unit {0})
  delete_task key s = elim s.dl_queue [
    | none ↦ (panic, s)
    | some m ↦ (ok tt, record s { dl_queue = some (erase key m) })
  ]

  abbrev pub store_task : Bytes → DownloadTask → Action (State W) (Unit {0})
  store_task key task s = elim s.dl_queue [
    | none ↦ (panic, s)
    | some m ↦ (ok tt, record s { dl_queue = some (insert key task m) })
  ]

  -- `actorCtx.Send(resrcActor, …)`
  abbrev pub request_download : Resource → Bytes → Action (State W) (Unit {0})
  request_download option source = modify (λ s. record s {
    outbox =
        s.outbox
        ++ (record {
          option = option;
          request = record {
            option = Request.other [];
            want_url = elim option [ node_resource_cache ↦ [] | site_resource_cache ↦ source ];
            want_file = elim option [ node_resource_cache ↦ source | site_resource_cache ↦ [] ];
            account_id = c.account;
            content = [];
            sign = [];
          };
        }
            ∷ []);
  })

  -- Mark the task and send the request for it.
  unfoldable pub start_task : Bytes → DownloadTask → Action (State W) (Unit {0})
  start_task key task = do
    store_task key (record task { doing = true })
    request_download task.option task.source

  -- A task for a segment of a file.
  unfoldable pub process_node : Bytes → DownloadTask → Action (State W) (Unit {0})
  unfolding start_task
  process_node key task s =
      let (count, known) = get_file_record c key record_fragments s.world in
      if not (length (split task.source) == 2)
      then (ok tt, s)
      else if known && leb c.data_shards count
      then delete_task key s
      else start_task key task s

  -- Whether the cache answers with a path for the key.
  abbrev pub has_path : Outcome Bytes → Bool
  has_path (ok item) = not (is_nil item)
  has_path _ = false

  -- A task for a page: one that is cached already is deleted, and stored and started again.
  unfoldable pub process_site : Bytes → DownloadTask → Action (State W) (Unit {0})
  unfolding start_task
  process_site key task s =
      let (item, w) = c.cache.get_cache_record key s.world in
      (do if has_path item then delete_task key else pure tt; start_task key task)
        (record s { world = w })

  abbrev pub process_option : Resource → Bytes → DownloadTask → Action (State W) (Unit {0})
  process_option node_resource_cache = process_node
  process_option site_resource_cache = process_site

  abbrev pub process_task : Bytes → DownloadTask → Action (State W) (Unit {0})
  process_task key task = process_option task.option key task

  -- `c.dlQueue.Range` over the entries that it finds.
  unfoldable pub range_queue : Dict DownloadTask → Action (State W) (Unit {0})
  unfolding process_node process_site
  range_queue [] = pure tt
  range_queue ((key, task) ∷ entries) = process_task key task >> range_queue entries

  unfoldable pub pass : Action (State W) (Unit {0})
  unfolding range_queue
  pass s = elim s.dl_queue [ none ↦ (panic, s) | some m ↦ range_queue m s ]

  unfoldable pub passes : ℕ → Action (State W) (Unit {0})
  passes zero = pure tt
  passes (suc n) = pass >> passes n

  -- `RunDownloadServer` until its context is done after `n` passes; `ready` tells whether the resource
  -- actor is registered.
  unfoldable pub run_download_server : Bool → ℕ → Action (State W) (Unit {0})
  unfolding passes
  run_download_server ready n s = elim s.dl_queue [
    | some m ↦ (ok tt, s)
    | none ↦
        if not ready
        then (ok tt, s)
        else (do
          modify (λ s. record s { dl_queue = some [] })
          passes n
          modify (λ s. record s { dl_queue = none }))
            s
  ]
