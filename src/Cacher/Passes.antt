-- ===== src/Cacher/Passes.antt =====
-- What one pass of the download server does to a task, and when the server runs.
use cess_dcdn_components.Types.{record_fragments}
use cess_dcdn_components.Cacher.Queue.{
  passes, has_path, process_site, run_download_server, start_task,
}
use cess_dcdn_components.Cacher.Records.{get_file_record}
use cess_dcdn_components.Base.Dict.{Dict, erase, insert, lookup, lookup-insert_self}
use cess_dcdn_components.Cacher.{CacheActor, DownloadTask, State}
use cess_dcdn_components.Base.{
  Outcome, arith, err, modify, panic, ◌>>◌, [], length-append, Bool, Bool-cases, Bytes, inl, inr,
  leb, length, none, ok, refl, some, true, ℕ, ◌&&◌, ◌+◌, ◌≡◌,
}

module _ {W : Type 0} (c : CacheActor W) where
  start_task-queued :
      (key : Bytes) (task : DownloadTask) (s : State W) (m : Dict DownloadTask)
      → s.dl_queue ≡ some m
      → ((start_task c key task s).1.dl_queue ≡ some (insert key (record task { doing = true }) m))
        × (length (start_task c key task s).1.outbox ≡ length s.outbox + 1)
  unfolding start_task
  start_task-queued key task s m e = (rw e refl, rw e (length-append s.outbox _))

  -- A task for a page never leaves the queue by a pass: whether or not the page is cached, the task is
  -- in the queue after it, marked, and one more request for it is sent.
  pub process_site_stays :
      (key : Bytes) (task : DownloadTask) (s : State W) {m : Dict DownloadTask}
      → s.dl_queue ≡ some m
      → (queue : Dict DownloadTask) × ((process_site c key task s).1.dl_queue ≡ some queue)
        × (lookup key queue ≡ some (record task { doing = true }))
        × (length (process_site c key task s).1.outbox ≡ length s.outbox + 1)
  unfolding process_site
  process_site_stays key task s {m} e =
      elim (Bool-cases (has_path c (c.cache.get_cache_record key s.world).0)) [
        | inl cached ↦
            let q =
              start_task-queued key task
                (record s {
                  world = (c.cache.get_cache_record key s.world).1;
                  dl_queue = some (erase key m);
                })
                (erase key m) refl in
            (
              insert key _ (erase key m),
              rw (cached, e) q.0,
              lookup-insert_self key _ (erase key m),
              rw (cached, e) q.1,
            )
        | inr uncached ↦
            let q =
              start_task-queued key task
                (record s { world = (c.cache.get_cache_record key s.world).1 }) m e in
            (insert key _ m, rw uncached q.0, lookup-insert_self key _ m, rw uncached q.1)
      ]

  abbrev pub has_enough : Bytes → W → Bool
  has_enough key w =
      let (count, known) = get_file_record c key record_fragments w in
      known && leb c.data_shards count

  -- While the server runs, a second call returns at once and changes nothing.
  pub run_download_server-running :
      (ready : Bool) (n : ℕ) (s : State W) {m : Dict DownloadTask}
      → s.dl_queue ≡ some m
      → run_download_server c ready n s ≡ (ok tt, s)
  unfolding run_download_server
  run_download_server-running ready n s {m} e = rw e refl

  clear_queue-ends :
      (s : State W) (r : Outcome (Unit {0}) × State W)
      → (((λ (t : State W). r) >> modify (λ s. record s { dl_queue = none })) s).0 ≡ ok tt
      → (((λ (t : State W). r) >> modify (λ s. record s { dl_queue = none })) s).1.dl_queue ≡ none
  clear_queue-ends s (ok u, t) h = refl
  clear_queue-ends s (err e, t) h = ground arith
  clear_queue-ends s (panic, t) h = ground arith

  -- A server that started and ends by a value leaves no queue behind.
  pub run_download_server-ends :
      (n : ℕ) (s : State W)
      → s.dl_queue ≡ none
      → (run_download_server c true n s).0 ≡ ok tt
      → (run_download_server c true n s).1.dl_queue ≡ none
  unfolding run_download_server
  run_download_server-ends n s nil h =
      rw nil (clear_queue-ends s (passes c n (record s { dl_queue = some [] })) (rw nil at h))
