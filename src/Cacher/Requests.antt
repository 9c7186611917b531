-- ===== src/Cacher/Requests.antt =====
-- What the passes of the download server ask the resource actor for
-- (cd2n-node/actors/cache_actor.go).
use mathlib.Core.Path.{subst}
use mathlib.Core.List.{append_assoc, append-nil}
use cess_dcdn_components.Base.Text.{split}
use cess_dcdn_components.Base.Dict.{Dict, erase}
use cess_dcdn_components.Types.{Request}
use cess_dcdn_components.Cacher.Passes.{has_enough}
use cess_dcdn_components.Cacher.Queue.{
  delete_task, has_path, pass, process_option, process_node, process_site, process_task,
  range_queue, start_task,
}
use cess_dcdn_components.Cacher.{
  CacheActor, DownloadRequest, DownloadTask, Resource, State, node_resource_cache,
  site_resource_cache,
}
use cess_dcdn_components.Base.{
  All, All-append, Bool-cases, List, Option, [], ap, arith, err, get_elem?, inl, inr, length,
  length-append, next, none, ok, panic, refl, some, suc, sym, ℕ, ◌++◌, ◌+◌, ◌==◌, ◌∙◌, ◌∷◌, ◌≡◌,
  ◌≤◌, Action, Bytes, Outcome,
}

module _ {W : Type 0} (c : CacheActor W) (Known : DownloadTask → Type 0) where
  -- The request is for the source of a known task: a file for the nodes' resources, else a URL, and on the
  -- cache node's account.
  abbrev pub Names : Resource → Bytes → DownloadRequest → Type 0
  Names node_resource_cache source r = (r.request.want_file ≡ source) × (r.request.want_url ≡ [])
  Names site_resource_cache source r = (r.request.want_url ≡ source) × (r.request.want_file ≡ [])

  abbrev pub IsAsked : DownloadRequest → Type 0
  IsAsked r =
      (task : DownloadTask) × Known task
      × (r.option ≡ task.option)
      × (r.request.account_id ≡ c.account)
      × Names task.option task.source r

  -- At most `n` requests were sent, each for a known task.
  abbrev pub Sends : ℕ → State W → Outcome (Unit {0}) × State W → Type 0
  Sends n s r =
      (more : List DownloadRequest) × (r.1.outbox ≡ s.outbox ++ more)
      × All IsAsked more
      × (length more ≤ n)

  none_sent :
      (n : ℕ) (s : State W) (r : Outcome (Unit {0}) × State W) → r.1.outbox ≡ s.outbox → Sends n s r
  none_sent n s r e = ([], e ∙ sym (append-nil s.outbox), tt, omega arith)

  bind-Sends :
      (n m : ℕ) (s : State W) (r : Outcome (Unit {0}) × State W) (k : Action (State W) (Unit {0}))
      → Sends n s r
      → ((t : State W) → Sends m t (k t))
      → Sends (n + m) s (next (λ _. k) r)
  bind-Sends n m s (ok u, t) k (more, e, asked, le) f =
      let (more', e', asked', le') = f t in
      (
        more ++ more',
        e' ∙ ap (λ o. o ++ more') e ∙ append_assoc s.outbox more more',
        All-append IsAsked more more' asked asked',
        omega (arith, le, le', length-append more more'),
      )
  bind-Sends n m s (err x, t) k (more, e, asked, le) f = (more, e, asked, omega (arith, le))
  bind-Sends n m s (panic, t) k (more, e, asked, le) f = (more, e, asked, omega (arith, le))

  -- The request that is sent for a source.
  abbrev message : Resource → Bytes → DownloadRequest
  message option source = record {
    option = option;
    request = record {
      option = Request.other [];
      want_url = elim option [ node_resource_cache ↦ [] | site_resource_cache ↦ source ];
      want_file = elim option [ node_resource_cache ↦ source | site_resource_cache ↦ [] ];
      account_id = c.account;
      content = [];
      sign = [];
    };
  }

  Names-message : (option : Resource) (source : Bytes) → Names option source (message option source)
  Names-message node_resource_cache source = (refl, refl)
  Names-message site_resource_cache source = (refl, refl)

  start_task-Sends :
      (key : Bytes) (task : DownloadTask) (s : State W)
      → Known task
      → Sends 1 s (start_task c key task s)
  unfolding start_task
  start_task-Sends key task s known = started_by s.dl_queue refl
    where
      started_by :
          (o : Option (Dict DownloadTask)) → s.dl_queue ≡ o → Sends 1 s (start_task c key task s)
      started_by none e = rw e (none_sent 1 s (panic, s) refl)
      started_by (some m) e = rw e (
        message task.option task.source ∷ [],
        refl,
        ((task, known, refl, refl, Names-message task.option task.source), tt),
        omega arith,
      )

  delete_task-Sends :
      (key : Bytes) (s : State W) (o : Option (Dict DownloadTask))
      → s.dl_queue ≡ o
      → Sends 0 s (delete_task c key s)
  delete_task-Sends key s none e = rw e (none_sent 0 s (panic, s) refl)
  delete_task-Sends key s (some m) e =
      rw e (none_sent 0 s (ok tt, record s { dl_queue = some (erase key m) }) refl)

  Sends-more : (s : State W) (r : Outcome (Unit {0}) × State W) → Sends 0 s r → Sends 1 s r
  Sends-more s r (more, e, asked, le) = (more, e, asked, omega (arith, le))

  process_node-Sends :
      (key : Bytes) (task : DownloadTask) (s : State W)
      → Known task
      → Sends 1 s (process_node c key task s)
  unfolding process_node
  process_node-Sends key task s known = elim (Bool-cases (length (split task.source) == 2)) [
    | inr other ↦ rw other (none_sent 1 s (ok tt, s) refl)
    | inl two ↦ elim (Bool-cases (has_enough c key s.world)) [
      | inl enough ↦
          rw (two, enough)
            (Sends-more s (delete_task c key s) (delete_task-Sends key s s.dl_queue refl))
      | inr short ↦ rw (two, short) (start_task-Sends key task s known)
    ]
  ]

  process_site-Sends :
      (key : Bytes) (task : DownloadTask) (s : State W)
      → Known task
      → Sends 1 s (process_site c key task s)
  unfolding process_site
  process_site-Sends key task s known =
      elim (Bool-cases (has_path c (c.cache.get_cache_record key s.world).0)) [
        | inl cached ↦ rw cached (
            bind-Sends 0 1 (looked s) (delete_task c key (looked s)) (start_task c key task)
              (delete_task-Sends key (looked s) s.dl_queue refl)
              (λ t. start_task-Sends key task t known))
        | inr new ↦ rw new (start_task-Sends key task (looked s) known)
      ]
    where
      looked : State W → State W
      looked s = record s { world = (c.cache.get_cache_record key s.world).1 }

  process_task-Sends :
      (option : Resource) (key : Bytes) (task : DownloadTask) (s : State W)
      → Known task
      → Sends 1 s (process_option c option key task s)
  process_task-Sends node_resource_cache key task s known = process_node-Sends key task s known
  process_task-Sends site_resource_cache key task s known = process_site-Sends key task s known

  range_queue-Sends :
      (entries : Dict DownloadTask) (s : State W)
      → ((k : ℕ) (key : Bytes) (task : DownloadTask)
          → get_elem? entries k ≡ some (key, task)
          → Known task)
      → Sends (length entries) s (range_queue c entries s)
  unfolding range_queue
  range_queue-Sends [] s known = none_sent 0 s (ok tt, s) refl
  range_queue-Sends ((key, task) ∷ entries) s known =
      let (more, e, asked, le) =
        bind-Sends 1 (length entries) s (process_task c key task s) (range_queue c entries)
          (process_task-Sends task.option key task s (known 0 key task refl))
          (λ t. range_queue-Sends entries t (λ k key task e. known (suc k) key task e)) in
      (more, e, asked, omega (arith, le))

module _ {W : Type 0} (c : CacheActor W) where
  abbrev pub IsQueued : Dict DownloadTask → DownloadTask → Type 0
  IsQueued m task = (k : ℕ) × (key : Bytes) × (get_elem? m k ≡ some (key, task))

  pub pass-Sends :
      (s : State W) {m : Dict DownloadTask}
      → s.dl_queue ≡ some m
      → Sends c (IsQueued m) (length m) s (pass c s)
  unfolding pass
  pass-Sends s {m} queue =
      subst (λ o. Sends c (IsQueued m) (length m) s (from_queue o)) (sym queue)
        (range_queue-Sends c (IsQueued m) m s (λ k key task e. (k, key, e)))
    where
      from_queue : Option (Dict DownloadTask) → Outcome (Unit {0}) × State W
      from_queue o = elim o [ none ↦ (panic, s) | some m ↦ range_queue c m s ]
