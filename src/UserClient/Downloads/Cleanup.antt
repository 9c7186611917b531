-- ===== src/UserClient/Downloads/Cleanup.antt =====
-- What `DownloadSegment` leaves behind.
use cess_dcdn_components.Base.FilePath.{join}
use cess_dcdn_components.Base.Text.{text_eq}
use cess_dcdn_components.UserClient.Cachers.Query.{Selector}
use cess_dcdn_components.Transfer.Storage.{
  FileMetadata, Fragment, Sdk, Segment, or_else, remove_all,
}
use cess_dcdn_components.Transfer.Requests.{Disk}
use cess_dcdn_components.Base.Dict.{Dict}
use cess_dcdn_components.UserClient.Downloads.{
  collect_rest, complete_segment, restore, restore_now, Collected, after_fetch, collect_missing,
  collect_segments, collecting, data_in_list, end_collecting, fetch_missing, go_on, removing,
  restored, restored_path,
}
use cess_dcdn_components.Types.{CacheResponse}
use cess_dcdn_components.Base.{
  pure, ◌>>◌, sym, wrapped, Action, Bool-cases, Bytes, List, Outcome, [], ap, arith, err, inl, inr,
  leb, length, next, ok, panic, refl, take, ◌++◌, ◌>>=◌, ◌∙◌, ◌∷◌, ◌≡◌, ◌≤◌,
}
use mathlib.Core.List.{append_assoc, append-nil}
use mathlib.Core.Path.{subst}

-- What a read leaves in the log.
abbrev pub Read :
    {W : Type 0} → (W → List Bytes) → List Bytes → Bytes → Outcome (Unit {0}) × W → Type 0
Read fetched log p (ok u, w) = fetched w ≡ log ++ (p ∷ [])
Read fetched log p (err e, w) = fetched w ≡ log
Read fetched log p (panic, w) = Unit

-- The paths at which a storage node's answer was written: `fetched` lists them, and only a read that
-- succeeds adds one.
pub record IsLog {W : Type 0} (sdk : Sdk W) (fetched : W → List Bytes) : Type 0 where
  pub query : (h : Bytes) (w : W) → fetched (sdk.query_file h w).1 ≡ fetched w
  pub miner : (m : Bytes) (w : W) → fetched (sdk.query_miner_items m w).1 ≡ fetched w
  pub restore :
      (p : Bytes) (ps : List Bytes) (w : W) → fetched (sdk.rs_restore p ps w).1 ≡ fetched w
  pub read :
      (peer name p : Bytes) (w : W)
      → Read fetched (fetched w) p (sdk.read_data_action peer name p w)

module _ {W : Type 0} (sdk : Sdk W) (disk : Disk W) (sel : Selector W)
    (from_cachers : Bytes → Bytes → Bytes → Dict CacheResponse → Action W (List Bytes))
    (fetched : W → List Bytes) (is_log : IsLog sdk fetched) (log : List Bytes) (path : Bytes) where
  -- The paths go on from those of the cache nodes by those that were fetched since the log was `log`.
  abbrev Extends : List Bytes → List Bytes → W → Type 0
  Extends start ps w = (more : List Bytes) × (ps ≡ start ++ more) × (fetched w ≡ log ++ more)

  -- The segment was restored with as many of the paths as are needed, which there were.
  abbrev pub Restored : List Bytes → Outcome (Unit {0}) → W → Type 0
  Restored ps r w =
      (sdk.data_shards ≤ length ps)
      × ((u : W) × (sdk.rs_restore path (take sdk.data_shards ps) u ≡ (r, w)))

  abbrev Kept : List Bytes → Outcome Collected × W → Type 0
  Kept start (ok (collecting ps), w) = Extends start ps w
  Kept start (ok (restored ps r), w) = Extends start ps w × Restored ps r w
  Kept start (err e, w) = ⊥
  Kept start (panic, w) = Unit

  after_fetch-Kept :
      (start ps : List Bytes) (w : W)
      → Extends start ps w
      → Kept start (after_fetch sdk disk sel from_cachers path ps w)
  after_fetch-Kept start ps w (more, e, l) = elim (Bool-cases (leb sdk.data_shards (length ps))) [
    | inl enough ↦ rw enough (
      (more, e, is_log.restore path (take sdk.data_shards ps) w ∙ l),
      (ground (arith, enough), (w, refl)),
    )
    | inr few ↦ rw few (more, e, l)
  ]

  Extends-fetched :
      (start ps : List Bytes) (p : Bytes) (v w : W)
      → Extends start ps v
      → fetched w ≡ fetched v ++ (p ∷ [])
      → Extends start (ps ++ (p ∷ [])) w
  Extends-fetched start ps p v w (more, e, l) g = (
    more ++ (p ∷ []),
    ap (λ qs. qs ++ (p ∷ [])) e ∙ append_assoc start more (p ∷ []),
    g ∙ ap (λ qs. qs ++ (p ∷ [])) l ∙ append_assoc log more (p ∷ []),
  )

  Extends-same :
      (start ps : List Bytes) (v w : W)
      → Extends start ps v
      → fetched w ≡ fetched v
      → Extends start ps w
  Extends-same start ps v w (more, e, l) g = (more, e, g ∙ l)

  -- What a fetch leaves in the log.
  abbrev Fetched : List Bytes → Outcome Bytes × W → Type 0
  Fetched l (ok p, w) = fetched w ≡ l ++ (p ∷ [])
  Fetched l (err e, w) = fetched w ≡ l
  Fetched l (panic, w) = Unit

  Read-Fetched :
      (l : List Bytes) (p : Bytes) (r : Outcome (Unit {0}) × W)
      → Read fetched l p r
      → Fetched l (next (λ _. pure p) r)
  Read-Fetched l p (ok u, w) h = h
  Read-Fetched l p (err e, w) h = h
  Read-Fetched l p (panic, w) h = tt

  miner-Fetched :
      (l : List Bytes) (r : Outcome Bytes × W) (k : Bytes → Action W Bytes)
      → fetched r.1 ≡ l
      → ((peer : Bytes) (v : W) → Fetched (fetched v) (k peer v))
      → Fetched l (next k r)
  miner-Fetched l (ok peer, w) k h f = subst (λ l. Fetched l (k peer w)) h (f peer w)
  miner-Fetched l (err e, w) k h f = h
  miner-Fetched l (panic, w) k h f = tt

  fetch_missing-Fetched :
      (sdir shash : Bytes) (f : Fragment) (w : W)
      → Fetched (fetched w) (fetch_missing sdk disk sel from_cachers sdir shash f w)
  fetch_missing-Fetched sdir shash f w =
      miner-Fetched (fetched w) (sdk.query_miner_items f.miner w)
        (λ peer.
          sdk.read_data_action peer shash (join (sdir ∷ f.hash ∷ []))
          >> pure (join (sdir ∷ f.hash ∷ [])))
        (is_log.miner f.miner w)
        (λ peer v.
          Read-Fetched (fetched v) (join (sdir ∷ f.hash ∷ []))
            (sdk.read_data_action peer shash (join (sdir ∷ f.hash ∷ [])) v)
            (is_log.read peer shash (join (sdir ∷ f.hash ∷ [])) v))

  go_on-Kept :
      (start : List Bytes) (k : List Bytes → Action W Collected) (r : Outcome Collected × W)
      → Kept start r
      → ((ps : List Bytes) (w : W) → Extends start ps w → Kept start (k ps w))
      → Kept start (next (go_on sdk disk sel from_cachers k) r)
  go_on-Kept start k (ok (collecting ps), w) h f = f ps w h
  go_on-Kept start k (ok (restored ps r), w) h f = h
  go_on-Kept start k (err e, w) h f = absurd h
  go_on-Kept start k (panic, w) h f = tt

  or_else-Kept :
      (start l : List Bytes) (r : Outcome Bytes × W) (f : Bytes → Action W Collected)
      (g : Action W Collected)
      → Fetched l r
      → ((p : Bytes) (w : W) → fetched w ≡ l ++ (p ∷ []) → Kept start (f p w))
      → ((w : W) → fetched w ≡ l → Kept start (g w))
      → Kept start (or_else (λ _. r) f g r.1)
  or_else-Kept start l (ok p, w) f g h hf hg = hf p w h
  or_else-Kept start l (err e, w) f g h hf hg = hg w h
  or_else-Kept start l (panic, w) f g h hf hg = tt

  collect_missing-Kept :
      (sdir shash : Bytes) (fs : List Fragment) (start ps : List Bytes) (w : W)
      → Extends start ps w
      → Kept start (collect_missing sdk disk sel from_cachers path sdir shash fs ps w)
  unfolding collect_missing
  collect_missing-Kept sdir shash [] start ps w h = h
  collect_missing-Kept sdir shash (f ∷ fs) start ps w h =
      elim (Bool-cases (data_in_list f.hash ps)) [
        | inl old ↦ rw old (collect_missing-Kept sdir shash fs start ps w h)
        | inr new ↦ rw new (
            or_else-Kept start (fetched w) (fetch_missing sdk disk sel from_cachers sdir shash f w)
              (λ p.
                after_fetch sdk disk sel from_cachers path (ps ++ (p ∷ []))
                >>= go_on sdk disk sel from_cachers
                    (collect_missing sdk disk sel from_cachers path sdir shash fs))
              (collect_missing sdk disk sel from_cachers path sdir shash fs ps)
              (fetch_missing-Fetched sdir shash f w)
              (λ p v g.
                go_on-Kept start (collect_missing sdk disk sel from_cachers path sdir shash fs)
                  (after_fetch sdk disk sel from_cachers path (ps ++ (p ∷ [])) v)
                  (after_fetch-Kept start (ps ++ (p ∷ [])) v (Extends-fetched start ps p w v h g))
                  (λ qs u k. collect_missing-Kept sdir shash fs start qs u k))
              (λ v g.
                collect_missing-Kept sdir shash fs start ps v (Extends-same start ps w v h g)))
      ]

  collect_segments-Kept :
      (sdir shash : Bytes) (ss : List Segment) (start ps : List Bytes) (w : W)
      → Extends start ps w
      → Kept start (collect_segments sdk disk sel from_cachers path sdir shash ss ps w)
  unfolding collect_segments
  collect_segments-Kept sdir shash [] start ps w h = h
  collect_segments-Kept sdir shash (s ∷ ss) start ps w h =
      elim (Bool-cases (text_eq s.hash shash)) [
        | inl same ↦ rw same (
            go_on-Kept start (collect_segments sdk disk sel from_cachers path sdir shash ss)
              (collect_missing sdk disk sel from_cachers path sdir shash s.fragments ps w)
              (collect_missing-Kept sdir shash s.fragments start ps w h)
              (λ qs v k. collect_segments-Kept sdir shash ss start qs v k))
        | inr differ ↦ rw differ (collect_segments-Kept sdir shash ss start ps w h)
      ]

  -- The last thing that was done is to remove the fragments, those of the cache nodes and all that were
  -- fetched; a path that is answered is the segment's, restored just before from as many fragments as are
  -- needed.
  pub record IsCleaned (start : List Bytes) (o : Outcome Bytes) (w : W) : Type 0 where
    pub paths : List Bytes
    pub more : List Bytes
    pub from_start : paths ≡ start ++ more
    pub before : W
    pub all_fetched : fetched before ≡ log ++ more
    pub removed : w ≡ remove_all sdk disk paths before
    pub answer : (p : Bytes) → o ≡ ok p → (p ≡ path) × Restored paths (ok tt) before

  abbrev pub Cleaned : List Bytes → Outcome Bytes × W → Type 0
  Cleaned start (ok p, w) = IsCleaned start (ok p) w
  Cleaned start (err e, w) = IsCleaned start (err e) w
  Cleaned start (panic, w) = Unit

  removing-Cleaned :
      (start ps : List Bytes) (r : Outcome (Unit {0})) (w : W)
      → Extends start ps w
      → Restored ps r w
      → Cleaned start
          (removing sdk disk sel from_cachers ps (restored_path sdk disk sel from_cachers path r) w)
  removing-Cleaned start ps (ok u) w (more, e, l) h = record {
    paths = ps;
    more = more;
    from_start = e;
    before = w;
    all_fetched = l;
    removed = refl;
    answer = λ p d. (cc, h);
  }
  removing-Cleaned start ps (err x) w (more, e, l) h = record {
    paths = ps;
    more = more;
    from_start = e;
    before = w;
    all_fetched = l;
    removed = refl;
    answer = λ p d. cc;
  }
  removing-Cleaned start ps panic w e h = tt

  failed-Cleaned :
      (start ps : List Bytes) (x : Bytes) (w : W)
      → Extends start ps w
      → Cleaned start (removing sdk disk sel from_cachers ps (err x) w)
  failed-Cleaned start ps x w (more, e, l) = record {
    paths = ps;
    more = more;
    from_start = e;
    before = w;
    all_fetched = l;
    removed = refl;
    answer = λ p d. cc;
  }

  ended-Cleaned :
      (start : List Bytes) (r : Outcome Collected × W)
      → Kept start r
      → Cleaned start (next (end_collecting sdk disk sel from_cachers path) r)
  ended-Cleaned start (ok (collecting ps), w) h = failed-Cleaned start ps _ w h
  ended-Cleaned start (ok (restored ps r), w) h = removing-Cleaned start ps r w h.0 h.1
  ended-Cleaned start (err e, w) h = absurd h
  ended-Cleaned start (panic, w) h = tt

  at_start : (start : List Bytes) (w : W) → fetched w ≡ log → Extends start start w
  at_start start w g = ([], sym (append-nil start), g ∙ sym (append-nil log))

  collect_rest-Cleaned :
      (sdir shash : Bytes) (start : List Bytes) (r : Outcome FileMetadata) (w : W)
      → fetched w ≡ log
      → Cleaned start (collect_rest sdk disk sel from_cachers path sdir shash start r w)
  unfolding collect_segments
  collect_rest-Cleaned sdir shash start (ok meta) w g =
      ended-Cleaned start
        (collect_segments sdk disk sel from_cachers path sdir shash meta.segments start w)
        (collect_segments-Kept sdir shash meta.segments start start w (at_start start w g))
  collect_rest-Cleaned sdir shash start (err e) w g =
      failed-Cleaned start start e w (at_start start w g)
  collect_rest-Cleaned sdir shash start panic w g = tt

  restore_now-Cleaned :
      (start : List Bytes) (w : W)
      → sdk.data_shards ≤ length start
      → fetched w ≡ log
      → Cleaned start (restore_now sdk disk sel from_cachers path start w)
  restore_now-Cleaned start w h g =
      removing-Cleaned start start (restore sdk disk sel from_cachers path start w).0
        (restore sdk disk sel from_cachers path start w).1
        (at_start start _ (is_log.restore path (take sdk.data_shards start) w ∙ g)) (h, (w, refl))

module _ {W : Type 0} (sdk : Sdk W) (disk : Disk W) (sel : Selector W)
    (from_cachers : Bytes → Bytes → Bytes → Dict CacheResponse → Action W (List Bytes))
    (fetched : W → List Bytes) (is_log : IsLog sdk fetched) where
  wrapped-fetched :
      (r : Outcome FileMetadata × W)
      → fetched (wrapped "download file segment error" r).1 ≡ fetched r.1
  wrapped-fetched (ok m, w) = refl
  wrapped-fetched (err e, w) = refl
  wrapped-fetched (panic, w) = refl

  -- For a log to which only a successful read from a storage node adds its path: once the cache nodes have
  -- given the paths `start`, `DownloadSegment` ends, unless a call panics, by
  -- removing these and exactly the paths that it has fetched from storage nodes since. If it answers with
  -- a path, that is the segment's, and the segment was restored, just before, from as many of the paths
  -- as are needed.
  pub complete_segment-Cleaned :
      (fhash shash sdir : Bytes) (start : List Bytes) (w : W)
      → Cleaned sdk disk sel from_cachers fetched is_log
          (fetched w)
          (join (sdir ∷ shash ∷ []))
          start
          (complete_segment sdk disk sel from_cachers fhash shash sdir start w)
  complete_segment-Cleaned fhash shash sdir start w =
      elim (Bool-cases (leb sdk.data_shards (length start))) [
        | inl enough ↦ rw enough (
            restore_now-Cleaned sdk disk sel from_cachers fetched is_log (fetched w)
              (join (sdir ∷ shash ∷ [])) start w (ground (arith, enough)) refl)
        | inr few ↦ rw few (
            collect_rest-Cleaned sdk disk sel from_cachers fetched is_log (fetched w)
              (join (sdir ∷ shash ∷ [])) sdir shash start
              (wrapped "download file segment error" (sdk.query_file fhash w)).0
              (wrapped "download file segment error" (sdk.query_file fhash w)).1
              (wrapped-fetched (sdk.query_file fhash w) ∙ is_log.query fhash w))
      ]
