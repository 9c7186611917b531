-- ===== src/Cacher/Receive.antt =====
-- The messages of the cache actor: `Receive`.
use cess_dcdn_components.Base.Text.{text_eq_refl, split, text_eq}
use cess_dcdn_components.Cacher.Service.{segment_key}
use cess_dcdn_components.Base.Int.{pos}
use cess_dcdn_components.Cacher.Queue.{delete_task}
use cess_dcdn_components.Base.FilePath.{base}
use cess_dcdn_components.Credit.{RecordItem, add_credit_point, get_credit_record}
use cess_dcdn_components.Base.Dict.{lookup-erase, Dict, erase, lookup}
use cess_dcdn_components.Cacher.{CacheActor, DownloadResponse, DownloadTask, State, origin_site_tag}
use cess_dcdn_components.Base.{
  Bool, Option-cases, arith, inl, inr, ◌∙◌, Action, All, Bytes, List, Option, Outcome, [], crash,
  err, if◌then◌else◌, leb, length, modify, none, not, ok, panic, pure, refl, some, ◌++◌, ◌>>=◌,
  ◌>>◌, ◌∷◌, ◌≡◌,
}
use cess_dcdn_components.Types.{CacheRequest, fragment_size}

-- What the resource actor and others send.
pub data Message : Type 0 where
  wanted : CacheRequest → Message
  page : DownloadResponse → Message
  fragments : List DownloadResponse → Message

-- `filepath.Join(hashs[0], hashs[1])` for the first of at least four responses.
unfoldable pub loaded_segment : List DownloadResponse → Option Bytes
loaded_segment [] = none
loaded_segment (r ∷ rs) = if leb 4 (length (r ∷ rs)) then segment_key (split r.key) else none

module _ {W : Type 0} (c : CacheActor W) where
  -- A path in the cache that the file system knows, or an error.
  abbrev pub cached_path : Bytes → Action W Bytes
  cached_path name = do path ← c.cache.get_cache_record name; c.files.stat path; pure path

  abbrev pub answer_path : Outcome Bytes → Action (State W) (Unit {0})
  answer_path (ok path) = modify (λ s. record s { answers = s.answers ++ (path ∷ []) })
  answer_path (err e) = pure tt
  answer_path panic = crash

  abbrev pub finish_page : Bytes → Outcome (Unit {0}) → Action (State W) (Unit {0})
  finish_page hash (ok u) = delete_task c hash
  finish_page hash (err e) = pure tt
  finish_page hash panic = crash

  abbrev pub move_file : Bytes → Bytes → State W → Outcome (Unit {0}) × State W
  move_file key path s =
      let (r, w) = c.cache.move_file_to_cache key path s.world in (r, record s { world = w })

  -- The error of `AddCreditPoint` is dropped.
  abbrev pub dropped : Outcome (Unit {0}) → Outcome (Unit {0})
  dropped (err e) = ok tt
  dropped (ok u) = ok tt
  dropped panic = panic

  -- A cacher that shared a fragment is credited for it, whatever the fragment's size.
  unfoldable pub credit_origin : Bytes → Action (State W) (Unit {0})
  credit_origin origin s =
      let (r, w) =
        add_credit_point c.credit_mg (c.bytes_to_hex origin) (pos fragment_size) s.world in
      if not (text_eq origin origin_site_tag)
      then (dropped r, record s { world = w })
      else (ok tt, s)

  abbrev pub finish_fragment : Bytes → Outcome (Unit {0}) → Action (State W) (Unit {0})
  finish_fragment origin (ok u) = credit_origin origin
  finish_fragment origin (err e) = pure tt
  finish_fragment origin panic = crash

  unfoldable pub receive_fragment : DownloadResponse → Action (State W) (Unit {0})
  receive_fragment r s =
      let (result, s') = move_file r.key r.resrc_path s in finish_fragment r.origin_node result s'

  unfoldable pub receive_fragments : List DownloadResponse → Action (State W) (Unit {0})
  receive_fragments [] = pure tt
  receive_fragments (r ∷ rs) = receive_fragment r >> receive_fragments rs

  abbrev pub forget_segment : Option Bytes → Action (State W) (Unit {0})
  forget_segment none = pure tt
  forget_segment (some key) = delete_task c key

  abbrev pub receive_wanted : CacheRequest → Action (State W) (Unit {0})
  receive_wanted req s =
      let (r, w) = cached_path req.want_file s.world in answer_path r (record s { world = w })

  unfoldable pub receive_page : DownloadResponse → Action (State W) (Unit {0})
  receive_page r s =
      let hash = c.get_sha256_hash (base r.key) in
      let (result, s') = move_file hash r.resrc_path s in finish_page hash result s'

  -- `Receive`
  unfoldable pub receive : Message → Action (State W) (Unit {0})
  receive (wanted req) = receive_wanted req
  receive (page r) = receive_page r
  receive (fragments rs) = forget_segment (loaded_segment rs) >> receive_fragments rs

  -- Once a page has been moved into the cache, its task is not in the queue.
  pub receive_page_done :
      (r : DownloadResponse) (s : State W) {m : Dict DownloadTask}
      → s.dl_queue ≡ some m
      → (c.cache.move_file_to_cache (c.get_sha256_hash (base r.key)) r.resrc_path s.world).0 ≡ ok tt
      → (queue : Dict DownloadTask) × ((receive (page r) s).1.dl_queue ≡ some queue)
        × (lookup (c.get_sha256_hash (base r.key)) queue ≡ none)
  unfolding receive receive_page
  receive_page_done r s {m} e arrived = (
    erase (c.get_sha256_hash (base r.key)) m,
    rw arrived (rw e refl),
    ground (
      arith,
      lookup-erase (c.get_sha256_hash (base r.key)) (c.get_sha256_hash (base r.key)) m,
      text_eq_refl (c.get_sha256_hash (base r.key)),
    ),
  )

module _ {W : Type 0} (c : CacheActor W)
    (separate : (key path k : Bytes) (w : W)
      → get_credit_record c.credit_mg k (c.cache.move_file_to_cache key path w).1
        ≡ get_credit_record c.credit_mg k w)
    (k : Bytes) where
  abbrev record_in : State W → RecordItem × Bool
  record_in s = get_credit_record c.credit_mg k s.world

  finish_fragment-origin :
      (origin : Bytes) (r : Outcome (Unit {0})) (s : State W)
      → origin ≡ origin_site_tag
      → record_in (finish_fragment c origin r s).1 ≡ record_in s
  unfolding credit_origin
  finish_fragment-origin origin (ok u) s e = rw (e, text_eq_refl origin_site_tag) refl
  finish_fragment-origin origin (err x) s e = refl
  finish_fragment-origin origin panic s e = refl

  receive_fragment-origin :
      (r : DownloadResponse) (s : State W)
      → r.origin_node ≡ origin_site_tag
      → record_in (receive_fragment c r s).1 ≡ record_in s
  unfolding receive_fragment
  receive_fragment-origin r s e =
      finish_fragment-origin r.origin_node _ _ e ∙ separate r.key r.resrc_path k s.world

  after_fragment :
      (s : State W) (r : Outcome (Unit {0}) × State W) (f : Action (State W) (Unit {0}))
      → record_in r.1 ≡ record_in s
      → ((t : State W) → record_in (f t).1 ≡ record_in t)
      → record_in (((λ (t : State W). r) >> f) s).1 ≡ record_in s
  after_fragment s (ok u, t) f e h = h t ∙ e
  after_fragment s (err x, t) f e h = e
  after_fragment s (panic, t) f e h = e

  receive_fragments-origin :
      (rs : List DownloadResponse) (s : State W)
      → All (λ r. r.origin_node ≡ origin_site_tag) rs
      → record_in (receive_fragments c rs s).1 ≡ record_in s
  unfolding receive_fragments
  receive_fragments-origin [] s h = refl
  receive_fragments-origin (r ∷ rs) s h =
      after_fragment s (receive_fragment c r s) (receive_fragments c rs)
        (receive_fragment-origin r s h.0) (λ t. receive_fragments-origin rs t h.1)

  forget_segment-record :
      (key : Option Bytes) (s : State W) → record_in (forget_segment c key s).1 ≡ record_in s
  forget_segment-record none s = refl
  forget_segment-record (some key) s = elim (Option-cases s.dl_queue) [
    | inl nil ↦ rw nil refl
    | inr (m, e) ↦ rw e refl
  ]

  -- Fragments that came from a storage node credit nobody: whatever is received, and however the moves
  -- into the cache end, every account's record stays, if the cache does not touch the ledger.
  pub receive-origin :
      (rs : List DownloadResponse) (s : State W)
      → All (λ r. r.origin_node ≡ origin_site_tag) rs
      → get_credit_record c.credit_mg k (receive c (fragments rs) s).1.world
        ≡ get_credit_record c.credit_mg k s.world
  unfolding receive
  receive-origin rs s h =
      after_fragment s (forget_segment c (loaded_segment rs) s) (receive_fragments c rs)
        (forget_segment-record (loaded_segment rs) s) (λ t. receive_fragments-origin rs t h)
