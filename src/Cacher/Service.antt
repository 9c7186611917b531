-- ===== src/Cacher/Service.antt =====
-- One request of a peer: `CacheService` with its three options, and `WriteJsonResponse`.
use cess_dcdn_components.Base.Text.{split}
use cess_dcdn_components.Base.Int.{neg_ℕ}
use cess_dcdn_components.Base.Dict.{Dict, has}
use cess_dcdn_components.Cacher.Query.{get_cache_info, query_cache_resource}
use cess_dcdn_components.Base.FilePath.{base, join}
use cess_dcdn_components.Credit.{add_credit_point, check_credit}
use cess_dcdn_components.Cacher.{
  DownloadTask, CacheActor, Reply, State, Stream, file_reply, outside, response_reply, text_reply,
}
use cess_dcdn_components.Base.{
  Action, Bool, Bytes, List, Option, Outcome, [], codes, crash, err, false, if◌then◌else◌, inl, inr,
  is_nil, modify, none, not, ok, panic, pure, some, true, ℕ, ◌%◌, ◌++◌, ◌/◌, ◌==◌, ◌>>=◌, ◌>>◌, ◌^◌,
  ◌∷◌, ◌⊎◌,
}
use cess_dcdn_components.Types.{
  Request, CacheInfo, Status, CacheRequest, hit, miss, loading, frozen, query, download, dail,
  other,
}

-- A float64 that JSON can express: its exponent bits are not all ones.
abbrev pub is_finite : ℕ → Bool
is_finite bits = not (bits / 2 ^ 52 % 2048 == 2047)

abbrev pub marshals : Reply → Bool
marshals (response_reply status r) = is_finite r.info.load_ratio
marshals _ = true

-- `s.Write` of a reply: a failed write sends nothing.
abbrev pub write : Reply → Stream → Stream
write reply st = elim st.broken [
  | none ↦ record st { sent = st.sent ++ (reply ∷ []) }
  | some e ↦ record st { was_reset = true }
]

-- `WriteJsonResponse`, whose error its callers drop.
abbrev pub write_json_response : Reply → Stream → Stream
write_json_response reply st =
    if marshals reply then write reply st else record st { was_reset = true }

abbrev pub reset : Stream → Stream
reset st = record st { was_reset = true }

-- `path.Join(paths[0], paths[1])`, and `filepath.Join` of three elements.
abbrev pub segment_key : List Bytes → Option Bytes
segment_key (f ∷ g ∷ rest) = some (join (f ∷ g ∷ []))
segment_key _ = none

abbrev pub fragment_key : List Bytes → Option Bytes
fragment_key (f ∷ g ∷ h ∷ rest) = some (join (f ∷ g ∷ h ∷ []))
fragment_key _ = none

module _ {W : Type 0} (c : CacheActor W) where
  abbrev pub reply_with : Reply → Action (State W) (Unit {0})
  reply_with reply = modify (λ s. record s { stream = write_json_response reply s.stream })

  abbrev pub report_files : List Bytes → Action (State W) (Status × List Bytes)
  report_files files = pure (if is_nil files then (miss, []) else (hit, files))

  -- The status and the files for a key that was asked for.
  abbrev pub look_up : Bytes → Bytes → Bool → Action (State W) (Status × List Bytes)
  look_up acc key is_url = query_cache_resource c acc key is_url >>= report_files

  -- A segment that is being loaded is not looked up; a nil queue panics.
  abbrev pub look_up_segment :
      Bytes → Bytes → Option (Dict DownloadTask) → Action (State W) (Status × List Bytes)
  look_up_segment acc key none = crash
  look_up_segment acc key (some m) = if has key m then pure (loading, []) else look_up acc key false

  -- The function in the middle of the option "query", once the credit is checked.
  unfoldable pub serve_admitted :
      CacheRequest → Bytes → Bool → Action (State W) (Status × List Bytes)
  serve_admitted req acc admitted =
      if not admitted
      then pure (frozen, [])
      else if not (is_nil req.want_url)
      then look_up acc req.want_url true
      else elim (segment_key (split req.want_file)) [
        | none ↦ pure (Status.ok, [])
        | some key ↦ λ s. look_up_segment acc key s.dl_queue s
      ]

  unfoldable pub serve_query : CacheRequest → Bytes → Action (State W) (Status × List Bytes)
  serve_query req acc =
      outside (check_credit c.credit_mg req.account_id req.content req.sign)
      >>= serve_admitted req acc

  abbrev pub read_info : Bytes → Action (State W) CacheInfo
  read_info acc s = let (info, s') = get_cache_info c acc s in (ok info, s')

  abbrev pub reply_files : CacheInfo → Status × List Bytes → Action (State W) (Unit {0})
  reply_files info (status, files) =
      reply_with
        (response_reply Status.ok (record { status = status; cached_files = files; info = info }))

  -- The option "query".
  abbrev pub query_as : CacheRequest → Outcome Bytes → Action (State W) (Unit {0})
  query_as req (err e) = reply_with (text_reply Status.error e)
  query_as req panic = crash
  query_as req (ok acc) = do info ← read_info acc; serve_query req acc >>= reply_files info

  unfoldable pub handle_query : CacheRequest → Action (State W) (Unit {0})
  handle_query req = query_as req (c.credit_mg.address_of req.account_id)

  -- The option "dail".
  unfoldable pub handle_dail : CacheRequest → Action (State W) (Unit {0})
  handle_dail req = do
    info ← read_info (c.bytes_to_address_hex req.account_id)
    reply_files info (Status.ok, [])

  abbrev pub admit : Bytes → Bool → Action (State W) (Bytes ⊎ Bytes)
  admit name admitted = pure (if admitted then inr name else inl (codes "failed credit check"))

  -- The name of the file that a download asks for, or the text that refuses it.
  unfoldable pub download_name : CacheRequest → Action (State W) (Bytes ⊎ Bytes)
  download_name req =
      if not (is_nil req.want_url)
      then pure (inr (c.get_sha256_hash (base req.want_url)))
      else elim (fragment_key (split req.want_file)) [
        | none ↦ pure (inl (codes "illegal file Id and segment Id"))
        | some name ↦
            outside (check_credit c.credit_mg req.account_id req.content req.sign) >>= admit name
      ]

  -- The bytes and the size of a cached file.
  abbrev pub read_cached : Bytes → Action W (Bytes × ℕ)
  read_cached name = do
    path ← c.cache.get_cache_record name
    size ← c.files.stat path
    c.files.open_file path
    bytes ← c.files.read_all path
    pure (bytes, size)

  -- The account pays for the size of the file, whether or not the write succeeded; without a valid
  -- key a JSON error follows the file.
  abbrev pub charge : ℕ → Outcome Bytes → Action (State W) (Unit {0})
  charge size (err e) = reply_with (text_reply Status.error e)
  charge size panic = crash
  charge size (ok acc) = outside (add_credit_point c.credit_mg acc (neg_ℕ size))

  -- What follows the read of the file.
  abbrev pub send_file : CacheRequest → Outcome (Bytes × ℕ) → Action (State W) (Unit {0})
  send_file req (err e) = reply_with (text_reply Status.error e)
  send_file req panic = crash
  send_file req (ok (bytes, size)) =
      modify (λ s. record s { stream = write (file_reply bytes) s.stream })
      >> charge size (c.credit_mg.address_of req.account_id)

  unfoldable pub serve_file : CacheRequest → Bytes → Action (State W) (Unit {0})
  serve_file req name s =
      let (r, w) = read_cached name s.world in send_file req r (record s { world = w })

  abbrev pub send_named : CacheRequest → Bytes ⊎ Bytes → Action (State W) (Unit {0})
  send_named req (inl text) = reply_with (text_reply Status.error text)
  send_named req (inr file) = serve_file req file

  -- The option "download".
  unfoldable pub handle_download : CacheRequest → Action (State W) (Unit {0})
  handle_download req = download_name req >>= send_named req

  -- The `switch` of `CacheService`.
  abbrev pub handle_option : CacheRequest → Request → Action (State W) (Unit {0})
  handle_option req dail = handle_dail req
  handle_option req query = handle_query req
  handle_option req download = handle_download req
  handle_option req (other text) = modify (λ s. record s { stream = reset s.stream })

  abbrev pub handle_decoded : Outcome CacheRequest → Action (State W) (Unit {0})
  handle_decoded (err e) = reply_with (text_reply Status.error e)
  handle_decoded panic = crash
  handle_decoded (ok req) = handle_option req req.option

  -- `CacheService`, from what `ReadData` answers with and the decoding of a request.
  unfoldable pub cache_service :
      (Bytes → Outcome CacheRequest) → Outcome Bytes → Action (State W) (Unit {0})
  cache_service decode (err e) = reply_with (text_reply Status.error e)
  cache_service decode panic = crash
  cache_service decode (ok bytes) = handle_decoded (decode bytes)
