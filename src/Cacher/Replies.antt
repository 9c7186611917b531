-- ===== src/Cacher/Replies.antt =====
-- Every request that `CacheService` gets through is answered, or its stream is reset.
use cess_dcdn_components.Cacher.Outcomes.{
  Ends, Ends-bind, Ends-from, IsAnswered, IsAnswered-trans, Quiet, Quiet-bind, Quiet-from,
  outside-Quiet, write-IsAnswered, write_json_response-IsAnswered, write_json_response-Keeps,
}
use cess_dcdn_components.Types.{CacheInfo, Request, Status, dail, query, download, other}
use cess_dcdn_components.Base.Text.{split}
use cess_dcdn_components.Base.Dict.{Dict, has}
use cess_dcdn_components.Types.{CacheRequest}
use cess_dcdn_components.Base.Int.{neg_ℕ, ℤ}
use cess_dcdn_components.Cacher.Query.{get_cache_info, answer_query, query_cache_resource}
use cess_dcdn_components.Credit.{add_credit_point, check_credit}
use cess_dcdn_components.Cacher.Service.{
  handle_decoded, handle_option, query_as, cache_service, charge, handle_dail, handle_download,
  handle_query, read_cached, read_info, reply_files, send_file, send_named, serve_file, admit,
  download_name, fragment_key, report_files, segment_key, serve_admitted, look_up, look_up_segment,
  serve_query, reply_with, write, write_json_response,
}
use cess_dcdn_components.Cacher.{
  response_reply, file_reply, text_reply, DownloadTask, CacheActor, Reply, State, outside,
}
use cess_dcdn_components.Base.{
  ℕ, is_nil, List, Option, false, none, some, Bool, Bool-cases, Bytes, Option-cases, Outcome, [],
  arith, err, inl, inr, ok, panic, refl, true, ◌>>=◌, ◌≡◌, ◌≢◌, ◌⊎◌,
}

module _ {W : Type 0} (c : CacheActor W) where
  check_credit_no_error :
      (pubkey content sign : Bytes) (w : W) (e : Bytes)
      → (check_credit c.credit_mg pubkey content sign w).0 ≢ err e
  unfolding check_credit
  check_credit_no_error pubkey content sign w e h = ground arith

  add_credit_point_no_error :
      (key : Bytes) (x : ℤ) (w : W) (e : Bytes) → (add_credit_point c.credit_mg key x w).0 ≢ err e
  unfolding add_credit_point
  add_credit_point_no_error key x w e h = ground arith

  answer_query-Quiet :
      (files : List Bytes) (s : State W) (w : W) (q : Option (Option (Dict DownloadTask)))
      → Quiet s (answer_query c files (record s { world = w }) q)
  unfolding answer_query
  answer_query-Quiet files s w none = tt
  answer_query-Quiet files s w (some q) = refl

  query_cache_resource-Quiet :
      (acc source : Bytes) (is_url : Bool) (s : State W)
      → Quiet s (query_cache_resource c acc source is_url s)
  unfolding query_cache_resource
  query_cache_resource-Quiet acc source is_url s = answer_query-Quiet _ s _ _

  reply_with-Ends : (reply : Reply) (s : State W) → Ends s (reply_with c reply s)
  reply_with-Ends reply s = write_json_response-IsAnswered reply s.stream

  look_up-Quiet :
      (acc key : Bytes) (is_url : Bool) (s : State W) → Quiet s (look_up c acc key is_url s)
  look_up-Quiet acc key is_url s =
      Quiet-bind s (query_cache_resource c acc key is_url s) (report_files c)
        (query_cache_resource-Quiet acc key is_url s) (λ files s' e. e)

  look_up_segment-Quiet :
      (acc key : Bytes) (q : Option (Dict DownloadTask)) (s : State W)
      → Quiet s (look_up_segment c acc key q s)
  look_up_segment-Quiet acc key none s = tt
  look_up_segment-Quiet acc key (some m) s = elim (Bool-cases (has key m)) [
    | inl listed ↦ rw listed refl
    | inr free ↦ rw free (look_up-Quiet acc key false s)
  ]

  serve_admitted-Quiet :
      (req : CacheRequest) (acc : Bytes) (admitted : Bool) (s : State W)
      → Quiet s (serve_admitted c req acc admitted s)
  unfolding serve_admitted
  serve_admitted-Quiet req acc false s = refl
  serve_admitted-Quiet req acc true s = elim (Bool-cases (is_nil req.want_url)) [
    | inr url ↦ rw url (look_up-Quiet acc req.want_url true s)
    | inl file ↦ rw file (elim (Option-cases (segment_key (split req.want_file))) [
      | inl short ↦ rw short refl
      | inr (key, e) ↦ rw e (look_up_segment-Quiet acc key s.dl_queue s)
    ])
  ]

  check-Quiet :
      (req : CacheRequest) (s : State W)
      → Quiet s (outside (check_credit c.credit_mg req.account_id req.content req.sign) s)
  check-Quiet req s =
      outside-Quiet s (check_credit c.credit_mg req.account_id req.content req.sign s.world)
        (check_credit_no_error req.account_id req.content req.sign s.world)

  serve_query-Quiet :
      (req : CacheRequest) (acc : Bytes) (s : State W) → Quiet s (serve_query c req acc s)
  unfolding serve_query
  serve_query-Quiet req acc s =
      Quiet-bind s (outside (check_credit c.credit_mg req.account_id req.content req.sign) s)
        (serve_admitted c req acc) (check-Quiet req s)
        (λ admitted s' e. Quiet-from s s' _ e (serve_admitted-Quiet req acc admitted s'))

  download_name-Quiet : (req : CacheRequest) (s : State W) → Quiet s (download_name c req s)
  unfolding download_name
  download_name-Quiet req s = elim (Bool-cases (is_nil req.want_url)) [
    | inr url ↦ rw url refl
    | inl file ↦ rw file (elim (Option-cases (fragment_key (split req.want_file))) [
      | inl short ↦ rw short refl
      | inr (name, e) ↦ rw e (
          Quiet-bind s (outside (check_credit c.credit_mg req.account_id req.content req.sign) s)
            (admit c name) (check-Quiet req s) (λ admitted s' e'. e'))
    ])
  ]

  read_info-Quiet : (acc : Bytes) (s : State W) → Quiet s (read_info c acc s)
  unfolding get_cache_info
  read_info-Quiet acc s = refl

  reply_files-Ends :
      (s s' : State W) (info : CacheInfo) (r : Status × List Bytes)
      → s'.stream ≡ s.stream
      → Ends s (reply_files c info r s')
  reply_files-Ends s s' info r e =
      Ends-from s s'
        (reply_with c
          (response_reply Status.ok (record { status = r.0; cached_files = r.1; info = info })) s')
        e
        (reply_with-Ends
          (response_reply Status.ok (record { status = r.0; cached_files = r.1; info = info })) s')

  query_as-Ends :
      (req : CacheRequest) (a : Outcome Bytes) (s : State W) → Ends s (query_as c req a s)
  query_as-Ends req (err x) s = reply_with-Ends (text_reply Status.error x) s
  query_as-Ends req panic s = tt
  query_as-Ends req (ok acc) s =
      Ends-bind s (read_info c acc s) (λ info. serve_query c req acc >>= reply_files c info)
        (read_info-Quiet acc s)
        (λ info s1 e1. Ends-from s s1 ((serve_query c req acc >>= reply_files c info) s1) e1 (
          Ends-bind s1 (serve_query c req acc s1) (reply_files c info)
            (serve_query-Quiet req acc s1) (λ r s2 e2. reply_files-Ends s1 s2 info r e2)))

  handle_query-Ends : (req : CacheRequest) (s : State W) → Ends s (handle_query c req s)
  unfolding handle_query
  handle_query-Ends req s = query_as-Ends req (c.credit_mg.address_of req.account_id) s

  handle_dail-Ends : (req : CacheRequest) (s : State W) → Ends s (handle_dail c req s)
  unfolding handle_dail
  handle_dail-Ends req s =
      Ends-bind s (read_info c (c.bytes_to_address_hex req.account_id) s)
        (λ info. reply_files c info (Status.ok, [])) (read_info-Quiet _ s)
        (λ info s1 e1. reply_files-Ends s s1 info _ e1)

  paid-Ends :
      (s s' : State W) (r : Outcome (Unit {0}) × W)
      → ((x : Bytes) → r.0 ≢ err x)
      → IsAnswered s.stream s'.stream
      → Ends s (outside (λ w. r) s')
  paid-Ends s s' (ok u, w) n h = h
  paid-Ends s s' (err x, w) n h = n x refl
  paid-Ends s s' (panic, w) n h = tt

  charge-Ends :
      (size : ℕ) (a : Outcome Bytes) (s s' : State W)
      → IsAnswered s.stream s'.stream
      → Ends s (charge c size a s')
  charge-Ends size (err x) s s' h =
      IsAnswered-trans s.stream s'.stream
        (write_json_response (text_reply Status.error x) s'.stream) h
        (write_json_response-Keeps (text_reply Status.error x) s'.stream)
  charge-Ends size panic s s' h = tt
  charge-Ends size (ok acc) s s' h =
      paid-Ends s s' (add_credit_point c.credit_mg acc (neg_ℕ size) s'.world)
        (add_credit_point_no_error acc (neg_ℕ size) s'.world) h

  send_file-Ends :
      (req : CacheRequest) (r : Outcome (Bytes × ℕ)) (s s' : State W)
      → s'.stream ≡ s.stream
      → Ends s (send_file c req r s')
  send_file-Ends req (err x) s s' e =
      Ends-from s s' (reply_with c (text_reply Status.error x) s') e
        (reply_with-Ends (text_reply Status.error x) s')
  send_file-Ends req panic s s' e = tt
  send_file-Ends req (ok (bytes, size)) s s' e =
      Ends-from s s' (send_file c req (ok (bytes, size)) s') e (
        charge-Ends size (c.credit_mg.address_of req.account_id) s'
          (record s' { stream = write (file_reply bytes) s'.stream })
          (write-IsAnswered (file_reply bytes) s'.stream))

  serve_file-Ends :
      (req : CacheRequest) (name : Bytes) (s : State W) → Ends s (serve_file c req name s)
  unfolding serve_file
  serve_file-Ends req name s = send_file-Ends req (read_cached c name s.world).0 s _ refl

  handle_download-Ends : (req : CacheRequest) (s : State W) → Ends s (handle_download c req s)
  unfolding handle_download
  handle_download-Ends req s =
      Ends-bind s (download_name c req s) (send_named c req) (download_name-Quiet req s) send
    where
      send :
          (name : Bytes ⊎ Bytes) (s' : State W)
          → s'.stream ≡ s.stream
          → Ends s (send_named c req name s')
      send (inl text) s' e =
          Ends-from s s' (reply_with c (text_reply Status.error text) s') e
            (reply_with-Ends (text_reply Status.error text) s')
      send (inr file) s' e =
          Ends-from s s' (serve_file c req file s') e (serve_file-Ends req file s')

  handle_option-Ends :
      (req : CacheRequest) (o : Request) (s : State W) → Ends s (handle_option c req o s)
  handle_option-Ends req dail s = handle_dail-Ends req s
  handle_option-Ends req query s = handle_query-Ends req s
  handle_option-Ends req download s = handle_download-Ends req s
  handle_option-Ends req (other text) s = inr refl

  handle_decoded-Ends : (r : Outcome CacheRequest) (s : State W) → Ends s (handle_decoded c r s)
  handle_decoded-Ends (err x) s = reply_with-Ends (text_reply Status.error x) s
  handle_decoded-Ends panic s = tt
  handle_decoded-Ends (ok req) s = handle_option-Ends req req.option s

  -- A request that is served to its end is answered: more was sent on the stream than before, or the
  -- stream was reset. It never ends in an error, whatever the bytes that came in, how they are decoded,
  -- and what the cache, the files, the ledger and the chain answer.
  pub cache_service-Ends :
      (decode : Bytes → Outcome CacheRequest) (input : Outcome Bytes) (s : State W)
      → Ends s (cache_service c decode input s)
  unfolding cache_service
  cache_service-Ends decode (err x) s = reply_with-Ends (text_reply Status.error x) s
  cache_service-Ends decode panic s = tt
  cache_service-Ends decode (ok bytes) s = handle_decoded-Ends (decode bytes) s
