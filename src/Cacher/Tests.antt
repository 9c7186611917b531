-- ===== src/Cacher/Tests.antt =====
-- A cache actor over a world in memory, and the theorems about it at concrete inputs.
use cess_dcdn_components.Cacher.Queue.{pass}
use cess_dcdn_components.Cacher.Requests.{IsQueued, Sends, pass-Sends}
use cess_dcdn_components.Cacher.Paid.{IsGuarded, handle_download-IsGuarded}
use cess_dcdn_components.Cacher.Downloads.{handle_download_unpaid}
use cess_dcdn_components.Types.{CacheRequest, Status, download}
use cess_dcdn_components.Base.Text.{split_dir, text_eq}
use cess_dcdn_components.Types.{record_fragments}
use cess_dcdn_components.Cacher.Query.{query_cache_resource}
use cess_dcdn_components.Base.Int.{pos}
use cess_dcdn_components.Store.Memory.{memory_db, memory_db-IsLawful}
use cess_dcdn_components.Credit.Memory.{list_json}
use cess_dcdn_components.Cacher.Records.{get_file_record, on_add_item, on_delete_item}
use cess_dcdn_components.Cacher.Receive.{fragments, receive, receive-origin}
use cess_dcdn_components.Cacher.Service.{handle_download, cache_service}
use cess_dcdn_components.Base.FilePath.{base}
use cess_dcdn_components.Cacher.Restore.{WalkEntry}
use cess_dcdn_components.Cacher.Keys.{IsSegmentKey, ends_slash, get_file_record-callbacks}
use cess_dcdn_components.Store.{IsLawful, Leveldb}
use cess_dcdn_components.Cacher.Outcomes.{Ends}
use cess_dcdn_components.Cacher.Replies.{cache_service-Ends}
use cess_dcdn_components.Base.Dict.{Dict, has, insert, lookup}
use cess_dcdn_components.Credit.{no_record, put_credit_record, Credit, get_credit_record}
use cess_dcdn_components.Cacher.Answers.{
  CacheEvent, added, after_events, query_cache_resource_misses,
}
use cess_dcdn_components.Cacher.{
  file_reply, text_reply, CacheActor, DownloadResponse, DownloadTask, FileCache, Files, State,
  Stream, node_resource_cache, origin_site_tag, site_resource_cache,
}
use cess_dcdn_components.Base.{
  if◌then◌else◌, Bytes, List, Option, Outcome, [], arith, codes, err, false, none, ok, refl, some,
  true, ◌∷◌, ◌≡◌,
}

-- The world: the items of the cache with their paths, the counters, and the ledger of credits.
record World : Type 0 where
  items : Dict Bytes
  counters : Dict Bytes
  ledger : Dict Bytes

abbrev keys : Dict Bytes → List Bytes
keys [] = []
keys ((k, v) ∷ m) = k ∷ keys m

abbrev path_of : Option Bytes → Outcome Bytes
path_of none = err (codes "no item")
path_of (some p) = ok p

abbrev memory_cache : FileCache World
memory_cache = record {
  get_cache_record = λ key w. (path_of (lookup key w.items), w);
  add_cache_record = λ key path w. record w { items = insert key path w.items };
  move_file_to_cache = λ key path w. (ok tt, record w { items = insert key path w.items });
  get_load_ratio = λ w. 0;
  cached = λ key w. has key w.items;
  cached_keys = λ w. keys w.items;
}

abbrev memory_files : Files World
memory_files = record {
  stat = λ path w. (ok 3, w);
  open_file = λ path w. (ok tt, w);
  read_all = λ path w. (ok path, w);
}

abbrev counter_db : Leveldb World
counter_db = record {
  get = λ w k. memory_db.get w.counters k;
  put = λ w k v. (true, record w { counters = insert k v w.counters });
}

counter_db-IsLawful : IsLawful counter_db
counter_db-IsLawful = record {
  get-put_self = λ w k v e. memory_db-IsLawful.get-put_self w.counters k v refl;
  get-put_other = λ w k j v h. memory_db-IsLawful.get-put_other w.counters k j v h;
}

abbrev credits : Credit World
credits = record {
  price = codes "10";
  owner = codes "node";
  resource_limit = 100;
  db = record {
    get = λ w k. memory_db.get w.ledger k;
    put = λ w k v. (true, record w { ledger = insert k v w.ledger });
  };
  json = list_json;
  orders = record {
    create_credit_order = λ key node_id value w. (ok (codes "tx", codes "order"), w);
    check_credit_order = λ pubkey content sign w. (ok (codes "50"), w);
  };
  now = λ w. 7;
  address_of = λ pubkey. ok pubkey;
}

abbrev node : CacheActor World
node = record {
  cache = memory_cache;
  files = memory_files;
  records = counter_db;
  credit_mg = credits;
  account = codes "node";
  meanwhile = λ w. pos 0;
  get_sha256_hash = λ b. b;
  is_request_uri = λ b. false;
  bytes_to_address_hex = λ b. b;
  hex_to_address = λ b. b;
  bytes_to_hex = λ b. b;
  data_shards = 4;
}

abbrev empty_world : World
empty_world = record { items = []; counters = []; ledger = [] }

abbrev quiet : Stream
quiet = record { broken = none; sent = []; was_reset = false }

abbrev started : Option (Dict DownloadTask) → State World
started q = record {
  dl_queue = q;
  req_num = pos 0;
  stream = quiet;
  outbox = [];
  answers = [];
  world = empty_world;
}

abbrev segment : Bytes
segment = codes "f/s"

segment-IsSegmentKey : IsSegmentKey segment
unfolding ends_slash
segment-IsSegmentKey = (λ e. ground arith, refl)

abbrev page_task : DownloadTask
page_task = record { source = codes "http://a/b"; doing = false; option = site_resource_cache }

abbrev segment_task : DownloadTask
segment_task = record { source = codes "f/s"; doing = false; option = node_resource_cache }

get_file_record-callbacks_example :
    (get_file_record node segment record_fragments (on_add_item node (codes "f/s/h") empty_world)
      ≡ get_file_record node segment record_fragments empty_world)
    × (get_file_record node segment record_fragments
          (on_delete_item node (codes "f/s/h") empty_world)
        ≡ get_file_record node segment record_fragments empty_world)
get_file_record-callbacks_example =
    get_file_record-callbacks node counter_db-IsLawful (codes "f/s/h") segment true empty_world
      segment-IsSegmentKey

abbrev arrivals : List CacheEvent
arrivals = added (codes "f/s/h1") ∷ added (codes "f/s/h2") ∷ []

query_cache_resource_misses_example :
    (query_cache_resource node
      (codes "alice")
      segment
      false
      (record (started (some [])) { world = after_events node arrivals empty_world })).0
    ≡ ok []
unfolding get_file_record lookup text_eq
query_cache_resource_misses_example =
    query_cache_resource_misses node counter_db-IsLawful segment segment-IsSegmentKey
      (codes "alice") arrivals (started (some [])) {m = []} refl refl

cache_service-Ends_example :
    Ends
      (started (some []))
      (cache_service node (λ b. err (codes "bad JSON")) (ok (codes "{")) (started (some [])))
cache_service-Ends_example =
    cache_service-Ends node (λ b. err (codes "bad JSON")) (ok (codes "{")) (started (some []))

abbrev page_response : DownloadResponse
page_response = record {
  resrc_path = codes "/tmp/x";
  key = codes "http://a/b";
  origin_node = origin_site_tag;
}

receive-origin_example :
    get_credit_record credits
      (codes "alice")
      (receive node (fragments (page_response ∷ [])) (started (some []))).1.world
    ≡ get_credit_record credits (codes "alice") empty_world
unfolding get_credit_record
receive-origin_example =
    receive-origin node (λ key path k w. refl) (codes "alice") (page_response ∷ [])
      (started (some [])) (refl, tt)

abbrev fragment_entry : WalkEntry
fragment_entry = record { path = codes "/c/f/s/h"; failure = none; is_dir = false; size = 8 }

abbrev stocked : World
stocked = record {
  items = (codes "a.png", codes "page") ∷ (codes "f/s/h", codes "part") ∷ [];
  counters = [];
  ledger = [];
}

-- The node whose chain accepts one key only.
abbrev strict_node : CacheActor World
strict_node = record node {
  credit_mg = record credits {
    address_of = λ pubkey. if text_eq pubkey (codes "alice") then ok pubkey else err (codes "key");
  };
}

abbrev wants_file : Bytes → CacheRequest
wants_file account = record {
  option = download;
  want_url = [];
  want_file = codes "f/s/h";
  account_id = account;
  content = [];
  sign = [];
}

abbrev wants_page : CacheRequest
wants_page = record (wants_file (codes "mallory")) { want_url = codes "https://site.org/a.png" }

abbrev stocked_state : State World
stocked_state = record (started (some [])) { world = stocked }

handle_download_unpaid_example :
    ((handle_download strict_node wants_page stocked_state).1.stream.sent
      ≡ file_reply (codes "page") ∷ text_reply Status.error (codes "key") ∷ [])
    × ((handle_download strict_node wants_page stocked_state).1.world ≡ stocked)
unfolding lookup base split_dir text_eq
handle_download_unpaid_example =
    handle_download_unpaid strict_node wants_page stocked_state {bytes = codes "page"}
      {x = codes "key"} {size = 3} {w = stocked} refl refl refl refl

-- The first query of an account stores an empty record for it.
abbrev met_alice : World
met_alice = (put_credit_record strict_node.credit_mg (codes "alice") no_record stocked).1

handle_download-IsGuarded_example :
    IsGuarded strict_node
      (wants_file (codes "alice"))
      stocked_state
      (handle_download strict_node (wants_file (codes "alice")) stocked_state)
handle_download-IsGuarded_example =
    handle_download-IsGuarded strict_node (wants_file (codes "alice")) stocked_state refl

abbrev one_task : Dict DownloadTask
one_task = (segment, segment_task) ∷ []

pass-Sends_example :
    Sends node
      (IsQueued node one_task)
      1
      (started (some one_task))
      (pass node (started (some one_task)))
pass-Sends_example = pass-Sends node (started (some one_task)) {m = one_task} refl
