-- ===== src/UserClient/TaskTests.antt =====
-- Nodes, a chain and storage in memory, and the theorems about the client's tasks at concrete inputs.
use cess_dcdn_components.Base.Decimal.{print, set_string}
use cess_dcdn_components.UserClient.Payment.Bills.{pay_cache_order_books}
use cess_dcdn_components.Credit.Memory.{ledger_at}
use cess_dcdn_components.UserClient.Payment.{Settler, pay_cache_order, tell_order}
use cess_dcdn_components.Base.Dict.{Dict, lookup}
use cess_dcdn_components.Credit.{Credit, get_credit_record, level_of, put_credit_record}
use cess_dcdn_components.Types.{hit, CacheResponse, idle}
use cess_dcdn_components.Base.Int.{add64, mul, neg_ℕ, pos, ◌+ℤ◌}
use cess_dcdn_components.Base.Text.{text_eq}
use cess_dcdn_components.UserClient.Cachers.Stuck.{run_never_finished, succeeding}
use cess_dcdn_components.UserClient.Cachers.Counts.{run_counts}
use cess_dcdn_components.Base.FilePath.{join}
use cess_dcdn_components.UserClient.Uploads.Queued.{Uploaded, upload_file-Uploaded}
use cess_dcdn_components.UserClient.Uploads.{Uplink, UploadStats, upload_round}
use cess_dcdn_components.UserClient.Cachers.{
  Source, all_finished, is_cached, run, start_pool, uncache,
}
use cess_dcdn_components.UserClient.Uploads.Rounds.{Settled, upload_round_settles}
use cess_dcdn_components.UserClient.Uploads.Preprocess.{
  Orders, compare_slice, compare_slice_lem, no_group, no_status, upload_file,
}
use cess_dcdn_components.Base.{
  Bool, Bytes, List, Outcome, [], arith, codes, err, false, length, ok, refl, true, ℕ, ◌+◌, ◌<◌,
  ◌↔◌, ◌∷◌, ◌≡◌, ◌≤◌,
}

abbrev node_of : List Bytes → Source
node_of fs = record { peer = codes "p"; fragments = fs; account = codes "alice" }

abbrev two_nodes : List Source
two_nodes = node_of (codes "x" ∷ codes "y" ∷ []) ∷ node_of (codes "y" ∷ []) ∷ []

-- The first worker takes x and y, of which the download of x fails.
abbrev moves : List (ℕ × Bool)
moves =
    (0, true)
    ∷ (0, true)
    ∷ (0, false)
    ∷ (1, true)
    ∷ (0, true)
    ∷ (1, true)
    ∷ (1, true)
    ∷ (0, true)
    ∷ (1, true)
    ∷ []

-- A path that was not downloaded is returned, counted and credited like one that was.
run_failed :
    (run 2 (codes "d") moves (start_pool two_nodes)).tally.res ≡ codes "d/x" ∷ codes "d/y" ∷ []
unfolding run start_pool is_cached uncache text_eq join ◌+ℤ◌
run_failed = refl

run_counts_example :
    let s = (run 2 (codes "d") moves (start_pool two_nodes)).tally in
    (length s.res ≡ s.dld)
    × (length s.credited ≡ length s.res)
    × (length s.res + 1 ≤ 2 + length two_nodes)
run_counts_example = run_counts 2 (codes "d") two_nodes moves (omega arith)

run_never_finished_example :
    (all_finished
        (run 4
          (codes "d")
          (succeeding (0 ∷ 0 ∷ 0 ∷ 0 ∷ []))
          (start_pool (node_of (codes "x" ∷ []) ∷ []))).workers
      ≡ false)
    × ((run 4
          (codes "d")
          (succeeding (0 ∷ 0 ∷ 0 ∷ 0 ∷ []))
          (start_pool (node_of (codes "x" ∷ []) ∷ []))).tally.dld
        < 4)
unfolding is_cached text_eq
run_never_finished_example =
    run_never_finished 4 (codes "d") (codes "x" ∷ []) (node_of (codes "x" ∷ []) ∷ [])
      (0 ∷ 0 ∷ 0 ∷ 0 ∷ []) (omega arith) ((refl, tt), tt) (omega arith)

compare_slice_lem_example :
    (compare_slice (codes "ab") (codes "ac") ≡ true) ↔ (codes "ab" ≡ codes "ac")
compare_slice_lem_example = compare_slice_lem (codes "ab") (codes "ac")

-- A file of two groups, of which the order names the first.
abbrev memory_uplink : Uplink (List UploadStats)
memory_uplink = record {
  query_file = λ h w. (err (codes "not found"), w);
  query_deal_map = λ h w. (ok (record { index = 0; miner = codes "m" } ∷ []), w);
  new_peers_iterator = λ n w. (ok (codes "p" ∷ codes "q" ∷ []), w);
  connect = λ p w. (ok tt, w);
  write_data_action = λ p path f h w. (ok tt, w);
  feedback = λ p b w. w;
  now = λ w. 1000;
  stat = λ p w. (ok tt, w);
  remove_all = λ p w. w;
  call_back = λ t w. t ∷ w;
}

abbrev two_groups : UploadStats
two_groups = record no_status { file_hash = codes "f"; group = no_group ∷ no_group ∷ [] }

upload_round_settles_example :
    Settled memory_uplink 2
      (record { index = 0; miner = codes "m" } ∷ [])
      two_groups
      (upload_round memory_uplink 2 two_groups [])
upload_round_settles_example =
    upload_round_settles memory_uplink 2 two_groups (record { index = 0; miner = codes "m" } ∷ [])
      (codes "not found") (codes "p" ∷ codes "q" ∷ []) [] [] [] [] refl refl refl

-- A chain that has no file yet, and one where the account owns every file.
abbrev memory_orders : Outcome (List Bytes) → Orders (List UploadStats)
memory_orders owned = record {
  stat = λ p w. (ok (record { name = p; is_dir = false; size = 3 }), w);
  full_processing = λ p c t w. (ok ([], codes "root"), w);
  owners = λ h w. (owned, w);
  place_storage_order = λ h n b t ss a z w. (ok (codes "tx"), w);
  account = codes "alice";
  enqueue = λ t w. t ∷ w;
  marshal_box = λ b. ok (codes "box");
}

upload_file-Uploaded_example : Uploaded (memory_orders (err [])) 2 (codes "tmp") (codes "d/a") (
    upload_file
      (memory_orders (err []))
      2
      (codes "tmp")
      (codes "t")
      (codes "b")
      (codes "d/a")
      []
      false
      [])
upload_file-Uploaded_example =
    upload_file-Uploaded (memory_orders (err [])) 2 (codes "tmp") (codes "t") (codes "b")
      (codes "d/a") [] false []

abbrev ledger : Credit (Dict Bytes)
ledger = ledger_at (codes "10")

abbrev memory_settler : Settler (Dict Bytes)
memory_settler = record {
  address_text = λ a. a;
  decode_hex = λ t. ok t;
  decode_base58 = λ t. ok t;
  sign_order = λ t. ok t;
  public_key = codes "key";
  query_file_info = λ p r w. (err (codes "no stream"), w);
}

-- A node that is owed 20,000,000 bytes, which are two fragments.
abbrev owed : CacheResponse
owed = record {
  status = hit;
  cached_files = [];
  info = record {
    load_ratio = 0;
    status = idle;
    price = codes "10";
    account = codes "alice";
    peer_id = codes "p";
    credit_limit = neg_ℕ 20000000;
    credit_points = pos 0;
  };
}

pay_cache_order_books_example :
    let r = (get_credit_record ledger (codes "alice") []).0 in
    let r' = record r { level = pos 3; sent_resource = add64 r.sent_resource 2 } in
    pay_cache_order ledger memory_settler owed []
    ≡ tell_order ledger memory_settler
        (codes "p")
        (codes "tx", codes "order")
        (put_credit_record ledger (codes "alice") r' []).1
unfolding set_string ◌+ℤ◌ get_credit_record lookup level_of print mul
pay_cache_order_books_example =
    pay_cache_order_books ledger memory_settler owed 20000000 10 [] []
      {order = (codes "tx", codes "order")} {l = pos 3} (omega arith) refl refl refl (omega arith)
      (omega arith) refl refl
