-- ===== src/Resource/Tests.antt =====
-- A resource actor whose neighbours have every segment, and the theorems at concrete inputs.
use cess_dcdn_components.Resource.Blocking.{ask_peers_blocks}
use cess_dcdn_components.Base.Dict.{insert}
use cess_dcdn_components.Base.Text.{text_eq}
use cess_dcdn_components.Resource.Shuffle.{shuffle_segments, shuffle_segments-tally, tally}
use cess_dcdn_components.Transfer.Requests.{query_file_info_from_cache, send_request_to_cacher}
use cess_dcdn_components.Base.Int.{pos}
use cess_dcdn_components.Resource.Reach.{fetch_segments_reaches}
use cess_dcdn_components.Resource.Download.{
  fetch_from_storage, fetch_segment, fetch_segments, fetch_stored_fragments, first_loop,
  stored_response,
}
use cess_dcdn_components.Resource.Neighbors.{ask_peers, query_segment_from_neighbor_cacher}
use cess_dcdn_components.Transfer.Storage.{Segment}
use cess_dcdn_components.Resource.{ResourceActor}
use cess_dcdn_components.Base.{
  Bytes, List, Option, Outcome, [], arith, codes, length, ltb, none, ok, panic, refl, some, suc,
  true, ℕ, ◌+◌, ◌>>=◌, ◌∷◌, ◌≡◌,
}
use cess_dcdn_components.Types.{CacheResponse, hit, idle}

abbrev has_all : CacheResponse
has_all = record {
  status = hit;
  cached_files = codes "f1" ∷ [];
  info = record {
    load_ratio = 0;
    status = idle;
    price = [];
    account = codes "acc";
    peer_id = [];
    credit_limit = pos 0;
    credit_points = pos 0;
  };
}

abbrev segment : Bytes → Segment
segment h = record { hash = h; fragments = record { hash = codes "f1"; miner = codes "m" } ∷ [] }

-- The world counts the calls that it notices.
abbrev actor : List Bytes → ResourceActor ℕ
actor neighbours = record {
  peers = record {
    peers_number = λ w. suc (length neighbours);
    peers_iterator = λ n w. (ok neighbours, w);
    feedback = λ peer up w. w;
    find_providers = λ cid w. (ok [], w);
    connect = λ peer w. (ok tt, w);
    provide = λ cid w. (ok tt, w);
    hex_decode = λ h. ok h;
    multihash = λ b. ok b;
    new_cid = λ b. b;
  };
  host = record {
    new_stream = λ peer w. (ok 0, w);
    write_stream = λ s b w. (ok tt, w);
    copy_all = λ s w. (ok (codes "{}"), w);
    reset_stream = λ s w. w;
    close_stream = λ s w. w;
  };
  codec = record {
    marshal_request = λ req. ok (codes "{}");
    data_text = λ b. ok none;
    decode_data = λ b. ok has_all;
    decode_whole = λ b. ok has_all;
  };
  disk = record {
    create = λ p w. (ok tt, w);
    append_to = λ p b w. (ok tt, w);
    stat = λ p w. (ok tt, w);
    read_file = λ p w. (ok [], w);
    remove = λ p w. w;
  };
  sdk = record {
    query_file = λ h w. (ok (record { segments = segment h ∷ []; file_size = 1 }), w);
    query_miner_items = λ m w. (ok m, w);
    read_data_action = λ peer name path w. (ok tt, w + 1);
    rs_restore = λ path paths w. (ok tt, w);
    aes_cbc_decrypt = λ b key. ok b;
    beyond = λ n b. panic;
    data_shards = 1;
    segment_size = 4;
  };
  strategy = record {
    max_cached_segment_num = 2;
    avg_cached_segment_num = 1;
    min_cached_segment_num = 1;
    neighbor_num = 3;
  };
  temp_dir = codes "tmp";
  http_get = λ url w. (ok url, w);
  get_sha256_hash = λ b. b;
}

-- Four neighbours answer, one answer is enough, and there is one routine, which ends at the second
-- answer; one of the two peers that are left fits into the channel, and the call blocks.
four_neighbours : Bytes → Bytes → Outcome (Option (List (Bytes × CacheResponse)))
unfolding query_segment_from_neighbor_cacher
four_neighbours fhash shash =
    (query_segment_from_neighbor_cacher
      (actor (codes "p1" ∷ codes "p2" ∷ codes "p3" ∷ codes "p4" ∷ [])) fhash shash (codes "acc")
      0).0

query_blocks : four_neighbours (codes "f") (codes "s") ≡ ok none
unfolding four_neighbours ask_peers query_file_info_from_cache send_request_to_cacher insert
query_blocks = refl

abbrev asked : List Segment
asked = segment (codes "s1") ∷ segment (codes "s2") ∷ []

abbrev lonely : ResourceActor ℕ
lonely = actor []

-- Without neighbours, the segment that comes first takes its place, and the one that was asked for is
-- fetched after it.
fetch_segments_reaches_example :
    fetch_segments lonely (codes "acc") (codes "f") (codes "s2") 2 asked first_loop 0
    ≡ (fetch_segment lonely (codes "acc") (codes "f") (codes "s2") (segment (codes "s2")) (record {
      num = 1;
      done = true;
      provided = true;
      responses = stored_response lonely (codes "acc") (codes "f") (codes "s2") (codes "f1") ∷ [];
    })
          >>= fetch_segments lonely (codes "acc") (codes "f") (codes "s2") 2 [])
        1
unfolding fetch_segments fetch_segment fetch_from_storage fetch_stored_fragments
    query_segment_from_neighbor_cacher text_eq
fetch_segments_reaches_example =
    fetch_segments_reaches lonely (codes "acc") (codes "f") (codes "s2") 2
      (segment (codes "s1") ∷ []) [] (segment (codes "s2")) 0 1 (refl, tt) refl (omega arith) refl

shuffle_segments-tally_example :
    (ys : List ℕ) × (shuffle_segments (λ i. 0) (5 ∷ 6 ∷ 7 ∷ []) ≡ some ys)
    × (length ys ≡ 3)
    × (tally (λ n. ltb 5 n) ys ≡ 2)
shuffle_segments-tally_example =
    shuffle_segments-tally (λ i. 0) (λ n. ltb 5 n) (5 ∷ 6 ∷ 7 ∷ []) (λ i. omega arith)

abbrev crowded : ResourceActor ℕ
crowded = actor (codes "p2" ∷ codes "p3" ∷ codes "p4" ∷ [])

ask_peers_blocks_example :
    (ask_peers crowded 1 1
      (codes "acc")
      (codes "f/s")
      (codes "p2" ∷ codes "p3" ∷ codes "p4" ∷ [])
      ((codes "p1", has_all) ∷ [])
      0).0
    ≡ ok none
unfolding query_file_info_from_cache send_request_to_cacher
ask_peers_blocks_example =
    ask_peers_blocks crowded 1 (codes "acc") (codes "f/s") (λ peer w. (has_all, w, refl)) 1
      (codes "p2" ∷ codes "p3" ∷ codes "p4" ∷ []) ((codes "p1", has_all) ∷ []) 0 (omega arith)
      (omega arith)
