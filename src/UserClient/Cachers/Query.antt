-- ===== src/UserClient/Cachers/Query.antt =====
-- Which cache nodes have a segment: `QuerySegmentFromCachers` (cd2n-client/client/files.go).
use cess_dcdn_components.Base.Text.{text_eq}
use cess_dcdn_components.Transfer.Storage.{or_else}
use cess_dcdn_components.Base.FilePath.{join}
use cess_dcdn_components.Base.Dict.{Dict, insert}
use cess_dcdn_components.Base.{
  Action, All, Bool, Bool-cases, Bytes, List, Outcome, [], codes, err, fail, false, if◌then◌else◌,
  inl, inr, ltb, modify, ok, panic, pure, true, ℕ, ◌==◌, ◌>>=◌, ◌>>◌, ◌∷◌, ◌≡◌,
}
use cess_dcdn_components.Types.{CacheRequest, CacheResponse, hit, other}

-- The selector of cache nodes: how many it has, an iterator, which hands out the peers of a list one
-- after the other, and its feedback; `QueryFileInfoFromCache` and the key of the client; and the queue of
-- orders to settle.
pub record Selector (W : Type 0) : Type 0 where
  pub peers_number : W → ℕ
  pub new_peers_iterator : ℕ → Action W (List Bytes)
  pub feedback : Bytes → Bool → W → W
  pub query_file_info : Bytes → CacheRequest → Action W CacheResponse
  pub public_key : Bytes
  pub settle : CacheResponse → W → W

abbrev is_hit : CacheResponse → Bool
is_hit r = elim r.status [ hit ↦ true | _ ↦ false ]

module _ {W : Type 0} (sel : Selector W) where
  abbrev pub segment_request : Bytes → Bytes → CacheRequest
  segment_request file_hash segment_hash = record {
    option = other [];
    want_url = [];
    want_file = join (file_hash ∷ segment_hash ∷ []);
    account_id = sel.public_key;
    content = [];
    sign = [];
  }

  -- The answer of a node that was asked.
  abbrev pub record_answer :
      Bytes → Dict CacheResponse → CacheResponse → Action W (Dict CacheResponse)
  record_answer peer cached resp =
      modify (sel.feedback peer true)
      >> (if is_hit resp
          then modify (sel.settle resp) >> pure (insert peer resp cached)
          else pure cached)

  -- The workers' loop over the peers that the iterator hands out. Each peer is asked by one worker; the
  -- order is that in which the answers are entered under the lock.
  unfoldable pub ask_cachers :
      Bytes → Bytes → List Bytes → Dict CacheResponse → Action W (Dict CacheResponse)
  ask_cachers file_hash segment_hash [] cached = pure cached
  ask_cachers file_hash segment_hash (p ∷ ps) cached =
      or_else (sel.query_file_info p (segment_request file_hash segment_hash))
        (λ resp. record_answer p cached resp >>= ask_cachers file_hash segment_hash ps)
        (modify (sel.feedback p false) >> ask_cachers file_hash segment_hash ps cached)

  -- `QuerySegmentFromCachers`; without a worker nobody is asked.
  unfoldable pub query_segment_from_cachers : Bytes → Bytes → ℕ → ℕ → Action W (Dict CacheResponse)
  unfolding ask_cachers
  query_segment_from_cachers file_hash segment_hash cacher_num thread_num w =
      let peer_num = sel.peers_number w in
      let wanted_num = if ltb peer_num cacher_num then peer_num else cacher_num in
      let threads = if ltb wanted_num thread_num then peer_num else thread_num in
      (if wanted_num == 0 then fail (codes "cache node not found") else (do
        peers ← sel.new_peers_iterator wanted_num
        (if threads == 0 then pure [] else ask_cachers file_hash segment_hash peers [])))
        w

  -- Every answer of the map is a hit.
  abbrev pub AllHits : Dict CacheResponse → Type 0
  AllHits cached = All (λ (e : Bytes × CacheResponse). is_hit e.1 ≡ true) cached

  abbrev pub HitsOf : Outcome (Dict CacheResponse) × W → Type 0
  HitsOf (ok cached, w) = AllHits cached
  HitsOf (err e, w) = Unit
  HitsOf (panic, w) = Unit

  insert-AllHits :
      (p : Bytes) (r : CacheResponse) (cached : Dict CacheResponse)
      → is_hit r ≡ true
      → AllHits cached
      → AllHits (insert p r cached)
  unfolding insert
  insert-AllHits p r [] h a = (h, tt)
  insert-AllHits p r ((q, s) ∷ cached) h (b, a) = elim (Bool-cases (text_eq q p)) [
    | inl same ↦ rw same (h, a)
    | inr differ ↦ rw differ (b, insert-AllHits p r cached h a)
  ]

  asked-HitsOf :
      (p : Bytes) (cached : Dict CacheResponse)
      (k : Dict CacheResponse → Action W (Dict CacheResponse)) (r : Outcome CacheResponse × W)
      → AllHits cached
      → ((c : Dict CacheResponse) (w : W) → AllHits c → HitsOf (k c w))
      → HitsOf (
          or_else
            (λ _. r)
            (λ resp. record_answer p cached resp >>= k)
            (modify (sel.feedback p false) >> k cached)
            r.1)
  asked-HitsOf p cached k (ok resp, w) a h = elim (Bool-cases (is_hit resp)) [
    | inl yes_hit ↦ rw yes_hit (h (insert p resp cached) _ (insert-AllHits p resp cached yes_hit a))
    | inr no_hit ↦ rw no_hit (h cached _ a)
  ]
  asked-HitsOf p cached k (err e, w) a h = h cached _ a
  asked-HitsOf p cached k (panic, w) a h = tt

  -- Whatever the nodes answer, the map that is gathered has only answers that are hits.
  pub ask_cachers-HitsOf :
      (file_hash segment_hash : Bytes) (ps : List Bytes) (cached : Dict CacheResponse) (w : W)
      → AllHits cached
      → HitsOf (ask_cachers file_hash segment_hash ps cached w)
  unfolding ask_cachers
  ask_cachers-HitsOf file_hash segment_hash [] cached w a = a
  ask_cachers-HitsOf file_hash segment_hash (p ∷ ps) cached w a =
      asked-HitsOf p cached (ask_cachers file_hash segment_hash ps)
        (sel.query_file_info p (segment_request file_hash segment_hash) w) a
        (λ c v b. ask_cachers-HitsOf file_hash segment_hash ps c v b)
