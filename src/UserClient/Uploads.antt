-- ===== src/UserClient/Uploads.antt =====
-- The queue of uploads: `PreprocessFileAndPutIntoUploadQueue`, `UploadFile` and the rounds of
-- `UploadServer` (cd2n-client/client/files.go, client.go).
pub mod Marks
pub mod Rounds
pub mod Preprocess
pub mod Queued
pub mod Owned
pub mod Gateway
use cess_dcdn_components.Base.Text.{split}
use cess_dcdn_components.Protocol.{refused}
use cess_dcdn_components.Transfer.Storage.{or_else}
use cess_dcdn_components.UserClient.Cachers.{is_cached}
use cess_dcdn_components.Base.FilePath.{dir}
use cess_dcdn_components.Base.{
  Action, Bool, Bytes, List, Option, [], crash, false, get_elem?, if◌then◌else◌, is_nil, ltb,
  modify, none, not, ok, pure, some, true, ℕ, ◌&&◌, ◌+◌, ◌-◌, ◌==◌, ◌>>=◌, ◌>>◌, ◌∷◌,
}

-- `chain.SegmentDataInfo`: the hash of a segment and the paths of its fragments.
pub record SegmentDataInfo : Type 0 where
  pub segment_hash : Bytes
  pub fragment_hash : List Bytes

pub record UploadGroup : Type 0 where
  pub miner_id : Bytes
  pub peer_id : Bytes
  pub saved : Bool
  pub on_chain : Bool
  pub flush_time : ℕ

pub record UploadStats : Type 0 where
  pub file_hash : Bytes
  pub file_path : Bytes
  pub has_call_back : Bool
  pub segment_info : List SegmentDataInfo
  pub group : List UploadGroup

-- An entry of the order's list of what miners have reported.
pub record Complete : Type 0 where
  pub index : ℕ
  pub miner : Bytes

-- What a round calls: the chain, the selector of storage nodes, whose iterator hands out the peers of a
-- list one after the other, the storage client, the clock, `os.Stat` and `os.RemoveAll`, and the
-- caller's function.
pub record Uplink (W : Type 0) : Type 0 where
  pub query_file : Bytes → Action W (Unit {0})
  pub query_deal_map : Bytes → Action W (List Complete)
  pub new_peers_iterator : ℕ → Action W (List Bytes)
  pub connect : Bytes → Action W (Unit {0})
  pub write_data_action : Bytes → Bytes → Bytes → Bytes → Action W (Unit {0})
  pub feedback : Bytes → Bool → W → W
  pub now : W → ℕ
  pub stat : Bytes → Action W (Unit {0})
  pub remove_all : Bytes → W → W
  pub call_back : UploadStats → W → W

-- `DEFAULT_TASK_INTERVAL` in nanoseconds.
abbrev pub default_task_interval : ℕ
default_task_interval = 300000000000

-- The peers that hold a group from an earlier round.
unfoldable pub saved_peers : List UploadGroup → List Bytes
saved_peers [] = []
saved_peers (g ∷ gs) =
    let rest = saved_peers gs in
    if g.saved && not (is_nil g.peer_id) then g.peer_id ∷ rest else rest

-- The body of the loop over the order's list for the group `i`.
abbrev pub mark_one : ℕ → ℕ → Complete → UploadGroup → UploadGroup
mark_one now i c g =
    if c.index == i && not g.on_chain
    then record g { saved = true; on_chain = true; flush_time = now; miner_id = c.miner }
    else g

unfoldable pub mark_complete : ℕ → ℕ → List Complete → UploadGroup → UploadGroup
mark_complete now i [] g = g
mark_complete now i (c ∷ cs) g = mark_complete now i cs (mark_one now i c g)

-- What the loop over the groups has so far: the count of groups on chain, the groups, the peers left.
pub record SentGroups : Type 0 where
  pub count : ℕ
  pub groups : List UploadGroup
  pub peers : List Bytes

module _ {W : Type 0} (up : Uplink W) (shards : ℕ) where
  -- The directory of a segment's first fragment; the first element of an empty list panics.
  abbrev pub clear_segment : List Bytes → Action W (Unit {0})
  clear_segment [] = crash
  clear_segment (p ∷ ps) =
      if is_nil p
      then pure tt
      else or_else (up.stat (dir p)) (λ _. modify (up.remove_all (dir p))) (pure tt)

  -- `ClearTmpFile`
  unfoldable pub clear_tmp_file : List SegmentDataInfo → Action W (Unit {0})
  clear_tmp_file [] = pure tt
  clear_tmp_file (s ∷ ss) = clear_segment s.fragment_hash >> clear_tmp_file ss

  -- The lines at which a task ends.
  unfoldable pub end_task : UploadStats → Action W (Unit {0})
  unfolding clear_tmp_file
  end_task task = do
    clear_tmp_file task.segment_info
    (if task.has_call_back then modify (up.call_back task) else pure tt)

  -- One fragment for a peer: a path of another form is passed over.
  abbrev pub send_fragment : Bytes → Bytes → Bytes → Action W (Unit {0})
  send_fragment peer file_hash path = elim (split path) [
    | a ∷ b ∷ hash ∷ [] ↦ up.write_data_action peer path file_hash hash
    | _ ↦ pure tt
  ]

  unfoldable pub send_fragments : ℕ → Bytes → Bytes → List SegmentDataInfo → Action W (Unit {0})
  send_fragments i peer file_hash [] = pure tt
  send_fragments i peer file_hash (s ∷ ss) = elim (get_elem? s.fragment_hash i) [
    | none ↦ crash
    | some path ↦ send_fragment peer file_hash path >> send_fragments i peer file_hash ss
  ]

  -- A peer that did not take the fragments, and a peer that is connected.
  abbrev pub refuse : {A : Type 0} → Bytes → Action W A → Action W A
  refuse p rest = modify (up.feedback p false) >> rest

  abbrev pub give :
      ℕ
      → UploadStats
      → Bytes
      → List Bytes
      → Action W (Option Bytes × List Bytes)
      → Action W (Option Bytes × List Bytes)
  give i task p ps rest =
      or_else (send_fragments i p task.file_hash task.segment_info) (λ _. pure (some p, ps))
        (refuse p rest)

  -- The loop over the iterator's peers for the group `i`: the peer that took the fragments, and the peers
  -- that are left.
  unfoldable pub send_group :
      ℕ → UploadStats → List Bytes → List Bytes → Action W (Option Bytes × List Bytes)
  unfolding send_fragments
  send_group i task held [] = pure (none, [])
  send_group i task held (p ∷ ps) =
      let rest = send_group i task held ps in
      if is_cached p held
      then rest
      else or_else (up.connect p) (λ _. give i task p ps rest) (refuse p rest)

  -- The body of the loop over the groups.
  unfoldable pub send_one :
      ℕ
      → UploadStats
      → List Bytes
      → List Complete
      → UploadGroup
      → List Bytes
      → Action W (ℕ × UploadGroup × List Bytes)
  unfolding mark_complete send_group
  send_one i task held cs g peers w =
      let g' = mark_complete (up.now w) i cs g in
      if g'.on_chain
      then (ok (1, g', peers), w)
      else if g'.saved && ltb (up.now w - g'.flush_time) default_task_interval
      then (ok (0, g', peers), w)
      else (do
        r ← send_group i task held peers
        (λ v. elim r.0 [
          | none ↦ (ok (0, g', r.1), v)
          | some p ↦
              (ok (0, record g' { saved = true; peer_id = p; flush_time = up.now v }, r.1), v)
        ]))
          w

  unfoldable pub send_groups :
      ℕ
      → UploadStats
      → List Bytes
      → List Complete
      → List UploadGroup
      → List Bytes
      → Action W SentGroups
  unfolding send_one
  send_groups i task held cs [] peers = pure (record { count = 0; groups = []; peers = peers })
  send_groups i task held cs (g ∷ gs) peers = do
    r ← send_one i task held cs g peers
    s ← send_groups (i + 1) task held cs gs r.2
    pure (record { count = r.0 + s.count; groups = r.1 ∷ s.groups; peers = s.peers })

  -- The end of a round: the task goes back to the queue, or it is done, which is `none`.
  unfoldable pub close_round : UploadStats → SentGroups → Action W (Option UploadStats)
  unfolding end_task
  close_round task s =
      let task' = record task { group = s.groups } in
      if ltb s.count shards then pure (some task') else end_task task' >> pure none

  -- The lines after the order was found, and those after the file was not found on the chain.
  abbrev pub with_order : UploadStats → List Complete → Action W (Option UploadStats)
  with_order task cs =
      or_else (up.new_peers_iterator shards)
        (λ peers.
          send_groups 0 task (saved_peers task.group) cs task.group peers >>= close_round task)
        (pure (some task))

  abbrev pub not_on_chain : UploadStats → Action W (Option UploadStats)
  not_on_chain task =
      or_else (up.query_deal_map task.file_hash) (with_order task) (pure (some task))

  -- One round of `UploadServer` for a task that was taken from the queue.
  unfoldable pub upload_round : UploadStats → Action W (Option UploadStats)
  unfolding end_task send_groups saved_peers close_round
  upload_round task =
      or_else (up.query_file task.file_hash) (λ _. end_task task >> pure none) (not_on_chain task)
