-- ===== src/UserClient/Uploads/Rounds.antt =====
-- When a round of `UploadServer` ends a task, and what it leaves of one that goes back to the queue.
use cess_dcdn_components.UserClient.Uploads.Marks.{
  IsSaved, Marked, NoError, OneSent, confirmed, listed, or_else-NoError, send_one_sent,
}
use cess_dcdn_components.Base.FilePath.{dir}
use cess_dcdn_components.Transfer.Storage.{or_else_err, or_else_ok}
use cess_dcdn_components.UserClient.Uploads.{
  not_on_chain, with_order, SentGroups, clear_segment, saved_peers, upload_round, SegmentDataInfo,
  clear_tmp_file, close_round, end_task, send_groups, Uplink, UploadStats, send_one, Complete,
  UploadGroup,
}
use cess_dcdn_components.Base.{
  ◌>>◌, is_nil, modify, ◌<◌, ◌>>=◌, ◌≤◌, pure, Action, Bool-cases, Bytes, Option, Outcome, err, inl,
  inr, ltb, next, none, ok, panic, refl, some, List, [], arith, if◌then◌else◌, ℕ, ◌+◌, ◌||◌, ◌∷◌,
  ◌≡◌,
}

module _ {W : Type 0} (up : Uplink W) (shards : ℕ) where
  abbrev GroupsSent : ℕ → List Complete → List UploadGroup → Outcome SentGroups × W → Type 0
  GroupsSent i cs gs (ok s, w) = (s.count ≡ confirmed i cs gs) × Marked i cs gs s.groups
  GroupsSent i cs gs (err e, w) = ⊥
  GroupsSent i cs gs (panic, w) = Unit

  abbrev with_group : ℕ → UploadGroup → SentGroups → Action W SentGroups
  with_group n h s = pure (record s { count = n + s.count; groups = h ∷ s.groups })

  rest_sent :
      (i : ℕ) (cs : List Complete) (g h : UploadGroup) (gs : List UploadGroup) (n : ℕ)
      (r : Outcome SentGroups × W)
      → (n ≡ (if g.on_chain || listed i cs then 1 else 0))
      → (h.on_chain ≡ g.on_chain || listed i cs)
      → (IsSaved g → IsSaved h)
      → GroupsSent (i + 1) cs gs r
      → GroupsSent i cs (g ∷ gs) (next (with_group n h) r)
  unfolding confirmed
  rest_sent i cs g h gs n (ok s, w) c e k (d, m) = (rw (c, d) refl, (e, k, m))
  rest_sent i cs g h gs n (err x, w) c e k m = absurd m
  rest_sent i cs g h gs n (panic, w) c e k m = tt

  one_then_rest :
      (i : ℕ) (cs : List Complete) (g : UploadGroup) (gs : List UploadGroup)
      (r : Outcome (ℕ × UploadGroup × List Bytes) × W) (rest : List Bytes → Action W SentGroups)
      → OneSent up shards i cs g r
      → ((ps : List Bytes) (w : W) → GroupsSent (i + 1) cs gs (rest ps w))
      → GroupsSent i cs (g ∷ gs) (next (λ r. rest r.2 >>= with_group r.0 r.1) r)
  one_then_rest i cs g gs (ok (n, h, ps), w) rest (c, e, k) m =
      rest_sent i cs g h gs n (rest ps w) c e k (m ps w)
  one_then_rest i cs g gs (err x, w) rest o m = absurd o
  one_then_rest i cs g gs (panic, w) rest o m = tt

  send_groups_sent :
      (i : ℕ) (task : UploadStats) (held : List Bytes) (cs : List Complete) (gs : List UploadGroup)
      (ps : List Bytes) (w : W)
      → GroupsSent i cs gs (send_groups up shards i task held cs gs ps w)
  unfolding send_groups confirmed
  send_groups_sent i task held cs [] ps w = (refl, tt)
  send_groups_sent i task held cs (g ∷ gs) ps w =
      one_then_rest i cs g gs (send_one up shards i task held cs g ps w)
        (λ ps. send_groups up shards (i + 1) task held cs gs ps)
        (send_one_sent up shards i task held cs g ps w)
        (λ ps v. send_groups_sent (i + 1) task held cs gs ps v)

  bind-NoError :
      {A B : Type 0} (r : Outcome A × W) (f : A → Action W B)
      → NoError up shards r
      → ((a : A) (w : W) → NoError up shards (f a w))
      → NoError up shards (next f r)
  bind-NoError (ok a, w) f n k = k a w
  bind-NoError (err e, w) f n k = absurd n
  bind-NoError (panic, w) f n k = tt

  clear_segment-NoError :
      (ps : List Bytes) (w : W) → NoError up shards (clear_segment up shards ps w)
  clear_segment-NoError [] w = tt
  clear_segment-NoError (p ∷ ps) w = elim (Bool-cases (is_nil p)) [
    | inl holds ↦ rw holds tt
    | inr fails ↦ rw fails (
        or_else-NoError up shards (up.stat (dir p) w) (λ _. modify (up.remove_all (dir p)))
          (pure tt) (λ _ _. tt) (λ _. tt))
  ]

  clear_tmp_file-NoError :
      (ss : List SegmentDataInfo) (w : W) → NoError up shards (clear_tmp_file up shards ss w)
  unfolding clear_tmp_file
  clear_tmp_file-NoError [] w = tt
  clear_tmp_file-NoError (s ∷ ss) w =
      bind-NoError (clear_segment up shards s.fragment_hash w) (λ _. clear_tmp_file up shards ss)
        (clear_segment-NoError s.fragment_hash w) (λ _ v. clear_tmp_file-NoError ss v)

  end_task-NoError : (task : UploadStats) (w : W) → NoError up shards (end_task up shards task w)
  unfolding end_task
  end_task-NoError task w =
      bind-NoError (clear_tmp_file up shards task.segment_info w)
        (λ _. if task.has_call_back then modify (up.call_back task) else pure tt)
        (clear_tmp_file-NoError task.segment_info w) (λ _ v. ground arith)

  -- How a round ends whose file has an order and is not on the chain yet.
  abbrev pub Settled : List Complete → UploadStats → Outcome (Option UploadStats) × W → Type 0
  Settled cs task (ok none, w) = shards ≤ confirmed 0 cs task.group
  Settled cs task (ok (some t), w) =
      (confirmed 0 cs task.group < shards)
      × Marked 0 cs task.group t.group
      × (t.file_hash ≡ task.file_hash)
  Settled cs task (err e, w) = ⊥
  Settled cs task (panic, w) = Unit

  ended-Settled :
      (cs : List Complete) (task : UploadStats) (r : Outcome (Unit {0}) × W)
      → shards ≤ confirmed 0 cs task.group
      → NoError up shards r
      → Settled cs task (next (λ _. pure none) r)
  ended-Settled cs task (ok u, w) h n = h
  ended-Settled cs task (err e, w) h n = absurd n
  ended-Settled cs task (panic, w) h n = tt

  close_round-Settled :
      (cs : List Complete) (task : UploadStats) (r : Outcome SentGroups × W)
      → GroupsSent 0 cs task.group r
      → Settled cs task (next (close_round up shards task) r)
  unfolding close_round
  close_round-Settled cs task (ok s, w) (c, m) = elim (Bool-cases (ltb s.count shards)) [
    | inl less ↦ rw less (ground (arith, c), m, refl)
    | inr done ↦ rw done (
        ended-Settled cs task (end_task up shards (record task { group = s.groups }) w)
          (ground (arith, c)) (end_task-NoError (record task { group = s.groups }) w))
  ]
  close_round-Settled cs task (err e, w) h = absurd h
  close_round-Settled cs task (panic, w) h = tt

  -- If the file is not on the chain yet and its order and some peers are found: a round ends the task
  -- exactly when the groups that were on chain before, or are named by the order's list, are as many as
  -- a file has fragments. Otherwise the task goes back to the queue with just those groups on chain, and
  -- groups on chain are saved if they were before. The round does not fail; it may panic.
  pub upload_round_settles :
      (task : UploadStats) (cs : List Complete) (e : Bytes) (ps : List Bytes) (w w1 w2 w3 : W)
      → up.query_file task.file_hash w ≡ (err e, w1)
      → up.query_deal_map task.file_hash w1 ≡ (ok cs, w2)
      → up.new_peers_iterator shards w2 ≡ (ok ps, w3)
      → Settled cs task (upload_round up shards task w)
  unfolding upload_round
  upload_round_settles task cs e ps w w1 w2 w3 file order found_peers =
      rw
        (
          or_else_err (up.query_file task.file_hash) (λ _. end_task up shards task >> pure none)
              (not_on_chain up shards task) file,
          or_else_ok (up.query_deal_map task.file_hash) (with_order up shards task)
              (pure (some task)) order,
          or_else_ok (up.new_peers_iterator shards)
              (λ peers.
                send_groups up shards 0 task (saved_peers task.group) cs task.group peers
                >>= close_round up shards task)
              (pure (some task)) found_peers,
        )
        (close_round-Settled cs task
          (send_groups up shards 0 task (saved_peers task.group) cs task.group ps w3)
          (send_groups_sent 0 task (saved_peers task.group) cs task.group ps w3))
