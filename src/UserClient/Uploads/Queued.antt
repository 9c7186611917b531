-- ===== src/UserClient/Uploads/Queued.antt =====
-- Which answers of the uploads stand for a task in the queue.
use cess_dcdn_components.Transfer.Storage.{or_else}
use cess_dcdn_components.UserClient.Uploads.{SegmentDataInfo, UploadGroup, UploadStats}
use cess_dcdn_components.UserClient.Uploads.Preprocess.{
  FileStat, Orders, is_owner, new_task, no_groups, no_status, order_unless_owned, place_order,
  preprocess_file, upload_file,
}
use cess_dcdn_components.Base.{
  Action, All, Bool, Bool-cases, Bytes, List, Outcome, [], arith, err, false, if◌then◌else◌, inl,
  inr, length, modify, next, ok, panic, pure, refl, suc, true, wrapped, wrapping, zero, ℕ, ◌==◌,
  ◌>>=◌, ◌>>◌, ◌||◌, ◌≡◌, ◌≢◌, ◌⊎◌,
}

abbrev NotOnChain : UploadGroup → Type 0
NotOnChain g = g.on_chain ≡ false

no_groups_lem : (n : ℕ) → (length (no_groups n) ≡ n) × All NotOnChain (no_groups n)
unfolding no_groups
no_groups_lem zero = (refl, tt)
no_groups_lem (suc n) = let (l, a) = no_groups_lem n in (omega (arith, l), (refl, a))

module _ {W : Type 0} (orders : Orders W) (shards : ℕ) (tmp_dir : Bytes) where
  -- The last thing that was done is to queue the task, which has a group for each fragment of a segment,
  -- none of them on chain.
  pub record InQueue (path : Bytes) (st : UploadStats) (v : W) : Type 0 where
    pub before : W
    pub queued : v ≡ orders.enqueue st before
    pub file : st.file_path ≡ path
    pub groups : length st.group ≡ shards
    pub off_chain : All NotOnChain st.group

  -- An answer without a file's hash, or a task in the queue.
  abbrev Queued : Bytes → Outcome UploadStats × W → Type 0
  Queued path (ok st, v) = (st.file_hash ≡ []) ⊎ InQueue path st v
  Queued path (err e, v) = Unit
  Queued path (panic, v) = Unit

  bind-Queued :
      {A : Type 0} (path : Bytes) (f : A → Action W UploadStats) (r : Outcome A × W)
      → ((a : A) (v : W) → Queued path (f a v))
      → Queued path (next f r)
  bind-Queued path f (ok a, w) k = k a w
  bind-Queued path f (err e, w) k = tt
  bind-Queued path f (panic, w) k = tt

  or_else-Queued :
      {A : Type 0} (path : Bytes) (r : Outcome A × W) (f : A → Action W UploadStats)
      (g : Action W UploadStats)
      → ((a : A) (v : W) → Queued path (f a v))
      → ((v : W) → Queued path (g v))
      → Queued path (or_else (λ _. r) f g r.1)
  or_else-Queued path (ok a, w) f g hf hg = hf a w
  or_else-Queued path (err e, w) f g hf hg = hg w
  or_else-Queued path (panic, w) f g hf hg = tt

  place_order-Queued :
      (path territory bucket : Bytes) (cb : Bool) (f : FileStat)
      (processed : List SegmentDataInfo × Bytes) (dedup : Bool) (w : W)
      → Queued path (place_order orders shards tmp_dir path territory bucket cb f processed dedup w)
  unfolding no_groups
  place_order-Queued path territory bucket cb f processed true w =
      bind-Queued path (λ _. pure no_status)
        (wrapped "preprocess file error" (
          orders.place_storage_order processed.1 f.name bucket territory processed.0 orders.account
            f.size w))
        (λ _ v. inl refl)
  place_order-Queued path territory bucket cb f processed false w =
      bind-Queued path
        (λ _.
          modify (orders.enqueue (new_task orders shards tmp_dir path cb processed))
          >> pure (new_task orders shards tmp_dir path cb processed))
        (wrapped "preprocess file error" (
          orders.place_storage_order processed.1 f.name bucket territory processed.0 orders.account
            f.size w))
        (λ _ v. inr (record {
          before = v;
          queued = refl;
          file = refl;
          groups = (no_groups_lem shards).0;
          off_chain = (no_groups_lem shards).1;
        }))

  owned-Queued :
      (path territory bucket : Bytes) (cb : Bool) (f : FileStat)
      (processed : List SegmentDataInfo × Bytes) (owners : List Bytes) (w : W)
      → Queued path
          (order_unless_owned orders shards tmp_dir path territory bucket cb f processed owners w)
  owned-Queued path territory bucket cb f processed owners w =
      elim (Bool-cases (is_owner orders.account owners)) [
        | inl mine ↦ rw mine (inl refl)
        | inr new ↦ rw new (place_order-Queued path territory bucket cb f processed true w)
      ]

  processed-Queued :
      (path territory bucket : Bytes) (cb : Bool) (f : FileStat)
      (processed : List SegmentDataInfo × Bytes) (w : W)
      → Queued path (
          or_else
            (orders.owners processed.1)
            (order_unless_owned orders shards tmp_dir path territory bucket cb f processed)
            (place_order orders shards tmp_dir path territory bucket cb f processed false)
            w)
  processed-Queued path territory bucket cb f processed w =
      or_else-Queued path (orders.owners processed.1 w)
        (order_unless_owned orders shards tmp_dir path territory bucket cb f processed)
        (place_order orders shards tmp_dir path territory bucket cb f processed false)
        (owned-Queued path territory bucket cb f processed)
        (place_order-Queued path territory bucket cb f processed false)

  preprocess_file-Queued :
      (path cipher territory bucket : Bytes) (cb : Bool) (w : W)
      → Queued path (preprocess_file orders shards tmp_dir path cipher territory bucket cb w)
  unfolding preprocess_file
  preprocess_file-Queued path cipher territory bucket cb w =
      bind-Queued path after (wrapped "preprocess file error" (orders.stat path w)) after-Queued
    where
      process : FileStat → Action W UploadStats
      process f = do
        processed ← wrapping "preprocess file error" (orders.full_processing path cipher tmp_dir)
        or_else (orders.owners processed.1)
            (order_unless_owned orders shards tmp_dir path territory bucket cb f processed)
            (place_order orders shards tmp_dir path territory bucket cb f processed false)

      after : FileStat → Action W UploadStats
      after f = if f.is_dir || f.size == 0 then pure no_status else process f

      after-Queued : (f : FileStat) (v : W) → Queued path (after f v)
      after-Queued f v = elim (Bool-cases (f.is_dir || f.size == 0)) [
        | inl nothing ↦ rw nothing (inl refl)
        | inr regular ↦ rw regular (
            bind-Queued path
              (λ processed.
                or_else (orders.owners processed.1)
                  (order_unless_owned orders shards tmp_dir path territory bucket cb f processed)
                  (place_order orders shards tmp_dir path territory bucket cb f processed false))
              (wrapped "preprocess file error" (orders.full_processing path cipher tmp_dir v))
              (processed-Queued path territory bucket cb f))
      ]

  -- What `UploadFile` answers with: nothing, or the hash of a task in the queue.
  abbrev pub Uploaded : Bytes → Outcome Bytes × W → Type 0
  Uploaded path (ok hash, v) =
      hash ≢ [] → (st : UploadStats) × (st.file_hash ≡ hash) × InQueue path st v
  Uploaded path (err e, v) = Unit
  Uploaded path (panic, v) = Unit

  next-Uploaded :
      (path : Bytes) (r : Outcome UploadStats × W)
      → Queued path r
      → Uploaded path (next (λ st. pure st.file_hash) (wrapped "upload file error" r))
  next-Uploaded path (ok st, v) (inl none_made) = λ ne. absurd (ne none_made)
  next-Uploaded path (ok st, v) (inr q) = λ ne. (st, refl, q)
  next-Uploaded path (err e, v) h = tt
  next-Uploaded path (panic, v) h = tt

  -- If `UploadFile` answers with a hash that is not empty, then the last thing it did was to put into the
  -- queue a task with that hash, for the file's path, which has as many groups as a segment has fragments,
  -- none of them on chain.
  pub upload_file-Uploaded :
      (territory bucket path cipher : Bytes) (cb : Bool) (w : W)
      → Uploaded path (upload_file orders shards tmp_dir territory bucket path cipher cb w)
  unfolding upload_file
  upload_file-Uploaded territory bucket path cipher cb w =
      next-Uploaded path (preprocess_file orders shards tmp_dir path cipher territory bucket cb w)
        (preprocess_file-Queued path cipher territory bucket cb w)
