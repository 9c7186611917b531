-- ===== src/UserClient/Uploads/Owned.antt =====
-- The upload of a directory whose box the account has on the chain already.
use cess_dcdn_components.Transfer.Storage.{or_else_ok, or_else}
use cess_dcdn_components.UserClient.Uploads.{SegmentDataInfo, UploadStats}
use cess_dcdn_components.UserClient.Uploads.Preprocess.{
  compare_slice_lem, FileStat, Orders, describe_box, is_owner, no_status, order_unless_owned,
  place_order, preprocess_file, upload_dir_as_box_file,
}
use cess_dcdn_components.UserClient.Box.{FileBox, FilePlate, Folder, create_a_file_box}
use cess_dcdn_components.Base.{
  get_elem?, some, ◌<◌, Action, Bool, Bytes, List, [], arith, bind_ok, codes, err, false,
  if◌then◌else◌, length, ok, pure, refl, suc, true, wrapping, wrapping_ok, zero, ℕ, ◌==◌, ◌>>=◌,
  ◌||◌, ◌∙◌, ◌∷◌, ◌≡◌,
}

some_plate : (n : ℕ) → (0 == suc n) ≡ false
some_plate n = ground arith

module _ {W : Type 0} (orders : Orders W) (shards : ℕ) (tmp_dir : Bytes) where
  is_owner-at :
      (account : Bytes) (os : List Bytes) (k : ℕ)
      → get_elem? os k ≡ some account
      → is_owner account os ≡ true
  unfolding is_owner
  is_owner-at account [] k h = cc
  is_owner-at account (o ∷ os) zero h =
      let same : o ≡ account = cc in ground (arith, (compare_slice_lem o account).1 same)
  is_owner-at account (o ∷ os) (suc k) h = ground (arith, is_owner-at account os k h)

  -- The chain says that the account owns the regular file at `path`, as it is processed.
  pub record IsOwned (path cipher : Bytes) (w : W) : Type 0 where
    pub file : FileStat
    pub processed : List SegmentDataInfo × Bytes
    pub owners : List Bytes
    pub place : ℕ
    pub w1 : W
    pub w2 : W
    pub end : W
    pub stat : orders.stat path w ≡ (ok file, w1)
    pub regular : (file.is_dir ≡ false) × (0 < file.size)
    pub process : orders.full_processing path cipher tmp_dir w1 ≡ (ok processed, w2)
    pub ask : orders.owners processed.1 w2 ≡ (ok owners, end)
    pub own : get_elem? owners place ≡ some orders.account

  preprocess_file-owned :
      (path cipher territory bucket : Bytes) (cb : Bool) (w : W) (h : IsOwned path cipher w)
      → preprocess_file orders shards tmp_dir path cipher territory bucket cb w
        ≡ (ok no_status, h.end)
  unfolding preprocess_file
  preprocess_file-owned path cipher territory bucket cb w h =
      bind_ok (wrapping "preprocess file error" (orders.stat path))
        (λ f. if f.is_dir || f.size == 0 then pure no_status else process f)
        (wrapping_ok "preprocess file error" (orders.stat path) h.stat)
      ∙ rw regular_file (
          bind_ok (wrapping "preprocess file error" (orders.full_processing path cipher tmp_dir))
            (queue h.file)
            (wrapping_ok "preprocess file error" (orders.full_processing path cipher tmp_dir)
              h.process)
          ∙ or_else_ok (orders.owners h.processed.1)
              (order_unless_owned orders shards tmp_dir path territory bucket cb h.file h.processed)
              (place_order orders shards tmp_dir path territory bucket cb h.file h.processed false)
              h.ask
          ∙ rw (is_owner-at orders.account h.owners h.place h.own) refl)
    where
      queue : FileStat → List SegmentDataInfo × Bytes → Action W UploadStats
      queue f processed =
          or_else (orders.owners processed.1)
            (order_unless_owned orders shards tmp_dir path territory bucket cb f processed)
            (place_order orders shards tmp_dir path territory bucket cb f processed false)

      process : FileStat → Action W UploadStats
      process f = do
        processed ← wrapping "preprocess file error" (orders.full_processing path cipher tmp_dir)
        queue f processed

      regular_file : (h.file.is_dir || h.file.size == 0) ≡ false
      regular_file = ground (arith, h.regular)

  -- Where the box file is one that the account owns on the chain already, the upload of a directory
  -- fails, although its box is stored: nothing is ordered or queued, the status is empty and has no
  -- segments, and the box has a plate.
  pub upload_dir_as_box_file_known :
      (folder : Folder W) (F : ℕ) (territory bucket fname folder_path cipher path : Bytes)
      (box : FileBox) (p : FilePlate) (ps : List FilePlate) (w w1 : W)
      → create_a_file_box folder F fname folder_path w ≡ (ok (box, path), w1)
      → box.plates ≡ p ∷ ps
      → (h : IsOwned path cipher w1)
      → upload_dir_as_box_file orders shards tmp_dir folder F territory bucket fname folder_path
          cipher w
        ≡ (err (codes "upload dir error: the number of generated segments is inconsistent"), h.end)
  unfolding upload_dir_as_box_file
  upload_dir_as_box_file_known folder F territory bucket fname folder_path cipher path box p ps w w1
        c g h =
      bind_ok (wrapping "upload dir error" (create_a_file_box folder F fname folder_path)) uploading
        (wrapping_ok "upload dir error" (create_a_file_box folder F fname folder_path) c)
      ∙ bind_ok
          (wrapping "upload dir error"
            (preprocess_file orders shards tmp_dir path cipher territory bucket true))
          (describe_box orders shards tmp_dir box)
          (wrapping_ok "upload dir error"
            (preprocess_file orders shards tmp_dir path cipher territory bucket true)
            (preprocess_file-owned path cipher territory bucket true w1 h))
      ∙ rw (g, some_plate (length ps)) refl
    where
      uploading : FileBox × Bytes → Action W (Bytes × Bytes)
      uploading made = do
        status ←
            wrapping "upload dir error"
              (preprocess_file orders shards tmp_dir made.1 cipher territory bucket true)
        describe_box orders shards tmp_dir made.0 status
