-- ===== src/UserClient/Uploads/Preprocess.antt =====
-- How a file comes into the queue: `PreprocessFileAndPutIntoUploadQueue`, `UploadFile`,
-- `UploadDirAsBoxFile`, and the simple calls of the chain and of a gateway
-- (cd2n-client/client/files.go).
use cess_dcdn_components.Transfer.Storage.{or_else}
use cess_dcdn_components.Base.FilePath.{dir}
use cess_dcdn_components.UserClient.Uploads.{SegmentDataInfo, UploadGroup, UploadStats}
use cess_dcdn_components.UserClient.Box.{FileBox, FilePlate, Folder, create_a_file_box}
use cess_dcdn_components.Base.{
  Action, List, Outcome, ap, codes, fail_if, lift, modify, pure, suc, wrapping, zero, ℕ, ◌>>=◌,
  ◌>>◌, ◌||◌, Bool, Bool-cases, Bytes, [], arith, false, if◌then◌else◌, inl, inr, length, not, refl,
  true, ◌==◌, ◌↔◌, ◌∷◌, ◌≡◌,
}

-- `CompareSlice`: the loop over the positions of two slices of one length.
unfoldable pub compare_from : Bytes → Bytes → Bool
compare_from [] s2 = true
compare_from (x ∷ s1) [] = true
compare_from (x ∷ s1) (y ∷ s2) =
    let rest = compare_from s1 s2 in if not (x == y) then false else rest

unfoldable pub compare_slice : Bytes → Bytes → Bool
unfolding compare_from
compare_slice s1 s2 = if not (length s1 == length s2) then false else compare_from s1 s2

compare_from_lem : (s1 s2 : Bytes) → length s1 ≡ length s2 → (compare_from s1 s2 ≡ true) ↔ (s1 ≡ s2)
unfolding compare_from
compare_from_lem [] [] h = (λ e. refl, λ e. refl)
compare_from_lem [] (y ∷ s2) h = absurd (omega (arith, h))
compare_from_lem (x ∷ s1) [] h = absurd (omega (arith, h))
compare_from_lem (x ∷ s1) (y ∷ s2) h =
    let (f, g) = compare_from_lem s1 s2 (omega (arith, h)) in ground (arith, f, g)

-- `CompareSlice` answers whether two slices are equal.
pub compare_slice_lem : (s1 s2 : Bytes) → (compare_slice s1 s2 ≡ true) ↔ (s1 ≡ s2)
unfolding compare_slice
compare_slice_lem s1 s2 = elim (Bool-cases (length s1 == length s2)) [
  | inl same ↦ rw same (compare_from_lem s1 s2 (ground (arith, same)))
  | inr differ ↦ rw differ ((λ e. cc), λ e. ground (arith, ap length e, differ))
]

-- `fs.FileInfo`
pub record FileStat : Type 0 where
  pub name : Bytes
  pub is_dir : Bool
  pub size : ℕ

-- `os.Stat`, `process.FullProcessing`, the owners of a file on the chain, `PlaceStorageOrder`, the
-- account that signs, the queue of uploads, while it has room, and `json.Marshal` of a box.
pub record Orders (W : Type 0) : Type 0 where
  pub stat : Bytes → Action W FileStat
  pub full_processing : Bytes → Bytes → Bytes → Action W (List SegmentDataInfo × Bytes)
  pub owners : Bytes → Action W (List Bytes)
  pub place_storage_order :
      Bytes → Bytes → Bytes → Bytes → List SegmentDataInfo → Bytes → ℕ → Action W Bytes
  pub account : Bytes
  pub enqueue : UploadStats → W → W
  pub marshal_box : FileBox → Outcome Bytes

abbrev pub no_status : UploadStats
no_status = record {
  file_hash = [];
  file_path = [];
  has_call_back = false;
  segment_info = [];
  group = [];
}

abbrev pub no_group : UploadGroup
no_group = record { miner_id = []; peer_id = []; saved = false; on_chain = false; flush_time = 0 }

-- `make([]UploadGroup, n)`
unfoldable pub no_groups : ℕ → List UploadGroup
no_groups zero = []
no_groups (suc n) = no_group ∷ no_groups n

unfoldable pub is_owner : Bytes → List Bytes → Bool
unfolding compare_slice
is_owner account [] = false
is_owner account (o ∷ os) = compare_slice o account || is_owner account os

-- The hashes of the segments, in the plates; there are as many of both.
unfoldable pub with_hashes : List SegmentDataInfo → List FilePlate → List FilePlate
with_hashes [] ps = ps
with_hashes (s ∷ ss) [] = []
with_hashes (s ∷ ss) (p ∷ ps) = record p { segment_hash = s.segment_hash } ∷ with_hashes ss ps

module _ {W : Type 0} (orders : Orders W) (shards : ℕ) (tmp_dir : Bytes) where
  abbrev pub new_task : Bytes → Bool → List SegmentDataInfo × Bytes → UploadStats
  new_task path has_call_back processed = record {
    file_hash = processed.1;
    file_path = path;
    has_call_back = has_call_back;
    segment_info = processed.0;
    group = no_groups shards;
  }

  -- The lines from `PlaceStorageOrder` on.
  abbrev pub place_order :
      Bytes
      → Bytes
      → Bytes
      → Bool
      → FileStat
      → List SegmentDataInfo × Bytes
      → Bool
      → Action W UploadStats
  place_order path territory bucket has_call_back f processed deduplication = do
    wrapping "preprocess file error" (
        orders.place_storage_order processed.1 f.name bucket territory processed.0 orders.account
          f.size)
    (if deduplication
        then pure no_status
        else modify (orders.enqueue (new_task path has_call_back processed))
          >> pure (new_task path has_call_back processed))

  abbrev pub order_unless_owned :
      Bytes
      → Bytes
      → Bytes
      → Bool
      → FileStat
      → List SegmentDataInfo × Bytes
      → List Bytes
      → Action W UploadStats
  order_unless_owned path territory bucket has_call_back f processed owners =
      if is_owner orders.account owners
      then pure no_status
      else place_order path territory bucket has_call_back f processed true

  -- `PreprocessFileAndPutIntoUploadQueue`: `errors.Wrap` of no error is none, so a directory or an empty
  -- file gives an empty status.
  unfoldable pub preprocess_file : Bytes → Bytes → Bytes → Bytes → Bool → Action W UploadStats
  unfolding is_owner no_groups
  preprocess_file path cipher territory bucket has_call_back = do
    f ← wrapping "preprocess file error" (orders.stat path)
    (if f.is_dir || f.size == 0 then pure no_status else (do
      processed ← wrapping "preprocess file error" (orders.full_processing path cipher tmp_dir)
      or_else (orders.owners processed.1)
          (order_unless_owned path territory bucket has_call_back f processed)
          (place_order path territory bucket has_call_back f processed false)))

  -- `UploadFile`
  unfoldable pub upload_file : Bytes → Bytes → Bytes → Bytes → Bool → Action W Bytes
  unfolding preprocess_file
  upload_file territory bucket path cipher has_call_back = do
    status ←
        wrapping "upload file error" (preprocess_file path cipher territory bucket has_call_back)
    pure status.file_hash

  -- The lines of `UploadDirAsBoxFile` after the file is queued.
  abbrev pub describe_box : FileBox → UploadStats → Action W (Bytes × Bytes)
  describe_box box status = do
    wrapping "upload dir error" (
        fail_if (not (length status.segment_info == length box.plates))
          (codes "the number of generated segments is inconsistent"))
    bytes ← wrapping "upload dir error" (
        lift (λ _.
          orders.marshal_box (record box { plates = with_hashes status.segment_info box.plates })))
    pure (status.file_hash, bytes)

  module _ (folder : Folder W) (fragment_size : ℕ) where
    -- `UploadDirAsBoxFile`
    unfoldable pub upload_dir_as_box_file :
        Bytes → Bytes → Bytes → Bytes → Bytes → Action W (Bytes × Bytes)
    unfolding preprocess_file create_a_file_box with_hashes
    upload_dir_as_box_file territory bucket fname dir cipher = do
      made ← wrapping "upload dir error" (create_a_file_box folder fragment_size fname dir)
      status ← wrapping "upload dir error" (preprocess_file made.1 cipher territory bucket true)
      describe_box made.0 status
