-- ===== src/UserClient/Uploads/Gateway.antt =====
-- The upload by way of a gateway: `UploadFileToGateway` and `UploadDirToGateway`; `QueryFileSates`; and
-- the calls of the chain that only pass an answer on: `DeleteFile`, and those of bucket.go and space.go
-- (cd2n-client/client).
use cess_dcdn_components.UserClient.Box.{FileBox, Folder, create_a_file_box}
use cess_dcdn_components.Transfer.Storage.{or_else, or_else_err}
use cess_dcdn_components.Base.Text.{hex, split_dir}
use cess_dcdn_components.Base.FilePath.{dir, join}
use cess_dcdn_components.Base.{
  Option, Outcome, bind_ok, err, lift, none, ok, some, wrapping_ok, ◌∙◌, ◌≡◌, Action, Bytes, List,
  [], pure, wrapping, ℕ, ◌>>=◌, ◌>>◌, ◌∷◌,
}

-- `os.Mkdir`, `os.MkdirAll`, `os.RemoveAll`, `SplitFileWithstandardSize`, which answers with a size and a
-- number, `UploadFileChunks` with the mnemonic, and `sha256`.
pub record Gateway (W : Type 0) : Type 0 where
  pub mkdir : Bytes → Action W (Unit {0})
  pub mkdir_all : Bytes → Action W (Unit {0})
  pub remove_all : Bytes → Action W (Unit {0})
  pub split_file : Bytes → Bytes → Action W (ℕ × ℕ)
  pub upload_file_chunks : Bytes → Bytes → Bytes → Bytes → Bytes → Bytes → ℕ → ℕ → Action W Bytes
  pub sha256 : Bytes → Bytes

module _ {W : Type 0} (gate : Gateway W) (tmp_dir : Bytes) where
  abbrev chunks_dir : Bytes → Bytes
  chunks_dir path = join (tmp_dir ∷ hex (gate.sha256 path) ∷ [])

  -- `UploadFileToGateway`
  unfoldable pub upload_file_to_gateway : Bytes → Bytes → Bytes → Bytes → Bytes → Action W Bytes
  upload_file_to_gateway url territory bucket path cipher =
      wrapping "upload file to gateway error" (do
        gate.mkdir (chunks_dir path)
        counts ← gate.split_file path (chunks_dir path)
        tx ←
            gate.upload_file_chunks url (chunks_dir path) territory bucket (split_dir path).1 cipher
              counts.1 counts.0
        gate.remove_all (chunks_dir path)
        pure tx)

module _ {W : Type 0} (gate : Gateway W) (tmp_dir : Bytes) (folder : Folder W) (fragment_size : ℕ)
    (marshal_box : FileBox → Outcome Bytes) where
  -- `UploadDirToGateway`: the transaction, and the box as JSON. The chunks are left in their directory.
  unfoldable upload_dir_to_gateway :
      Bytes → Bytes → Bytes → Bytes → Bytes → Bytes → Action W (Bytes × Bytes)
  unfolding create_a_file_box
  upload_dir_to_gateway url territory bucket fname cipher dir =
      let chunks = join (tmp_dir ∷ fname ∷ []) in
      wrapping "upload dir to gateway error" (do
        made ← create_a_file_box folder fragment_size fname dir
        gate.mkdir_all chunks
        counts ← gate.split_file made.1 chunks
        tx ← gate.upload_file_chunks url chunks territory bucket fname cipher counts.1 counts.0
        bytes ← lift (λ _. marshal_box made.0)
        pure (tx, bytes))

-- What `QueryFileSates` writes as JSON: the entry of the metadata may be missing.
pub record FileStates (O M : Type 0) : Type 0 where
  pub order_info : O
  pub file_metadata : Option M

module _ {W O M : Type 0} (query_deal_map : Bytes → Action W O) (query_file : Bytes → Action W M)
    (marshal_states : FileStates O M → Outcome Bytes) where
  abbrev write_states : O → Option M → Action W Bytes
  write_states order meta =
      wrapping "query file states error"
        (lift (λ _. marshal_states (record { order_info = order; file_metadata = meta })))

  -- `QueryFileSates`
  unfoldable query_file_sates : Bytes → Action W Bytes
  query_file_sates fhash = do
    order ← wrapping "query file states error" (query_deal_map fhash)
    or_else (query_file fhash) (λ meta. write_states order (some meta)) (write_states order none)

  -- A file with an order that the chain has no metadata of yet: the order is written alone.
  query_file_sates_pending :
      (fhash : Bytes) (order : O) (e : Bytes) (w v u : W)
      → query_deal_map fhash w ≡ (ok order, v)
      → query_file fhash v ≡ (err e, u)
      → query_file_sates fhash w ≡ write_states order none u
  unfolding query_file_sates
  query_file_sates_pending fhash order e w v u deal file =
      bind_ok (wrapping "query file states error" (query_deal_map fhash))
        (λ order.
          or_else (query_file fhash) (λ meta. write_states order (some meta))
            (write_states order none))
        (wrapping_ok "query file states error" (query_deal_map fhash) deal)
      ∙ or_else_err (query_file fhash) (λ meta. write_states order (some meta))
          (write_states order none) file

-- The chain's calls, each for the account that signs; the types of a territory and of an order are the
-- SDK's.
pub record Chain (W T : Type 0) : Type 0 where
  pub delete_file : Bytes → Bytes → Action W Bytes
  pub create_bucket : Bytes → Bytes → Action W Bytes
  pub delete_bucket : Bytes → Bytes → Action W Bytes
  pub query_all_bucket_name : Bytes → Action W (List Bytes)
  pub query_bucket : Bytes → Bytes → Action W (List Bytes)
  pub query_user_fid_list : Bytes → Action W (List Bytes)
  pub query_territory : Bytes → Bytes → Action W T
  pub mint_territory : ℕ → Bytes → ℕ → Action W Bytes
  pub renewal_territory : Bytes → ℕ → Action W Bytes
  pub account : Bytes

module _ {W T : Type 0} (chain : Chain W T) where
  -- `DeleteFile`
  unfoldable pub delete_file : Bytes → Action W Bytes
  delete_file fhash = wrapping "delete files error" (chain.delete_file chain.account fhash)

  -- `CreateBucket`
  unfoldable pub create_bucket : Bytes → Action W Bytes
  create_bucket name = wrapping "create bucket error" (chain.create_bucket chain.account name)

  -- `DeleteBucket`
  unfoldable pub delete_bucket : Bytes → Action W Bytes
  delete_bucket name = wrapping "delete bucket error" (chain.delete_bucket chain.account name)

  -- `ListBuckets`
  unfoldable pub list_buckets : Action W (List Bytes)
  list_buckets = wrapping "list buckets error" (chain.query_all_bucket_name chain.account)

  -- `ListFilesInBucket`
  unfoldable pub list_files_in_bucket : Bytes → Action W (List Bytes)
  list_files_in_bucket name =
      wrapping "list files in bucket error" (chain.query_bucket chain.account name)

  -- `ListUserFiles`
  unfoldable pub list_user_files : Action W (List Bytes)
  list_user_files = wrapping "list user files error" (chain.query_user_fid_list chain.account)

  -- `QueryTerritoryInfo`
  unfoldable pub query_territory_info : Bytes → Action W T
  query_territory_info name =
      wrapping "query user space info error" (chain.query_territory chain.account name)

  -- `MintTerritory`
  unfoldable pub mint_territory : ℕ → ℕ → Bytes → Action W Bytes
  mint_territory gib_count days name =
      wrapping "buy space error" (chain.mint_territory gib_count name days)

  -- `RenewalTerritory`
  unfoldable pub renewal_territory : ℕ → Bytes → Action W Bytes
  renewal_territory day name = wrapping "renewal space error" (chain.renewal_territory name day)
