-- ===== src/UserClient/Box/Download.antt =====
-- A file of a box: `DownloadFileInBox` and `DownloadFileInBoxFromGateway`
-- (cd2n-client/client/files.go).
use cess_dcdn_components.Transfer.Storage.{or_else}
use cess_dcdn_components.Base.FilePath.{join}
use cess_dcdn_components.UserClient.Box.Slots.{cut, find_slot, read_slot}
use cess_dcdn_components.UserClient.Box.{FileBox, FilePlate}
use cess_dcdn_components.Base.{
  Option, Action, Bool, Bytes, List, Outcome, [], codes, fail, fail_if, get_elem?, if◌then◌else◌,
  length, lift, none, not, ok, panic, pure, some, wrapping, ℕ, ◌==◌, ◌>>=◌, ◌>>◌, ◌∷◌,
}

-- What the downloads call: `DownloadSegment`, `QueryFile` for the hashes of the segments, `os.Stat` for
-- whether a path is a directory, `os.RemoveAll`, `RetrieveFile`, and `os.ReadFile`.
pub record Sources (W : Type 0) : Type 0 where
  pub segment_path : Bytes → Bytes → Bytes → Action W Bytes
  pub query_segments : Bytes → Action W (List Bytes)
  pub is_directory : Bytes → Action W Bool
  pub remove_all : Bytes → Action W (Unit {0})
  pub retrieve_file : Bytes → Bytes → Bytes → Bytes → Action W (Unit {0})
  pub read_file : Bytes → Action W Bytes

-- An index into a slice.
abbrev pub indexed : {A : Type 0} → Option A → Outcome A
indexed none = panic
indexed (some x) = ok x

abbrev pub at_index : {A : Type 0} → List A → ℕ → Outcome A
at_index xs i = indexed (get_elem? xs i)

module _ {W : Type 0} (src : Sources W) (beyond : ℕ → Bytes → Outcome Bytes) (tmp_dir : Bytes) where
  abbrev pub absent : Bytes
  absent = codes "data not found from box metadata"

  abbrev pub in_plate : Bytes → FilePlate → ℕ → Action W Bytes
  in_plate fhash p j = do
    spath ← wrapping "download file in box error" (src.segment_path fhash p.segment_hash tmp_dir)
    bytes ← wrapping "download file in box error" (src.read_file spath)
    lift (λ _. read_slot beyond j p bytes)

  abbrev pub in_slot : Bytes → FileBox → Option (ℕ × ℕ) → Action W Bytes
  in_slot fhash box none = wrapping "download file in box error" (fail absent)
  in_slot fhash box (some (i, j)) = lift (λ _. at_index box.plates i) >>= λ p. in_plate fhash p j

  -- `DownloadFileInBox`
  unfoldable pub download_file_in_box : Bytes → Bytes → FileBox → Action W Bytes
  unfolding find_slot cut
  download_file_in_box fhash name box = in_slot fhash box (find_slot name 0 box.plates none)

  -- `DownloadFileFromGateway`
  unfoldable pub download_file_from_gateway : Bytes → Bytes → Bytes → Bytes → Action W (Unit {0})
  download_file_from_gateway mnemonic url path fhash =
      wrapping "download file from gateway error" (src.retrieve_file url fhash mnemonic path)

  -- `if f, err := os.Stat(path); err == nil && f.IsDir() { err = os.RemoveAll(path) ... }`
  abbrev clear_directory : Bytes → Action W (Unit {0})
  clear_directory path =
      or_else (src.is_directory path)
        (λ yes.
          if yes
          then wrapping "download file in box from gateway error" (src.remove_all path)
          else pure tt)
        (pure tt)

  abbrev in_gateway_plate : Bytes → Bytes → FilePlate → Bytes → ℕ → Action W Bytes
  in_gateway_plate mnemonic url p shash j = do
    clear_directory (join (tmp_dir ∷ shash ∷ []))
    wrapping "download file in box error"
        (download_file_from_gateway mnemonic url (join (tmp_dir ∷ shash ∷ [])) shash)
    bytes ← wrapping "download file in box error" (src.read_file (join (tmp_dir ∷ shash ∷ [])))
    lift (λ _. read_slot beyond j p bytes)

  -- `DownloadFileInBoxFromGateway`
  unfoldable pub download_file_in_box_from_gateway :
      Bytes → Bytes → Bytes → Bytes → FileBox → Action W Bytes
  unfolding find_slot cut download_file_from_gateway
  download_file_in_box_from_gateway mnemonic url fhash name box =
      elim (find_slot name 0 box.plates none) [
        | none ↦ wrapping "download file in box from gateway error" (fail absent)
        | some (i, j) ↦ (do
          hashes ← wrapping "download file in box from gateway error" (src.query_segments fhash)
          wrapping "download file in box from gateway error" (
              fail_if (not (length hashes == length box.plates))
                (codes "the number of segments in box metadata is inconsistent"))
          shash ← lift (λ _. at_index hashes i)
          p ← lift (λ _. at_index box.plates i)
          in_gateway_plate mnemonic url p shash j)
      ]
