-- ===== src/UserClient/DownloadTests.antt =====
-- Storage in memory, and the theorems about downloads at concrete inputs.
use cess_dcdn_components.UserClient.Downloads.Files.{download_file}
use cess_dcdn_components.UserClient.Downloads.Delivery.{Delivered, download_file-Delivered}
use cess_dcdn_components.UserClient.Downloads.{complete_segment}
use cess_dcdn_components.UserClient.Cachers.Query.{Selector}
use cess_dcdn_components.Transfer.Storage.{download_segment_from_storage, find_path, Sdk}
use cess_dcdn_components.Transfer.Requests.{Disk}
use cess_dcdn_components.UserClient.Downloads.Cleanup.{IsLog, Cleaned, complete_segment-Cleaned}
use cess_dcdn_components.Base.Text.{text_eq}
use cess_dcdn_components.Base.FilePath.{base, join}
use cess_dcdn_components.Base.{◌++◌, panic, Bytes, List, [], codes, err, ok, refl, ◌∷◌, ◌≡◌}

-- Storage that has every fragment, where a segment is restored from two.
abbrev small_sdk : Sdk (List Bytes)
small_sdk = record {
  query_file = λ h w. (
    ok (record {
      segments =
          record {
            hash = codes "s";
            fragments =
                record { hash = codes "x"; miner = codes "m" }
                ∷ record { hash = codes "y"; miner = codes "n" }
                ∷ [];
          }
          ∷ [];
      file_size = 4;
    }),
    w,
  );
  query_miner_items = λ m w. (ok m, w);
  read_data_action = λ peer name path w. (ok tt, w ++ (path ∷ []));
  rs_restore = λ path paths w. (ok tt, w);
  aes_cbc_decrypt = λ b key. ok b;
  beyond = λ n b. panic;
  data_shards = 2;
  segment_size = 4;
}

abbrev small_disk : Disk (List Bytes)
small_disk = record {
  create = λ p w. (ok tt, w);
  append_to = λ p b w. (ok tt, w);
  stat = λ p w. (ok tt, w);
  read_file = λ p w. (ok (codes "data"), w);
  remove = λ p w. w;
}

abbrev no_selector : Selector (List Bytes)
no_selector = record {
  peers_number = λ w. 0;
  new_peers_iterator = λ n w. (ok [], w);
  feedback = λ p b w. w;
  query_file_info = λ p r w. (err [], w);
  public_key = [];
  settle = λ r w. w;
}

-- The state is the log of what was fetched.
small-IsLog : IsLog small_sdk (λ w. w)
small-IsLog = record {
  query = λ h w. refl;
  miner = λ m w. refl;
  restore = λ p ps w. refl;
  read = λ peer name p w. refl;
}

complete_segment-Cleaned_example :
    Cleaned small_sdk small_disk no_selector
      (λ f s d c w. (ok [], w))
      (λ w. w)
      small-IsLog
      []
      (codes "d/s")
      (codes "d/x" ∷ [])
      (complete_segment small_sdk small_disk no_selector
        (λ f s d c w. (ok [], w))
        (codes "f")
        (codes "s")
        (codes "d")
        (codes "d/x" ∷ [])
        [])
unfolding join
complete_segment-Cleaned_example =
    complete_segment-Cleaned small_sdk small_disk no_selector (λ f s d c w. (ok [], w)) (λ w. w)
      small-IsLog (codes "f") (codes "s") (codes "d") (codes "d/x" ∷ []) []

-- What is written to the file is not kept.
download_file-Delivered_example :
    Delivered small_sdk small_disk no_selector
      (λ f s d c w. (ok [], w))
      (λ p b w. w)
      (codes "d")
      (codes "f")
      []
      (download_file small_sdk small_disk no_selector
        (λ f s d c w. (ok [], w))
        (λ p b w. w)
        (codes "d")
        (codes "f")
        []
        [])
download_file-Delivered_example =
    download_file-Delivered small_sdk small_disk no_selector (λ f s d c w. (ok [], w)) (λ p b w. w)
      (codes "d") (codes "f") [] []

-- No node has the segment; it comes from the storage.
download_file_run :
    (download_file small_sdk small_disk no_selector
      (λ f s d c w. (ok [], w))
      (λ p b w. w)
      (codes "d")
      (codes "f")
      []
      []).0
    ≡ ok (codes "d/f")
unfolding download_file join text_eq download_segment_from_storage find_path base
download_file_run = refl
