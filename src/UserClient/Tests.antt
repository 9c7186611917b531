-- ===== src/UserClient/Tests.antt =====
-- The upload of a directory whose box is on the chain, at a concrete input.
use cess_dcdn_components.UserClient.BoxData.{box_image, box_made, memory_folder}
use cess_dcdn_components.UserClient.Uploads.Owned.{IsOwned, upload_dir_as_box_file_known}
use cess_dcdn_components.UserClient.Uploads.Preprocess.{
  Orders, compare_slice, is_owner, preprocess_file, upload_dir_as_box_file,
}
use cess_dcdn_components.Base.Text.{text_eq}
use cess_dcdn_components.Base.FilePath.{join}
use cess_dcdn_components.UserClient.Box.{set_last, create_a_file_box}
use cess_dcdn_components.Base.{err, ap, arith, ◌≡◌, Bytes, [], codes, false, ok, refl, ◌∷◌}

-- A chain on which the account owns every file.
abbrev owned_orders : Orders Bytes
owned_orders = record {
  stat = λ p w. (ok (record { name = p; is_dir = false; size = 3 }), w);
  full_processing = λ p c t w. (ok ([], codes "root"), w);
  owners = λ h w. (ok (codes "alice" ∷ []), w);
  place_storage_order = λ h n b t ss a z w. (ok (codes "tx"), w);
  account = codes "alice";
  enqueue = λ t w. w;
  marshal_box = λ b. ok (codes "box");
}

IsOwned-box : IsOwned owned_orders 2 (codes "tmp") (codes "d/box") [] box_image
IsOwned-box = record {
  file = record { name = codes "d/box"; is_dir = false; size = 3 };
  processed = ([], codes "root");
  owners = codes "alice" ∷ [];
  place = 0;
  w1 = box_image;
  w2 = box_image;
  end = box_image;
  stat = refl;
  regular = (refl, omega arith);
  process = refl;
  ask = refl;
  own = refl;
}

upload_dir_as_box_file_known_example :
    (upload_dir_as_box_file owned_orders 2
      (codes "tmp")
      memory_folder
      8
      (codes "t")
      (codes "b")
      (codes "box")
      (codes "d")
      []
      []).0
    ≡ err (codes "upload dir error: the number of generated segments is inconsistent")
unfolding create_a_file_box text_eq join set_last preprocess_file is_owner compare_slice
upload_dir_as_box_file_known_example =
    ap (λ r. r.0)
      (upload_dir_as_box_file_known owned_orders 2 (codes "tmp") memory_folder 8 (codes "t")
        (codes "b") (codes "box") (codes "d") [] (codes "d/box") box_made
        (record { segment_hash = []; files = codes "a" ∷ []; indexs = 0 ∷ 5 ∷ [] })
        (record { segment_hash = []; files = codes "b" ∷ [] ∷ []; indexs = 0 ∷ 6 ∷ 3 ∷ [] } ∷ []) []
        box_image refl refl IsOwned-box)
