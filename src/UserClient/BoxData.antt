-- ===== src/UserClient/BoxData.antt =====
-- A directory in memory and the box that is made of it.
-- Three files, of which the first two do not fit one fragment of 8 bytes.
use cess_dcdn_components.Base.Text.{text_eq}
use cess_dcdn_components.Base.FilePath.{join}
use cess_dcdn_components.UserClient.Box.Create.{IsSteady}
use cess_dcdn_components.UserClient.Box.{Entry, FileBox, Folder, create_a_file_box, set_last}
use cess_dcdn_components.Base.{
  Bytes, List, Outcome, [], codes, false, if◌then◌else◌, length, ok, panic, refl, ℕ, ◌++◌, ◌∷◌, ◌≡◌,
}

abbrev pub content_at : Bytes → Bytes
content_at p =
    if text_eq p (codes "d/a")
    then codes "hello"
    else if text_eq p (codes "d/b")
    then codes "worlds"
    else codes "end"

abbrev pub entry_of : Bytes → ℕ → Entry
entry_of name n = record { name = name; is_dir = false; info = ok n }

abbrev pub directory : List Entry
directory = entry_of (codes "a") 5 ∷ entry_of (codes "b") 6 ∷ entry_of (codes "c") 3 ∷ []

-- The state is the content of the box file.
abbrev pub memory_folder : Folder Bytes
memory_folder = record {
  read_dir = λ dir w. (ok directory, w);
  create = λ path w. (ok tt, []);
  write = λ path bytes w. (ok (length bytes), w ++ bytes);
  read_file = λ path w. (ok (content_at path), w);
  sync = λ path w. (ok tt, w);
}

pub memory-IsSteady :
    IsSteady memory_folder (join (codes "d" ∷ codes "box" ∷ [])) (λ w. w) content_at
memory-IsSteady = record {
  grown = λ bytes w. w ++ bytes;
  emptied = λ w. [];
  create = λ w. refl;
  write = λ bytes w. refl;
  read = λ p w ne. refl;
  sync = λ w. refl;
  written-emptied = λ w. refl;
  written-grown = λ bytes w. refl;
}

-- Slices never reach beyond the bytes read.
abbrev pub no_bytes : ℕ → Bytes → Outcome Bytes
no_bytes n bytes = panic

-- The first two files are each padded; the third stays in the open plate, which no plate records, and its
-- size is counted twice in the total and is the last index of the last plate.
abbrev pub box_made : FileBox
box_made = record {
  file_hash = [];
  total_size = 22;
  padding_size = 5;
  plates =
      record { segment_hash = []; files = codes "a" ∷ []; indexs = 0 ∷ 5 ∷ [] }
      ∷ record { segment_hash = []; files = codes "b" ∷ [] ∷ []; indexs = 0 ∷ 6 ∷ 3 ∷ [] }
      ∷ [];
}

create_run : create_a_file_box memory_folder 8 (codes "box") (codes "d") [] ≡ (
  ok (box_made, codes "d/box"),
  codes "hello" ++ (0 ∷ 0 ∷ 0 ∷ []) ++ codes "worlds" ++ (0 ∷ 0 ∷ []) ++ codes "end",
)
unfolding create_a_file_box text_eq join set_last
create_run = refl

abbrev pub box_image : Bytes
box_image = codes "hello" ++ (0 ∷ 0 ∷ 0 ∷ []) ++ codes "worlds" ++ (0 ∷ 0 ∷ []) ++ codes "end"
