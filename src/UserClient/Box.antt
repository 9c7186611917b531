-- ===== src/UserClient/Box.antt =====
-- A directory as one file: `CreateAFileBox` and the readers of a file in a box
-- (cd2n-client/client/files.go, client.go).
pub mod Layout
pub mod Slots
pub mod Create
pub mod Room
pub mod Names
pub mod Sealed
pub mod Packs
pub mod Download
pub mod Readback
pub mod Roundtrip
use cess_dcdn_components.Types.{fragment_size}
use cess_dcdn_components.Base.FilePath.{dir, join}
use cess_dcdn_components.Base.Int.{add64, ltb_ℤ, signed64, sub64}
use cess_dcdn_components.Base.{
  Action, Bool, Bytes, List, Option, Outcome, [], codes, err, fail_if, if◌then◌else◌, length, lift,
  none, not, ok, panic, pure, some, suc, wrapping, zero, ℕ, ◌++◌, ◌==◌, ◌>>=◌, ◌>>◌, ◌||◌, ◌∷◌,
}

-- `FilePlate` and `FileBox`. Sizes are words of 64 bits.
pub record FilePlate : Type 0 where
  pub segment_hash : Bytes
  pub files : List Bytes
  pub indexs : List ℕ

pub record FileBox : Type 0 where
  pub file_hash : Bytes
  pub total_size : ℕ
  pub padding_size : ℕ
  pub plates : List FilePlate

-- What `os.ReadDir` gives of an entry, and what `Info` answers for its size.
pub record Entry : Type 0 where
  pub name : Bytes
  pub is_dir : Bool
  pub info : Outcome ℕ

-- The files of the system: `os.ReadDir`, `os.Create`, `f.Write`, which answers with a count of bytes,
-- `os.ReadFile` and `f.Sync`.
pub record Folder (W : Type 0) : Type 0 where
  pub read_dir : Bytes → Action W (List Entry)
  pub create : Bytes → Action W (Unit {0})
  pub write : Bytes → Bytes → Action W ℕ
  pub read_file : Bytes → Action W Bytes
  pub sync : Bytes → Action W (Unit {0})

-- The variables of the loop: the closed plates, the bytes of padding, the open plate, the bytes it holds,
-- and the bytes of all files.
pub record Filling : Type 0 where
  pub closed : List FilePlate
  pub padding : ℕ
  pub plate : FilePlate
  pub size : ℕ
  pub total : ℕ

abbrev pub empty_plate : FilePlate
empty_plate = record { segment_hash = []; files = []; indexs = [] }

abbrev pub no_filling : Filling
no_filling = record { closed = []; padding = 0; plate = empty_plate; size = 0; total = 0 }

-- `make([]byte, n)`
unfoldable pub zero_bytes : ℕ → Bytes
zero_bytes zero = []
zero_bytes (suc n) = 0 ∷ zero_bytes n

-- `a > b` for `int64` values.
abbrev pub above : ℕ → ℕ → Bool
above a b = ltb_ℤ (signed64 b) (signed64 a)

-- A list with its last element changed; an index of -1 panics.
unfoldable pub set_last : (FilePlate → FilePlate) → List FilePlate → Outcome (List FilePlate)
set_last f [] = panic
set_last f (p ∷ []) = ok (f p ∷ [])
set_last f (p ∷ q ∷ ps) = elim (set_last f (q ∷ ps)) [
  | ok rest ↦ ok (p ∷ rest)
  | err e ↦ err e
  | panic ↦ panic
]

abbrev pub seal_plate : ℕ → FilePlate → FilePlate
seal_plate size p = record p { files = p.files ++ ([] ∷ []); indexs = p.indexs ++ (size ∷ []) }

-- The lines after the loop; the named result has no file hash yet.
unfoldable pub finish : Filling → Outcome FileBox
finish s = elim (set_last (seal_plate s.size) s.closed) [
  | ok plates ↦ ok (record {
    file_hash = [];
    total_size = add64 (add64 s.total s.size) s.padding;
    padding_size = s.padding;
    plates = plates;
  })
  | err e ↦ err e
  | panic ↦ panic
]

abbrev pub is_full : ℕ → Filling → ℕ → Bool
is_full fragment_size s n = s.size == fragment_size || above (add64 n s.size) fragment_size

abbrev pub close : Filling → Filling
close s = record s { closed = s.closed ++ (s.plate ∷ []); plate = empty_plate; size = 0 }

abbrev pub append_file : Bytes → ℕ → Filling → Filling
append_file name n s = record s {
  plate = record s.plate {
    indexs = s.plate.indexs ++ (s.size ∷ []);
    files = s.plate.files ++ (name ∷ []);
  };
  size = add64 s.size n;
  total = add64 s.total n;
}

-- The size of an entry that is packed: directories, empty files and files without a size are not.
abbrev pub packed_size : Entry → Option ℕ
packed_size e =
    if e.is_dir
    then none
    else (elim e.info [ ok n ↦ if above n 0 then some n else none | err x ↦ none | panic ↦ none ])

module _ {W : Type 0} (folder : Folder W) (fragment_size : ℕ) where
  -- `writeData`
  unfoldable pub write_data_to : Bytes → Bytes → Action W (Unit {0})
  write_data_to path bytes = do
    n ← folder.write path bytes
    fail_if (not (n == length bytes)) (codes "written data is inconsistent")

  -- The open plate is padded to the size of a fragment, unless it is as long already.
  unfoldable pub pad : Bytes → Filling → Action W Filling
  unfolding write_data_to zero_bytes
  pad path s =
      let room = sub64 fragment_size s.size in
      if above room 0
      then (do
        write_data_to path (zero_bytes room)
        pure (record s {
          plate = record s.plate { indexs = s.plate.indexs ++ (s.size ∷ []) };
          padding = add64 s.padding room;
        }))
      else pure s

  abbrev pub make_room : Bytes → ℕ → Filling → Action W Filling
  make_room path n s =
      if is_full fragment_size s n then (do t ← pad path s; pure (close t)) else pure s

  -- The loop's body for a file of `n` bytes.
  unfoldable pub place : Bytes → Bytes → Bytes → ℕ → Filling → Action W Filling
  unfolding pad write_data_to
  place path dir name n s = do
    t ← make_room path n s
    bytes ← folder.read_file (join (dir ∷ name ∷ []))
    write_data_to path bytes
    pure (append_file name n t)

  unfoldable pub fill : Bytes → Bytes → List Entry → Filling → Action W Filling
  unfolding place
  fill path dir [] s = pure s
  fill path dir (e ∷ es) s = elim (packed_size e) [
    | none ↦ fill path dir es s
    | some n ↦ place path dir e.name n s >>= fill path dir es
  ]

  -- `CreateAFileBox`
  unfoldable pub create_a_file_box : Bytes → Bytes → Action W (FileBox × Bytes)
  unfolding fill finish
  create_a_file_box fname dir = do
    entries ← wrapping "create a file box error" (folder.read_dir dir)
    wrapping "create a file box error" (folder.create (join (dir ∷ fname ∷ [])))
    s ← wrapping "create a file box error" (fill (join (dir ∷ fname ∷ [])) dir entries no_filling)
    wrapping "create a file box error" (folder.sync (join (dir ∷ fname ∷ [])))
    box ← lift (λ _. finish s)
    pure (box, join (dir ∷ fname ∷ []))
