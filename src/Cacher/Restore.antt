-- ===== src/Cacher/Restore.antt =====
-- The restart of the cache: `RestoreCacheFiles`.
use mathlib.Core.List.{reverse, reverse-append}
use cess_dcdn_components.Base.Text.{split}
use cess_dcdn_components.Base.FilePath.{base, join}
use cess_dcdn_components.Cacher.{CacheActor}
use cess_dcdn_components.Base.{
  arith, Bool, Bytes, List, Option, [], false, if◌then◌else◌, ltb, none, some, ℕ, ◌++◌, ◌==◌, ◌∷◌,
  ◌≡◌,
}

-- One call of the function that `filepath.Walk` runs: a file, with its size, or an error.
pub record WalkEntry : Type 0 where
  pub path : Bytes
  pub failure : Option Bytes
  pub is_dir : Bool
  pub size : ℕ

-- `filepath.Join(paths[l-1], paths[l-2], paths[l-3])`, if there are four elements.
abbrev pub last_three : List Bytes → Option Bytes
last_three (h ∷ s ∷ f ∷ d ∷ rest) = some (join (h ∷ s ∷ f ∷ []))
last_three _ = none

abbrev pub restored_key : ℕ → WalkEntry → Option Bytes
restored_key whole_size e =
    if e.size == whole_size
    then last_three (reverse (split e.path))
    else if ltb 0 e.size
    then some (base e.path)
    else none

module _ {W : Type 0} (c : CacheActor W) (whole_size : ℕ) where
  abbrev pub add_restored : Bytes → Option Bytes → W → W
  add_restored path none w = w
  add_restored path (some key) w = c.cache.add_cache_record key path w

  -- The function that is walked with.
  unfoldable pub restore_entry : WalkEntry → W → Option Bytes × W
  restore_entry e w = elim e.failure [
    | some x ↦ (some x, w)
    | none ↦
        if e.is_dir then (none, w) else (none, add_restored e.path (restored_key whole_size e) w)
  ]

  -- `RestoreCacheFiles`: the walk stops at the first error.
  unfoldable pub restore_cache_files : List WalkEntry → W → Option Bytes × W
  restore_cache_files [] w = (none, w)
  restore_cache_files (e ∷ es) w =
      let (stop, w') = restore_entry e w in
      elim stop [ some x ↦ (some x, w') | none ↦ restore_cache_files es w' ]

  -- A fragment that lies at `…/file/segment/fragment` is restored under the key
  -- `fragment/segment/file`, which is not the key that a download of it asks for.
  pub restore_entry_reverses :
      (e : WalkEntry) (folder file segment fragment : Bytes) (above : List Bytes) (w : W)
      → e.failure ≡ none
      → e.is_dir ≡ false
      → e.size ≡ whole_size
      → split e.path ≡ above ++ (folder ∷ file ∷ segment ∷ fragment ∷ [])
      → restore_entry e w
        ≡ (none, c.cache.add_cache_record (join (fragment ∷ segment ∷ file ∷ [])) e.path w)
  unfolding restore_entry
  restore_entry_reverses e folder file segment fragment above w sound is_file whole path =
      rw (sound, is_file, whole, path)
        (rw (reverse-append above (folder ∷ file ∷ segment ∷ fragment ∷ [])) (ground arith))
