-- ===== src/Base/FilePath.antt =====
-- Go's `path.Clean`, `path.Join`, `filepath.Base` and `filepath.Dir` on a Unix system.
use cess_dcdn_components.Base.Tests.{◌==◌, if◌then◌else◌}
use cess_dcdn_components.Base.Effects.{Bytes, codes}
use cess_dcdn_components.Base.Lists.{is_nil}
use cess_dcdn_components.Base.Text.{text_eq, split, split_from, slash, split_dir}
use mathlib.Core.Path.{◌≡◌, refl}
use mathlib.Core.Bool.{Bool, true, false, ◌||◌}
use mathlib.Core.List.{List, [], ◌∷◌, ◌++◌, reverse}

-- `strings.Join(elems, "/")`
unfoldable pub join_slash : List Bytes → Bytes
join_slash [] = []
join_slash (e ∷ []) = e
join_slash (e ∷ f ∷ es) = e ++ (slash ∷ join_slash (f ∷ es))

abbrev starts_slash : Bytes → Bool
starts_slash [] = false
starts_slash (c ∷ s) = c == slash

-- The elements kept so far, the last one first: `..` drops one where there is one to drop.
abbrev parent_of : Bool → List Bytes → List Bytes
parent_of rooted [] = if rooted then [] else codes ".." ∷ []
parent_of rooted (e ∷ es) = if text_eq e (codes "..") then codes ".." ∷ e ∷ es else es

clean_elems : Bool → List Bytes → List Bytes → List Bytes
clean_elems rooted kept [] = reverse kept
clean_elems rooted kept (e ∷ es) =
    clean_elems rooted
      (if is_nil e || text_eq e (codes ".")
        then kept
        else (if text_eq e (codes "..") then parent_of rooted kept else e ∷ kept))
      es

abbrev rooted_path : Bool → Bytes → Bytes
rooted_path true s = slash ∷ s
rooted_path false s = if is_nil s then codes "." else s

unfoldable pub clean : Bytes → Bytes
unfolding clean_elems join_slash split_from text_eq
clean s = rooted_path (starts_slash s) (join_slash (clean_elems (starts_slash s) [] (split s)))

-- `filepath.Join` and `path.Join`: leading empty elements are ignored.
unfoldable pub join : List Bytes → Bytes
unfolding clean
join [] = []
join (e ∷ es) = let rest = join es in if is_nil e then rest else clean (join_slash (e ∷ es))

strip_slashes : Bytes → Bytes
strip_slashes [] = []
strip_slashes (c ∷ s) = let rest = strip_slashes s in if c == slash then rest else c ∷ s

-- `filepath.Base`
unfoldable pub base : Bytes → Bytes
unfolding strip_slashes split_dir
base [] = codes "."
base (c ∷ s) =
    let file = (split_dir (reverse (strip_slashes (reverse (c ∷ s))))).1 in
    if is_nil file then codes "/" else file

-- `filepath.Dir`
unfoldable pub dir : Bytes → Bytes
unfolding clean split_dir
dir s = clean (split_dir s).0

clean_dots : clean (codes "a/./b//../c") ≡ codes "a/c"
unfolding clean
clean_dots = refl

join_escape : join (codes "a" ∷ codes ".." ∷ codes ".." ∷ codes "x" ∷ []) ≡ codes "../x"
unfolding join
join_escape = refl

base_url : base (codes "https://site.org/img/a.png") ≡ codes "a.png"
unfolding base
base_url = refl
