-- ===== src/Base/Text.antt =====
-- What the program uses of Go's `strings`, `path` and `path/filepath`, over the bytes of a text.
use cess_dcdn_components.Base.Tests.{Bool-cases, ltb, ◌==◌, if◌then◌else◌}
use cess_dcdn_components.Base.Effects.{Bytes}
use Prim.Native.Nat.{ℕ, ◌+◌, ◌/◌, ◌%◌}
use mathlib.Core.Path.{◌≡◌, refl}
use mathlib.Core.Logic.{inl, inr, ◌≢◌, ◌↔◌}
use mathlib.Core.Bool.{Bool, true, false, ◌&&◌, ◌||◌}
use mathlib.Core.List.{List, [], ◌∷◌, ◌++◌, reverse}
use native.Mathlib.Omega.{arith}

-- `a == b` on strings; `bytes.Equal`.
unfoldable pub text_eq : Bytes → Bytes → Bool
text_eq [] [] = true
text_eq [] (y ∷ ys) = false
text_eq (x ∷ xs) [] = false
text_eq (x ∷ xs) (y ∷ ys) = x == y && text_eq xs ys

pub text_eq_refl : (a : Bytes) → text_eq a a ≡ true
unfolding text_eq
text_eq_refl [] = refl
text_eq_refl (x ∷ xs) = ground (arith, text_eq_refl xs)

pub eq_of_text_eq : (a b : Bytes) → text_eq a b ≡ true → a ≡ b
unfolding text_eq
eq_of_text_eq [] [] h = refl
eq_of_text_eq [] (y ∷ ys) h = cc
eq_of_text_eq (x ∷ xs) [] h = cc
eq_of_text_eq (x ∷ xs) (y ∷ ys) h = ground (arith, eq_of_text_eq xs ys)

pub text_eq_iff : (a b : Bytes) → (text_eq a b ≡ true) ↔ (a ≡ b)
text_eq_iff a b = (eq_of_text_eq a b, λ e. rw e (text_eq_refl b))

-- `strings.HasPrefix(s, p)` and `strings.Contains(s, p)`.
unfoldable pub has_prefix : Bytes → Bytes → Bool
has_prefix s [] = true
has_prefix [] (y ∷ ys) = false
has_prefix (x ∷ xs) (y ∷ ys) = x == y && has_prefix xs ys

unfoldable pub contains : Bytes → Bytes → Bool
contains [] p = has_prefix [] p
contains (x ∷ xs) p = has_prefix (x ∷ xs) p || contains xs p

abbrev pub slash : ℕ
slash = b'/'

-- `strings.Split(s, sep)` for a separator of one byte: `field` holds the bytes of the field so far.
unfoldable pub split_from : ℕ → Bytes → Bytes → List Bytes
split_from sep field [] = field ∷ []
split_from sep field (c ∷ s) =
    let closed = field ∷ split_from sep [] s in
    let grown = split_from sep (field ++ (c ∷ [])) s in if c == sep then closed else grown

abbrev pub split : Bytes → List Bytes
split s = split_from slash [] s

-- `filepath.Split(s)`: all up to and including the last separator, and what follows it.
unfoldable pub split_last : Bytes → Bytes → Bytes × Bytes
split_last file [] = ([], file)
split_last file (c ∷ s) = if c == slash then (reverse (c ∷ s), file) else split_last (c ∷ file) s

unfoldable pub split_dir : Bytes → Bytes × Bytes
unfolding split_last
split_dir s = split_last [] (reverse s)

-- `hex.EncodeToString`
abbrev hex_digit : ℕ → ℕ
hex_digit d = if ltb d 10 then 48 + d else 87 + d

unfoldable pub hex : Bytes → Bytes
hex [] = []
hex (b ∷ bs) = hex_digit (b / 16) ∷ hex_digit (b % 16) ∷ hex bs

pub text_eq_ne : (a b : Bytes) → a ≢ b → text_eq a b ≡ false
text_eq_ne a b h = elim (Bool-cases (text_eq a b)) [
  | inl same ↦ absurd (h (eq_of_text_eq a b same))
  | inr differ ↦ differ
]
