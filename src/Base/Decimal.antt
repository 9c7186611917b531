-- ===== src/Base/Decimal.antt =====
-- `big.Int.String` and `big.Int.SetString(s, 10)`.
use cess_dcdn_components.Base.Tests.{Bool-cases, ltb, leb, ◌==◌, if◌then◌else◌}
use cess_dcdn_components.Base.Effects.{codes, Bytes}
use cess_dcdn_components.Base.Int.{ℤ, pos, negsuc, neg_ℕ}
use Prim.Native.Nat.{ℕ, zero, suc, ◌+◌, ◌-◌, ◌*◌, ◌/◌, ◌%◌, ◌≤◌, ◌<◌}
use mathlib.Core.Path.{◌≡◌, refl}
use mathlib.Core.Logic.{inl, inr}
use mathlib.Core.Bool.{Bool, ◌&&◌}
use mathlib.Core.Option.{Option, none, some}
use mathlib.Core.Option
use mathlib.Core.List.{[], ◌∷◌}
use native.Mathlib.Omega.{arith}

-- The digits of `n` in front of `rest`; the fuel is a bound on their number.
print_from : ℕ → ℕ → Bytes → Bytes
print_from zero n rest = rest
print_from (suc f) n rest =
    let more = print_from f (n / 10) ((48 + n % 10) ∷ rest) in
    if ltb n 10 then (48 + n) ∷ rest else more

abbrev print_ℕ : ℕ → Bytes
print_ℕ n = print_from (n + 1) n []

unfoldable pub print : ℤ → Bytes
unfolding print_from
print (pos n) = print_ℕ n
print (negsuc n) = b'-' ∷ print_ℕ (n + 1)

abbrev is_digit : ℕ → Bool
is_digit c = leb b'0' c && leb c b'9'

parse_from : ℕ → Bytes → Option ℕ
parse_from acc [] = some acc
parse_from acc (c ∷ s) =
    let more = parse_from (acc * 10 + (c - 48)) s in if is_digit c then more else none

-- At least one digit is wanted.
parse_ℕ : Bytes → Option ℕ
unfolding parse_from
parse_ℕ [] = none
parse_ℕ (c ∷ s) = parse_from 0 (c ∷ s)

unfoldable pub set_string : Bytes → Option ℤ
unfolding parse_ℕ
set_string [] = none
set_string (c ∷ s) =
    if c == b'-'
    then Option.map neg_ℕ (parse_ℕ s)
    else if c == b'+'
    then Option.map pos (parse_ℕ s)
    else Option.map pos (parse_ℕ (c ∷ s))

parse_from-print_from :
    (f n : ℕ) (rest : Bytes) → n < f → parse_from 0 (print_from f n rest) ≡ parse_from n rest
unfolding parse_from print_from
parse_from-print_from zero n rest h = elim h [ ]
parse_from-print_from (suc f) n rest h =
    ground (arith, parse_from-print_from f (n / 10) ((48 + n % 10) ∷ rest))

-- A printed number begins with a digit, so it is not empty and has no sign.
print_from_head :
    (f n : ℕ) (rest : Bytes)
    → n < f
    → (c : ℕ) × (s : Bytes) × (print_from f n rest ≡ c ∷ s) × (48 ≤ c)
unfolding print_from
print_from_head zero n rest h = elim h [ ]
print_from_head (suc f) n rest h = elim (Bool-cases (ltb n 10)) [
  | inl small ↦ (48 + n, rest, rw small, omega arith)
  | inr large ↦
      let (c, s, e, d) = print_from_head f (n / 10) ((48 + n % 10) ∷ rest) (ground arith) in
      (c, s, rw large e, d)
]

parse_ℕ-print_ℕ : (n : ℕ) → parse_ℕ (print_ℕ n) ≡ some n
unfolding parse_ℕ
parse_ℕ-print_ℕ n =
    let (c, s, e, d) = print_from_head (n + 1) n [] (omega arith) in
    ground (arith, e, parse_from-print_from (n + 1) n [] (omega arith))

set_string-digits :
    (c : ℕ) (s : Bytes) → 48 ≤ c → set_string (c ∷ s) ≡ Option.map pos (parse_ℕ (c ∷ s))
unfolding set_string
set_string-digits c s d = ground arith

set_string-print_pos : (n : ℕ) → set_string (print_ℕ n) ≡ some (pos n)
set_string-print_pos n =
    let (c, s, e, d) = print_from_head (n + 1) n [] (omega arith) in
    rw (e, set_string-digits c s d, ← e, parse_ℕ-print_ℕ n)

-- A number that is printed in base ten is read back.
pub set_string-print : (v : ℤ) → set_string (print v) ≡ some v
unfolding print set_string
set_string-print (pos n) = set_string-print_pos n
set_string-print (negsuc n) = rw (parse_ℕ-print_ℕ (n + 1)) (ground arith)

print_example : print (negsuc 1203) ≡ codes "-1204"
unfolding print
print_example = refl
