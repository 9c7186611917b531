-- ===== src/Base/Effects.antt =====
-- How a Go call ends, and code that reads and writes a state: `(value, error)` results with the
-- error's text, and a panic, which no caller in the program recovers from.
use Prim.Native.Nat.{ℕ}
use Prim.Native.Char.{code}
use Prim.Native.String.{String}
use mathlib.Core.List.{List, [], ◌∷◌, ◌++◌}
use mathlib.Core.Option.{Option, none, some}
use mathlib.Core.Bool.{Bool, true, false}
use mathlib.Core.Path.{◌≡◌, ap, refl}
use mathlib.Core.Logic.{inl, inr, ◌⊎◌}

-- A Go string or byte slice: its bytes.
abbrev pub Bytes : Type 0
Bytes = List ℕ

abbrev pub codes : String → Bytes
codes String.[] = []
codes (String.◌∷◌ c s) = code c ∷ codes s

pub data Outcome {ℓ} (A : Type ℓ) : Type ℓ where
  ok : A → Outcome A
  err : Bytes → Outcome A
  panic : Outcome A

pub Outcome-cases {ℓ} :
    {A : Type ℓ} (o : Outcome A)
    → ((a : A) × (o ≡ ok a)) ⊎ (((e : Bytes) × (o ≡ err e)) ⊎ (o ≡ panic))
Outcome-cases (ok a) = inl (a, refl)
Outcome-cases (err e) = inr (inl (e, refl))
Outcome-cases panic = inr (inr refl)

-- A call over the state `W`; what was written before an error stays written.
abbrev pub Action : Type 0 → Type 0 → Type 0
Action W A = W → Outcome A × W

-- `errors.Wrap(err, msg)`: it returns nil when `err` is nil.
abbrev pub wrap : Option Bytes → String → Option Bytes
wrap none msg = none
wrap (some e) msg = some (codes msg ++ (codes ": " ++ e))

-- `return a, e`, as a caller that tests the error sees it.
abbrev pub returning : {A : Type 0} → A → Option Bytes → Outcome A
returning a none = ok a
returning a (some e) = err e

module _ {W A : Type 0} where
  abbrev pub pure : A → Action W A
  pure a w = (ok a, w)

  abbrev pub fail : Bytes → Action W A
  fail e w = (err e, w)

  abbrev pub crash : Action W A
  crash w = (panic, w)

  -- An external call that answers with a value or an error.
  abbrev pub lift : (W → Outcome A) → Action W A
  lift f w = (f w, w)

  -- `if err != nil { return errors.Wrap(err, msg) }` after the call.
  abbrev pub wrapping : String → Action W A → Action W A
  wrapping msg m w =
      let (r, w') = m w in
      (elim r [ ok a ↦ ok a | err e ↦ err (codes msg ++ (codes ": " ++ e)) | panic ↦ panic ], w')

infixl 5 ◌>>=◌ ◌>>◌
abbrev pub ◌>>=◌ : {W A B : Type 0} → Action W A → (A → Action W B) → Action W B
◌>>=◌ m f w =
    let (r, w') = m w in elim r [ ok a ↦ f a w' | err e ↦ (err e, w') | panic ↦ (panic, w') ]

abbrev pub ◌>>◌ : {W A B : Type 0} → Action W A → Action W B → Action W B
m >> k = m >>= λ _. k

abbrev pub get_state : {W : Type 0} → Action W W
get_state w = (ok w, w)

abbrev pub modify : {W : Type 0} → (W → W) → Action W (Unit {0})
modify f w = (ok tt, f w)

-- `if b { return errors.New(e) }`
abbrev pub fail_if : {W : Type 0} → Bool → Bytes → Action W (Unit {0})
fail_if true e w = (err e, w)
fail_if false e w = (ok tt, w)

-- The continuation of `>>=`.
abbrev pub next : {W A B : Type 0} → (A → Action W B) → Outcome A × W → Outcome B × W
next f r = elim r.0 [ ok a ↦ f a r.1 | err e ↦ (err e, r.1) | panic ↦ (panic, r.1) ]

-- A result with the message of `errors.Wrap`, as `wrapping` makes it.
abbrev pub wrapped : {W A : Type 0} → String → Outcome A × W → Outcome A × W
wrapped msg r = wrapping msg (λ _. r) r.1

-- A call after one that answered, and two calls after it.
pub bind_ok :
    {W A B : Type 0} (m : Action W A) (f : A → Action W B) {w w' : W} {a : A}
    → m w ≡ (ok a, w')
    → (m >>= f) w ≡ f a w'
bind_ok m f e = ap (next f) e

pub bind_after :
    {W A B D : Type 0} (m : Action W A) (f : A → Action W B) (g : B → Action W D) {w w' : W} {a : A}
    → m w ≡ (ok a, w')
    → (m >>= f >>= g) w ≡ (f a >>= g) w'
bind_after m f g e = ap (next g) (bind_ok m f e)

-- A call that answers does so under `errors.Wrap` too.
pub wrapping_ok :
    {W A : Type 0} (msg : String) (m : Action W A) {w w' : W} {a : A}
    → m w ≡ (ok a, w')
    → wrapping msg m w ≡ (ok a, w')
wrapping_ok msg m e = ap (wrapped msg) e
