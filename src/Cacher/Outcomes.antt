-- ===== src/Cacher/Outcomes.antt =====
-- How a handler may end: quietly, with an answer on its stream, or by a panic.
use cess_dcdn_components.Cacher.Service.{marshals, write, write_json_response}
use cess_dcdn_components.Cacher.{Reply, State, Stream, outside}
use cess_dcdn_components.Base.{
  Action, Bool-cases, Bytes, Option-cases, Outcome, [], arith, err, inl, inr, length, length-append,
  ok, panic, refl, true, ◌<◌, ◌>>=◌, ◌∙◌, ◌∷◌, ◌≡◌, ◌≢◌, ◌≤◌, ◌⊎◌,
}
use mathlib.Core.Path.{subst}

-- More was sent than before, or the stream was reset.
abbrev pub IsAnswered : Stream → Stream → Type 0
IsAnswered st st' = (length st.sent < length st'.sent) ⊎ (st'.was_reset ≡ true)

pub write-IsAnswered : (reply : Reply) (st : Stream) → IsAnswered st (write reply st)
write-IsAnswered reply st = elim (Option-cases st.broken) [
  | inl whole ↦ inl (ground (arith, length-append st.sent (reply ∷ [])))
  | inr (e, broken) ↦ inr (ground arith)
]

pub write_json_response-IsAnswered :
    (reply : Reply) (st : Stream) → IsAnswered st (write_json_response reply st)
write_json_response-IsAnswered reply st = elim (Bool-cases (marshals reply)) [
  | inl fine ↦ rw fine (write-IsAnswered reply st)
  | inr unfit ↦ rw unfit (inr refl)
]

pub IsAnswered-trans :
    (a b c : Stream)
    → IsAnswered a b
    → ((b.was_reset ≡ true → c.was_reset ≡ true) × (length b.sent ≤ length c.sent))
    → IsAnswered a c
IsAnswered-trans a b c (inl more) h = inl (omega arith)
IsAnswered-trans a b c (inr was) h = inr (h.0 was)

-- Nothing that was sent is taken back, and a reset stays.
abbrev pub Keeps : Stream → Stream → Type 0
Keeps b c = (b.was_reset ≡ true → c.was_reset ≡ true) × (length b.sent ≤ length c.sent)

pub write_json_response-Keeps :
    (reply : Reply) (st : Stream) → Keeps st (write_json_response reply st)
write_json_response-Keeps reply st = ground (arith, length-append st.sent (reply ∷ []))

module _ {W : Type 0} where
  -- A call that ends by a value or a panic, and leaves the stream alone.
  abbrev pub Quiet : {A : Type 0} → State W → Outcome A × State W → Type 0
  Quiet s (ok a, s') = s'.stream ≡ s.stream
  Quiet s (err e, s') = ⊥
  Quiet s (panic, s') = Unit

  -- A handler that ends by a panic, or has answered.
  abbrev pub Ends : State W → Outcome (Unit {0}) × State W → Type 0
  Ends s (ok u, s') = IsAnswered s.stream s'.stream
  Ends s (err e, s') = ⊥
  Ends s (panic, s') = Unit

  pub Quiet-bind :
      {A B : Type 0} (s : State W) (r : Outcome A × State W) (f : A → Action (State W) B)
      → Quiet s r
      → ((a : A) (s' : State W) → s'.stream ≡ s.stream → Quiet s (f a s'))
      → Quiet s (((λ (t : State W). r) >>= f) s)
  Quiet-bind s (ok a, s') f q h = h a s' q
  Quiet-bind s (err e, s') f q h = q
  Quiet-bind s (panic, s') f q h = tt

  pub Ends-bind :
      {A : Type 0} (s : State W) (r : Outcome A × State W) (f : A → Action (State W) (Unit {0}))
      → Quiet s r
      → ((a : A) (s' : State W) → s'.stream ≡ s.stream → Ends s (f a s'))
      → Ends s (((λ (t : State W). r) >>= f) s)
  Ends-bind s (ok a, s') f q h = h a s' q
  Ends-bind s (err e, s') f q h = q
  Ends-bind s (panic, s') f q h = tt

  pub outside-Quiet :
      {A : Type 0} (s : State W) (r : Outcome A × W)
      → ((e : Bytes) → r.0 ≢ err e)
      → Quiet s (outside (λ w. r) s)
  outside-Quiet s (ok a, w) h = refl
  outside-Quiet s (err e, w) h = h e refl
  outside-Quiet s (panic, w) h = tt

module _ {W : Type 0} where
  pub Quiet-from :
      {A : Type 0} (s s' : State W) (r : Outcome A × State W)
      → s'.stream ≡ s.stream
      → Quiet s' r
      → Quiet s r
  Quiet-from s s' (ok a, t) e q = q ∙ e
  Quiet-from s s' (err x, t) e q = q
  Quiet-from s s' (panic, t) e q = tt

  pub Ends-from :
      (s s' : State W) (r : Outcome (Unit {0}) × State W)
      → s'.stream ≡ s.stream
      → Ends s' r
      → Ends s r
  Ends-from s s' (ok u, t) e q = subst (λ st. IsAnswered st t.stream) e q
  Ends-from s s' (err x, t) e q = q
  Ends-from s s' (panic, t) e q = tt
