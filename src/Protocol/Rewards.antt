-- ===== src/Protocol/Rewards.antt =====
-- The loop of `ClaimWorkRewardServer`: one claim for each tick at which the chain is ahead.
use cess_dcdn_components.Protocol.Filter.{Event, filter_logs}
use Prim.Native.Nat.{min}
use cess_dcdn_components.Base.Int.{i64_half, int64, leb_ℤ, pos, ℤ, ◌+ℤ◌}
use cess_dcdn_components.Protocol.{
  TransactOpts, claimed, on_claim, CacheProtoContract, claim_ticks, claim_work_reward,
  query_currency_term,
}
use cess_dcdn_components.Base.{
  Action, List, Option, Outcome, [], codes, err, lift, next, none, some, wrapped, wrapping_ok, ◌-◌,
  ◌>>=◌, Bool-cases, ap, inl, inr, leb, refl, ◌∙◌, arith, Bytes, if◌then◌else◌, ok, panic, suc,
  zero, ℕ, ◌+◌, ◌<◌, ◌≡◌, ◌≢◌, ◌≤◌,
}

int64-leb : (t k : ℕ) → t < i64_half → leb_ℤ (int64 (pos t)) (pos k) ≡ leb t k
int64-leb t k h = ground arith

pos-suc : (k : ℕ) → pos k +ℤ pos 1 ≡ pos (suc k)
unfolding ◌+ℤ◌
pos-suc k = ground arith

module _ {W : Type 0} (pc : CacheProtoContract W) (acc : Bytes) where
  -- One tick, with the term answered and a claim that ends by a value or an error.
  claim_ticks_step :
      (ticks : ℕ) (term : ℤ) (v : ℤ) (w w1 : W)
      → query_currency_term pc w ≡ (ok v, w1)
      → (claim_work_reward pc acc w1).0 ≢ panic
      → claim_ticks pc acc (suc ticks) term w ≡ (
          if leb_ℤ (int64 v) term
          then claim_ticks pc acc ticks term w1
          else claim_ticks pc acc ticks (term +ℤ pos 1) (claim_work_reward pc acc w1).1)
  unfolding claim_ticks
  claim_ticks_step ticks term v w w1 q np = ground arith

  claim_ticks-zero : (term : ℤ) (w : W) → claim_ticks pc acc zero term w ≡ (ok term, w)
  unfolding claim_ticks
  claim_ticks-zero term w = refl

  -- The chain stays at the term `t`; a transaction can be made, and none panics; `sent` counts the calls
  -- that claim a reward.
  pub record IsClaiming (t : ℕ) (sent : W → ℕ) : Type 0 where
    pub term :
        (w : W) → (w' : W) × (pc.evm.get_currency_term w ≡ (ok (pos t), w')) × (sent w' ≡ sent w)
    pub option :
        (w : W)
        → (o : TransactOpts) × (w' : W) × (pc.new_option [] w ≡ (ok o, w')) × (sent w' ≡ sent w)
    pub claim :
        (o : TransactOpts) (w : W)
        → ((pc.evm.claim o w).0 ≢ panic) × (sent (pc.evm.claim o w).1 ≡ suc (sent w))
    pub events :
        (a : Bytes) (w : W)
        → ((pc.evm.events a w).0 ≢ panic) × (sent (pc.evm.events a w).1 ≡ sent w)

  -- An action that does not panic, after which `n` claims are counted.
  abbrev Sent : {A : Type 0} → (W → ℕ) → ℕ → Outcome A × W → Type 0
  Sent sent n (r, w) = (r ≢ panic) × (sent w ≡ n)

  wrapped-Sent :
      {A : Type 0} (sent : W → ℕ) (n : ℕ) (r : Outcome A × W)
      → Sent sent n r
      → Sent sent n (wrapped "claim work reward error" r)
  wrapped-Sent sent n (ok a, w) h = (λ e. cc, h.1)
  wrapped-Sent sent n (err e, w) h = (λ e. cc, h.1)
  wrapped-Sent sent n (panic, w) h = absurd (h.0 refl)

  next-Sent :
      {A B : Type 0} (sent : W → ℕ) (n : ℕ) (r : Outcome A × W) (f : A → Action W B)
      → Sent sent n r
      → ((a : A) (v : W) → sent v ≡ n → Sent sent n (f a v))
      → Sent sent n (next f r)
  next-Sent sent n (ok a, w) f h k = k a w h.1
  next-Sent sent n (err e, w) f h k = (λ e. cc, h.1)
  next-Sent sent n (panic, w) f h k = absurd (h.0 refl)

  claimed-Sent :
      (sent : W → ℕ) (n : ℕ) (r : Option Bytes × Bytes) (w : W)
      → sent w ≡ n
      → Sent sent n (claimed pc r, w)
  claimed-Sent sent n (none, b) w h = (λ e. cc, h)
  claimed-Sent sent n (some x, b) w h = (λ e. cc, h)

  claim_work_reward-Sent :
      (t : ℕ) (sent : W → ℕ) (h : IsClaiming t sent) (w : W)
      → Sent sent (suc (sent w)) (claim_work_reward pc acc w)
  unfolding claim_work_reward
  claim_work_reward-Sent t sent h w =
      let (o, w', made, same) = h.option w in
      wrapped-Sent sent (suc (sent w)) (next sending (pc.new_option [] w)) (
        rw made (
          next-Sent sent (suc (sent w)) (pc.evm.claim o w') (λ _. waiting)
            ((h.claim o w').0, (h.claim o w').1 ∙ ap suc same)
            (λ _ v e.
              next-Sent sent (suc (sent w)) (pc.evm.events pc.address v) answering
                ((h.events pc.address v).0, (h.events pc.address v).1 ∙ e)
                (λ es u e'. claimed-Sent sent (suc (sent w)) _ u e'))))
    where
      answering : List Event → Action W Bytes
      answering events = lift (λ _. claimed pc (filter_logs (on_claim pc acc) events (codes "0")))

      waiting : Action W Bytes
      waiting = pc.evm.events pc.address >>= answering

      sending : TransactOpts → Action W Bytes
      sending o = pc.evm.claim o >>= λ _. waiting

  -- While the chain stays at the term `t`, with every query answered and no call panicking, `n` ticks of
  -- the server that stands at the term `k` send one claim each until it stands at `t`, and then none:
  -- whether a claim succeeds does not matter.
  pub claim_ticks_lem :
      (t : ℕ) (sent : W → ℕ)
      → t < i64_half
      → IsClaiming t sent
      → (ticks k : ℕ) (w : W) → k ≤ t
      → ((claim_ticks pc acc ticks (pos k) w).0 ≡ ok (pos (min (k + ticks) t)))
        × (sent (claim_ticks pc acc ticks (pos k) w).1 ≡ sent w + (min (k + ticks) t - k))
  claim_ticks_lem t sent small h zero k w le =
      rw claim_ticks-zero (ap (λ n. ok (pos n)) (omega arith), omega arith)
  claim_ticks_lem t sent small h (suc ticks) k w le =
      let (w1, q, same) = h.term w in
      let (calm, one_more) = claim_work_reward-Sent t sent h w1 in
      rw
        (
          claim_ticks_step ticks (pos k) (pos t) w w1
              (wrapping_ok "query currency term error" pc.evm.get_currency_term q) calm,
          int64-leb t k small,
        )
        (elim (Bool-cases (leb t k)) [
          | inl there ↦
              let (r, n) = claim_ticks_lem t sent small h ticks k w1 le in
              rw there (r ∙ ap (λ n. ok (pos n)) (ground arith), ground (arith, n, same))
          | inr behind ↦
              let (r, n) =
                claim_ticks_lem t sent small h ticks (suc k) (claim_work_reward pc acc w1).1
                  (ground arith) in
              rw (behind, pos-suc k)
                (r ∙ ap (λ n. ok (pos n)) (omega arith), ground (arith, n, same, one_more))
        ])
