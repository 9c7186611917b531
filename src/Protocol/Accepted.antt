-- ===== src/Protocol/Accepted.antt =====
-- Which credit orders `CheckCreditOrder` accepts (cd2n-lib/protocol/cache_evm_proto.go).
use Prim.Native.String.{String}
use cess_dcdn_components.Base.Text.{eq_of_text_eq, text_eq}
use cess_dcdn_components.Base.Decimal.{print}
use cess_dcdn_components.Base.Int.{ltb_ℤ, pos, ℤ, ◌+ℤ◌}
use cess_dcdn_components.Protocol.{
  claimed, CacheProtoContract, Order, TransactOpts, check_credit_order, claim_order,
  query_cache_order, refused, settle_order,
}
use cess_dcdn_components.Base.{
  ◌++◌, Bool-cases, [], ap, arith, codes, crash, err, fail_if, false, if◌then◌else◌, inl, inr,
  length, lift, ltb, next, ok, panic, pure, refl, take, true, wrapped, ◌>>=◌, ◌∙◌, ◌≡◌, ◌≢◌, ◌≤◌,
  Action, Bytes, Outcome,
}

unwrapped :
    {W A : Type 0} (msg : String) (r : Outcome A × W) {a : A} {v : W}
    → wrapped msg r ≡ (ok a, v)
    → r ≡ (ok a, v)
unwrapped msg (ok x, w) h = h
unwrapped msg (err e, w) {a} h =
    let no : err (codes msg ++ (codes ": " ++ e)) ≡ ok a = ap (λ r. r.0) h in cc
unwrapped msg (panic, w) {a} h = let no : panic ≡ ok a = ap (λ r. r.0) h in cc

-- A call that answers after another, which then answered too.
bind_inv :
    {W A B : Type 0} (f : A → Action W B) (r : Outcome A × W) {b : B} {v : W}
    → next f r ≡ (ok b, v)
    → (a : A) × (w : W) × (r ≡ (ok a, w)) × (f a w ≡ (ok b, v))
bind_inv f (ok a, w) h = (a, w, refl, h)
bind_inv f (err e, w) {b} h = let no : err e ≡ ok b = ap (λ r. r.0) h in cc
bind_inv f (panic, w) {b} h = let no : panic ≡ ok b = ap (λ r. r.0) h in cc

module _ {W : Type 0} (pc : CacheProtoContract W) (pubkey content sign : Bytes) where
  -- The order with this ID is for the node itself and not more than 4 terms old, as the chain said, and
  -- the last call was a claim that succeeded.
  pub record IsClaimed (value : Bytes) (v : W) : Type 0 where
    pub unsigned : pc.evm.verify_signature pubkey (pc.evm.keccak content) sign ≡ false
    pub long : 32 ≤ length content
    pub order : Order
    pub asked : W
    pub answered : W
    pub found : pc.evm.order (take 32 content) asked ≡ (ok order, answered)
    pub mine : order.node ≡ pc.self
    pub term : ℤ
    pub now : W
    pub told : pc.evm.get_currency_term answered ≡ (ok term, now)
    pub fresh : ltb_ℤ (order.term +ℤ pos 4) term ≡ false
    pub opts : TransactOpts
    pub sending : W
    pub tx : Bytes
    pub claim : pc.evm.claim opts sending ≡ (ok tx, v)
    pub amount : value ≡ print order.value

  claim_order-ok :
      (id : Bytes) (u v : W) {x : Unit {0}}
      → claim_order pc id u ≡ (ok x, v)
      → (opts : TransactOpts) × (w : W) × (tx : Bytes) × (pc.evm.claim opts w ≡ (ok tx, v))
  unfolding claim_order
  claim_order-ok id u v {x} h =
      let (opts, w, made, rest) =
        bind_inv (λ o. pc.evm.claim o >>= λ _. pure tt) (pc.new_option [] u)
          (unwrapped "claim order error"
            (next (λ o. pc.evm.claim o >>= λ _. pure tt) (pc.new_option [] u)) h) in
      let (tx, w', sent, done) = bind_inv (λ _. pure tt) (pc.evm.claim opts w) rest in
      (opts, w, tx, sent ∙ ap (λ u. (ok tx, u)) (ap (λ r. r.1) done))

  settle_order-ok :
      (order : Order) (asked answered v : W) {value : Bytes}
      → pc.evm.verify_signature pubkey (pc.evm.keccak content) sign ≡ false
      → 32 ≤ length content
      → pc.evm.order (take 32 content) asked ≡ (ok order, answered)
      → settle_order pc (take 32 content) order answered ≡ (ok value, v)
      → value ≢ []
      → IsClaimed value v
  unfolding settle_order
  settle_order-ok order asked answered v {value} unsigned long found h ne =
      elim (Bool-cases (text_eq order.node pc.self)) [
        | inr other ↦
            let none_given : ok [] ≡ ok value = ap (λ r. r.0) (rw other at h) in absurd (ne cc)
        | inl mine ↦
            let (term, now, told, rest) =
              bind_inv deciding
                (wrapped "query currency term error" (pc.evm.get_currency_term answered))
                (rw mine at h) in
            decided mine term now
              (unwrapped "query currency term error" (pc.evm.get_currency_term answered) told) rest
      ]
    where
      deciding : ℤ → Action W Bytes
      deciding term =
          if ltb_ℤ (order.term +ℤ pos 4) term
          then lift (λ _. refused pc)
          else claim_order pc (take 32 content) >>= λ _. pure (print order.value)

      decided :
          text_eq order.node pc.self ≡ true
          → (term : ℤ) (now : W) → pc.evm.get_currency_term answered ≡ (ok term, now)
          → deciding term now ≡ (ok value, v)
          → IsClaimed value v
      decided mine term now told rest = elim (Bool-cases (ltb_ℤ (order.term +ℤ pos 4) term)) [
        | inl old ↦
            let none_given : ok [] ≡ ok value = ap (λ r. r.0) (rw old at rest) in absurd (ne cc)
        | inr fresh ↦
            let (u, w, claimed, printed) =
              bind_inv (λ _. pure (print order.value)) (claim_order pc (take 32 content) now)
                (rw fresh at rest) in
            let (opts, sending, tx, sent) = claim_order-ok (take 32 content) now w claimed in
            record {
              unsigned = unsigned;
              long = long;
              order = order;
              asked = asked;
              answered = answered;
              found = found;
              mine = eq_of_text_eq order.node pc.self mine;
              term = term;
              now = now;
              told = told;
              fresh = fresh;
              opts = opts;
              sending = sending;
              tx = tx;
              claim = sent ∙ ap (λ u. (ok tx, u)) (ap (λ r. r.1) printed);
              amount = let same : ok (print order.value) ≡ ok value = ap (λ r. r.0) printed in cc;
            }
      ]

  -- Whatever `CheckCreditOrder` is given: if it answers with a value that is not empty, then that is the
  -- value of the order on chain with the first 32 bytes as its ID, the order is for this node and at most
  -- 4 terms old, and a claim was sent and succeeded, after which nothing was called; and the signature
  -- did not verify.
  pub check_credit_order_sound :
      (w v : W) {value : Bytes}
      → check_credit_order pc pubkey content sign w ≡ (ok value, v)
      → value ≢ []
      → IsClaimed value v
  unfolding check_credit_order
  check_credit_order_sound w v {value} h ne =
      let (u1, w1, signed, h1) =
        bind_inv after_signature (checked w)
          (unwrapped "check credit order error" (next after_signature (checked w)) h) in
      let (u2, w2, long, h2) = bind_inv (λ _. settling) (measured w1) h1 in
      let (order, w3, asked, h3) =
        bind_inv (settle_order pc (take 32 content)) (query_cache_order pc (take 32 content) w2)
          h2 in
      settle_order-ok order w2 w3 v (unsigned w1 u1 signed) (long_enough w1 w2 u2 long)
        (unwrapped "query cache order info error" (pc.evm.order (take 32 content) w2) asked) h3 ne
    where
      checked : Action W (Unit {0})
      checked =
          fail_if (pc.evm.verify_signature pubkey (pc.evm.keccak content) sign)
            (codes "bad signature")

      measured : Action W (Unit {0})
      measured = if ltb (length content) 32 then crash else pure tt

      settling : Action W Bytes
      settling = query_cache_order pc (take 32 content) >>= settle_order pc (take 32 content)

      after_signature : Unit {0} → Action W Bytes
      after_signature _ = measured >>= λ _. settling

      unsigned :
          (w1 : W) (u : Unit {0})
          → checked w ≡ (ok u, w1)
          → pc.evm.verify_signature pubkey (pc.evm.keccak content) sign ≡ false
      unsigned w1 u e =
          elim (Bool-cases (pc.evm.verify_signature pubkey (pc.evm.keccak content) sign)) [
            | inl good ↦
                let no : err (codes "bad signature") ≡ ok u = ap (λ r. r.0) (rw good at e) in cc
            | inr bad ↦ bad
          ]

      long_enough : (w1 w2 : W) (u : Unit {0}) → measured w1 ≡ (ok u, w2) → 32 ≤ length content
      long_enough w1 w2 u e = elim (Bool-cases (ltb (length content) 32)) [
        | inl short ↦ let no : panic ≡ ok u = ap (λ r. r.0) (rw short at e) in cc
        | inr enough ↦ ground (arith, enough)
      ]
