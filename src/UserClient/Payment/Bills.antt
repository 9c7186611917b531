-- ===== src/UserClient/Payment/Bills.antt =====
-- What a bill comes to in the ledger of credit.
use cess_dcdn_components.Base.Decimal.{print, set_string, set_string-print}
use cess_dcdn_components.Credit.Orders.{payment_credit_bill_lem}
use native.Mathlib.Nat.{mul-div_cancel_left}
use cess_dcdn_components.Credit.{
  Credit, get_credit_record, level_of, payment_credit_bill, put_credit_record, units,
}
use cess_dcdn_components.Types.{CacheInfo, CacheResponse, fragment_size}
use cess_dcdn_components.Base.Int.{
  add64, int64, is_zero, ltb_ℤ, ℤ, div, i64_half, mul, neg_ℕ, pos, u64_mod,
}
use cess_dcdn_components.UserClient.Payment.{
  Settler, bill_of, pay_cache_order, tell_order, at_least_one, debt_of,
}
use cess_dcdn_components.Base.{
  Bytes, bind_ok, false, ok, some, arith, if◌then◌else◌, refl, suc, zero, ℕ, ◌*◌, ◌/◌, ◌<◌, ◌==◌,
  ◌≡◌,
}

-- The fragments that a debt of `n` bytes comes to, at least one.
abbrev pub billed : ℕ → ℕ
billed n = if n / fragment_size == 0 then 1 else n / fragment_size

debt_lem : (n : ℕ) → n < i64_half → at_least_one (debt_of (neg_ℕ n)) ≡ pos (billed n)
unfolding debt_of
debt_lem zero h = refl
debt_lem (suc n) h = ground arith

-- The value of a bill in the units of its own price is the number of fragments billed.
mul_pos : (p d : ℕ) → mul (pos p) (pos d) ≡ pos (p * d)
unfolding mul
mul_pos p d = ground arith

int64_small : (p : ℕ) → 0 < p → p < i64_half → is_zero (int64 (pos p)) ≡ false
int64_small p h l = ground arith

units_bill :
    (p d : ℕ) → 0 < p → p < i64_half → d < u64_mod → units (mul (pos p) (pos d)) (pos p) ≡ d
unfolding units div
units_bill p d h l k = rw (mul_pos p d, int64_small p h l, mul-div_cancel_left d h) (omega arith)

billed_small : (n : ℕ) → n < i64_half → billed n < u64_mod
billed_small n h = ground arith

bill_lem :
    (info : CacheInfo) (n p : ℕ)
    → n < i64_half
    → info.credit_limit ≡ neg_ℕ n
    → set_string info.price ≡ some (pos p)
    → bill_of info ≡ some (print (mul (pos p) (pos (billed n))))
unfolding bill_of
bill_lem info n p h e f = rw (e, f, debt_lem n h) refl

not_positive : (n : ℕ) → ltb_ℤ (pos 0) (neg_ℕ n) ≡ false
not_positive n = ground arith

module _ {W : Type 0} (c : Credit W) (s : Settler W) where
  -- If the price that the node quotes is the client's own, a positive number below 2 ^ 63, and the order
  -- is created on chain, then the settlement of an answer that shows a debt of `n` bytes books as many
  -- units as sent as `n` has fragments, at least one, modulo 2 ^ 64, and goes on to tell the node.
  pub pay_cache_order_books :
      (resp : CacheResponse) (n p : ℕ) (w w' : W) {order : Bytes × Bytes} {l : ℤ}
      → n < i64_half
      → resp.info.credit_limit ≡ neg_ℕ n
      → set_string resp.info.price ≡ some (pos p)
      → set_string c.price ≡ some (pos p)
      → 0 < p
      → p < i64_half
      → c.orders.create_credit_order
          (s.address_text resp.info.account)
          resp.info.peer_id
          (print (mul (pos p) (pos (billed n))))
          w
        ≡ (ok order, w')
      → level_of
          (add64
            (get_credit_record c (s.address_text resp.info.account) w).0.sent_resource
            (billed n))
          (get_credit_record c (s.address_text resp.info.account) w).0.received_resource
        ≡ some l
      → let r = (get_credit_record c (s.address_text resp.info.account) w).0 in
        let r' = record r { level = l; sent_resource = add64 r.sent_resource (billed n) } in
        pay_cache_order c s resp w
        ≡ tell_order c s resp.info.peer_id order
            (put_credit_record c (s.address_text resp.info.account) r' w').1
  unfolding pay_cache_order
  pay_cache_order_books resp n p w w' {order} {l} h e f g pp pl o el =
      rw (e, not_positive n, bill_lem resp.info n p h e f)
        (bind_ok
          (payment_credit_bill c (s.address_text resp.info.account) resp.info.peer_id
            (print (mul (pos p) (pos (billed n)))))
          (tell_order c s resp.info.peer_id) paid)
    where
      same : units (mul (pos p) (pos (billed n))) (pos p) ≡ billed n
      same = units_bill p (billed n) pp pl (billed_small n h)

      paid :
          let r = (get_credit_record c (s.address_text resp.info.account) w).0 in
          let r' = record r { level = l; sent_resource = add64 r.sent_resource (billed n) } in
          payment_credit_bill c
            (s.address_text resp.info.account)
            resp.info.peer_id
            (print (mul (pos p) (pos (billed n))))
            w
          ≡ (ok order, (put_credit_record c (s.address_text resp.info.account) r' w').1)
      paid = rw same at (
          payment_credit_bill_lem c (s.address_text resp.info.account) resp.info.peer_id
            (print (mul (pos p) (pos (billed n)))) w w' {l = l} o
            (set_string-print (mul (pos p) (pos (billed n)))) g (rw same el))
