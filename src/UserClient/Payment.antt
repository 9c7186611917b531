-- ===== src/UserClient/Payment.antt =====
-- The settlement of cache orders: `PaymentCacheOrder` (cd2n-client/client/client.go).
pub mod Bills
use mathlib.Core.Option
use cess_dcdn_components.Base.Decimal.{print, set_string}
use cess_dcdn_components.Transfer.Storage.{or_else}
use cess_dcdn_components.Base.Int.{i64_half, is_zero, ltb_ℤ, mul, neg_ℕ, negsuc, pos, ℤ}
use cess_dcdn_components.Credit.{Credit, payment_credit_bill}
use cess_dcdn_components.Types.{other, CacheInfo, CacheRequest, CacheResponse, fragment_size}
use cess_dcdn_components.Base.{
  Action, Bytes, List, Option, Outcome, [], if◌then◌else◌, is_nil, lift, none, pure, some, ◌+◌, ◌/◌,
  ◌==◌, ◌>>=◌, ◌>>◌, ◌||◌, ◌∷◌,
}

-- What is called besides the credit manager: the text of an account's address, `hex.DecodeString`,
-- `base58.Decode`, the signature of the hash of an order's id and the key of the account that signs,
-- and `QueryFileInfoFromCache`.
pub record Settler (W : Type 0) : Type 0 where
  pub address_text : Bytes → Bytes
  pub decode_hex : Bytes → Outcome Bytes
  pub decode_base58 : Bytes → Outcome Bytes
  pub sign_order : Bytes → Outcome Bytes
  pub public_key : Bytes
  pub query_file_info : Bytes → CacheRequest → Action W CacheResponse

-- `(-limit) / types.FragmentSize` for a limit that is not positive, as an `int64`: the least one is its
-- own opposite.
unfoldable pub debt_of : ℤ → ℤ
debt_of (pos n) = neg_ℕ (n / fragment_size)
debt_of (negsuc n) =
    if n + 1 == i64_half then neg_ℕ (i64_half / fragment_size) else pos ((n + 1) / fragment_size)

abbrev pub at_least_one : ℤ → ℤ
at_least_one d = if is_zero d then pos 1 else d

-- The value of the bill, where the price is a number.
unfoldable pub bill_of : CacheInfo → Option Bytes
unfolding debt_of
bill_of info =
    Option.map (λ p. print (mul p (at_least_one (debt_of info.credit_limit))))
      (set_string info.price)

module _ {W : Type 0} (c : Credit W) (s : Settler W) where
  abbrev pub order_request : Bytes → Bytes → CacheRequest
  order_request oid sign = record {
    option = other [];
    want_url = [];
    want_file = [];
    account_id = s.public_key;
    content = oid;
    sign = sign;
  }

  -- The lines after the payment: the node is told of the order.
  abbrev pub tell_order : Bytes → Bytes × Bytes → Action W (Unit {0})
  tell_order node_id (tx, order_id) = if is_nil order_id || is_nil tx then pure tt else (do
    oid ← lift (λ _. s.decode_hex order_id)
    bpid ← lift (λ _. s.decode_base58 node_id)
    sign ← lift (λ _. s.sign_order oid)
    s.query_file_info bpid (order_request oid sign)
    pure tt)

  -- One round of the loop, where an error goes on to the next; a round whose order was not paid does
  -- nothing more.
  unfoldable pub pay_cache_order : CacheResponse → Action W (Unit {0})
  unfolding bill_of payment_credit_bill
  pay_cache_order resp =
      if ltb_ℤ (pos 0) resp.info.credit_limit then pure tt else (elim (bill_of resp.info) [
        | none ↦ pure tt
        | some bill ↦ (do
          order ← payment_credit_bill c (s.address_text resp.info.account) resp.info.peer_id bill
          tell_order resp.info.peer_id order)
      ])

  -- `PaymentCacheOrder` over the responses that come from the queue until it is closed.
  unfoldable pub payment_cache_order : List CacheResponse → Action W (Unit {0})
  unfolding pay_cache_order
  payment_cache_order [] = pure tt
  payment_cache_order (r ∷ rs) =
      or_else (pay_cache_order r) (λ _. payment_cache_order rs) (payment_cache_order rs)
