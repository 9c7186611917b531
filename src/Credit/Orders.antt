-- ===== src/Credit/Orders.antt =====
-- Paying for credit (`PaymentCreditBill`).
use cess_dcdn_components.Base.Decimal.{set_string}
use cess_dcdn_components.Base.Int.{add64, ℤ}
use cess_dcdn_components.Credit.{
  Credit, get_credit_record, level_of, payment_credit_bill, put_credit_record, units,
}
use cess_dcdn_components.Base.{arith, Bytes, codes, err, none, ok, some, ◌≡◌}

module _ {W : Type 0} (c : Credit W) where
  -- Once the order is created on chain, a price that is no number makes the payment fail: the order
  -- stands, and nothing is booked for it.
  pub payment_credit_bill_bad_price :
      (key node_id value : Bytes) (w w' : W) {order : Bytes × Bytes} {v : ℤ}
      → c.orders.create_credit_order key node_id value w ≡ (ok order, w')
      → set_string value ≡ some v
      → set_string c.price ≡ none
      → payment_credit_bill c key node_id value w
        ≡ (err (codes "payment credit bill error: bad order price"), w')
  unfolding payment_credit_bill
  payment_credit_bill_bad_price key node_id value w w' o ev ep = ground arith

  -- A payment books the units of the bill as sent, on the record as it was before the order, and
  -- answers with the order.
  pub payment_credit_bill_lem :
      (key node_id value : Bytes) (w w' : W) {order : Bytes × Bytes} {v p l : ℤ}
      → c.orders.create_credit_order key node_id value w ≡ (ok order, w')
      → set_string value ≡ some v
      → set_string c.price ≡ some p
      → level_of
          (add64 (get_credit_record c key w).0.sent_resource (units v p))
          (get_credit_record c key w).0.received_resource
        ≡ some l
      → let r = (get_credit_record c key w).0 in
        let r' = record r { level = l; sent_resource = add64 r.sent_resource (units v p) } in
        payment_credit_bill c key node_id value w ≡ (ok order, (put_credit_record c key r' w').1)
  unfolding payment_credit_bill
  payment_credit_bill_lem key node_id value w w' o ev ep el = ground arith
