-- ===== src/Credit/Records.antt =====
-- What the stored records say after each operation, over a lawful database and a faithful encoding.
-- The flag of `GetCreditRecord` reports a decoding error, so an account with a readable record is
-- never limited and never refused.
use cess_dcdn_components.Base.Int.{pos, negsuc, add64, ℤ}
use cess_dcdn_components.Base.{none, ok, panic, refl, some, suc, ◌≡◌, true, false, arith, Bytes}
use cess_dcdn_components.Store.{IsLawful}
use cess_dcdn_components.Credit.{
  booked, check_credit, is_limited, level_of, add_credit_point, moved, Credit, RecordItem,
  IsFaithful, get_credit_record, put_credit_record,
}

module _ {W : Type 0} (c : Credit W) (lawful : IsLawful c.db) (faithful : IsFaithful c.json) where
  -- A record that was stored is read back with the time of the write, and the flag is down.
  pub get_credit_record-put :
      (key : Bytes) (r : RecordItem) (w : W)
      → (put_credit_record c key r w).0 ≡ true
      → get_credit_record c key (put_credit_record c key r w).1
        ≡ (record r { last_access = c.now w }, false)
  unfolding get_credit_record put_credit_record
  get_credit_record-put key r w h = ground (
    arith,
    lawful.get-put_self w key (c.json.marshal (record r { last_access = c.now w })) h,
    faithful.unmarshal-marshal (record r { last_access = c.now w }),
    faithful.marshal_not_nil (record r { last_access = c.now w }),
  )

-- `AddCreditPoint`, as one equation: an overflowing divisor panics and stores nothing; otherwise the
-- moved amount and the new level are stored.
add_credit_point_lem :
    {W : Type 0} (c : Credit W) (key : Bytes) (x : ℤ) (w : W)
    → let r = booked c key x w in
      add_credit_point c key x w ≡ elim (level_of r.sent_resource r.received_resource) [
        | none ↦ (panic, w)
        | some l ↦ (ok tt, (put_credit_record c key (record r { level = l }) w).1)
      ]
unfolding add_credit_point
add_credit_point_lem c key x w = ground arith

module _ {W : Type 0} (c : Credit W) (lawful : IsLawful c.db) (faithful : IsFaithful c.json) where
  -- A booking that can be stored adds the amount to what was sent (a negative resource) or received
  -- (any other), modulo 2 ^ 64, leaves the other amount and the checked times alone, sets the level
  -- of the new amounts and the time of the write, and can be read back.
  pub get_credit_record-add_credit_point :
      (key : Bytes) (x : ℤ) (w : W) {l : ℤ}
      → level_of (booked c key x w).sent_resource (booked c key x w).received_resource ≡ some l
      → (put_credit_record c key (record (booked c key x w) { level = l }) w).0 ≡ true
      → let r = (get_credit_record c key w).0 in
        ((add_credit_point c key x w).0 ≡ ok tt)
        × (get_credit_record c key (add_credit_point c key x w).1 ≡ (
          record {
            level = l;
            sent_resource = elim x [
              | pos n ↦ r.sent_resource
              | negsuc n ↦ add64 r.sent_resource (suc n)
            ];
            received_resource = elim x [
              | pos n ↦ add64 r.received_resource n
              | negsuc n ↦ r.received_resource
            ];
            checked_times = r.checked_times;
            last_access = c.now w;
          },
          false,
        ))
  unfolding moved
  get_credit_record-add_credit_point key (pos n) w {l} e h =
      rw (add_credit_point_lem c key (pos n) w, e)
        (refl, get_credit_record-put c lawful faithful key _ w h)
  get_credit_record-add_credit_point key (negsuc n) w {l} e h =
      rw (add_credit_point_lem c key (negsuc n) w, e)
        (refl, get_credit_record-put c lawful faithful key _ w h)

  -- `IsLimited` reports the whole limit and no excess for an account whose record was just stored,
  -- whatever the amounts in it.
  pub is_limited-put :
      (key : Bytes) (r : RecordItem) (w : W)
      → (put_credit_record c key r w).0 ≡ true
      → (is_limited c key (put_credit_record c key r w).1).0 ≡ (c.resource_limit, false)
  unfolding is_limited
  is_limited-put key r w h = ground (arith, get_credit_record-put c lawful faithful key r w h)

  -- After any booking that was stored, `CheckCredit` lets the account go on, without a look at its
  -- amounts or at an order.
  pub check_credit-add_credit_point :
      (pubkey content sign key : Bytes) (x : ℤ) (w : W) {l : ℤ}
      → c.address_of pubkey ≡ ok key
      → level_of (booked c key x w).sent_resource (booked c key x w).received_resource ≡ some l
      → (put_credit_record c key (record (booked c key x w) { level = l }) w).0 ≡ true
      → (check_credit c pubkey content sign (add_credit_point c key x w).1).0 ≡ ok true
  unfolding check_credit
  check_credit-add_credit_point pubkey content sign key x w {l} a e h = ground (
    arith,
    add_credit_point_lem c key x w,
    get_credit_record-put c lawful faithful key (record (booked c key x w) { level = l }) w h,
  )
