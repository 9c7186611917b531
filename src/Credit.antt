-- ===== src/Credit.antt =====
-- The credit ledger of a cache node (cd2n-lib/credit/credit.go): what each account has sent and
-- received, kept in LevelDB as JSON, and the orders that pay for it.
pub mod Limit
pub mod Records
pub mod Orders
pub mod Memory
mod Tests
use cess_dcdn_components.Base.{
  ℕ, suc, ◌*◌, ◌/◌, ◌≡◌, ◌||◌, Bool, true, false, not, Option, none, some, ltb, ◌==◌, if◌then◌else◌,
  is_nil, is_some, Bytes, codes, Outcome, ok, err, panic, Action, pure, crash, lift, wrapping,
  ◌>>=◌, ◌>>◌, modify,
}
use cess_dcdn_components.Base.Int.{
  ℤ, pos, negsuc, ◌+ℤ◌, add64, sub64, signed64, rem, div, uint64, int64, is_zero,
}
use cess_dcdn_components.Base.Decimal.{set_string}
use cess_dcdn_components.Store.{Leveldb, found, not_found, failed}

-- `LEVEL_OWNER` to `LEVEL_UNTRUST`, and `DEFALUT_RESOURCE_LIMIT`.
abbrev pub level_owner : ℤ
level_owner = pos 0

abbrev pub level_common : ℤ
level_common = pos 2

abbrev pub level_untrust : ℕ
level_untrust = 3

abbrev pub default_resource_limit : ℕ
default_resource_limit = 4 * 8 * 1024 * 1024

-- The two `uint64` amounts are numbers below 2 ^ 64, and a time is a number.
pub record RecordItem : Type 0 where
  pub level : ℤ
  pub sent_resource : ℕ
  pub received_resource : ℕ
  pub checked_times : ℕ
  pub last_access : ℕ

-- Go's zero value.
abbrev pub no_record : RecordItem
no_record = record {
  level = pos 0;
  sent_resource = 0;
  received_resource = 0;
  checked_times = 0;
  last_access = 0;
}

-- `encoding/json` at `RecordItem`: `unmarshal` gives the record that it filled in, wholly or in part,
-- and its error.
pub record Json : Type 0 where
  pub marshal : RecordItem → Bytes
  pub unmarshal : Bytes → RecordItem × Option Bytes

-- What is encoded is not empty, and is decoded without an error.
pub record IsFaithful (json : Json) : Type 0 where
  pub unmarshal-marshal : (r : RecordItem) → json.unmarshal (json.marshal r) ≡ (r, none)
  pub marshal_not_nil : (r : RecordItem) → is_nil (json.marshal r) ≡ false

-- `protocol.Order2Credit`: to pay for credit on chain, and to redeem an order.
pub record Order2Credit (W : Type 0) : Type 0 where
  pub create_credit_order : Bytes → Bytes → Bytes → Action W (Bytes × Bytes)
  pub check_credit_order : Bytes → Bytes → Bytes → Action W Bytes

-- `struct Credit`, with what its methods call: the database, `encoding/json`, the clock, and
-- `crypto.DecompressPubkey` followed by `crypto.PubkeyToAddress(*pk).Hex()`.
pub record Credit (W : Type 0) : Type 0 where
  pub price : Bytes
  pub owner : Bytes
  pub resource_limit : ℕ
  pub db : Leveldb W
  pub json : Json
  pub orders : Order2Credit W
  pub now : W → ℕ
  pub address_of : Bytes → Outcome Bytes

-- `NewCreditManager`, from the database that `leveldb.OpenFile` answers with.
unfoldable pub new_credit_manager :
    {W : Type 0}
    → Bytes
    → Bytes
    → ℕ
    → Outcome (Leveldb W)
    → Json
    → Order2Credit W
    → (W → ℕ)
    → (Bytes → Outcome Bytes)
    → Action W (Credit W)
new_credit_manager owner price limit opened json orders now address_of = do
  db ← wrapping "new credit manager error" (lift (λ _. opened))
  pure (record {
    price = price;
    owner = owner;
    resource_limit = if limit == 0 then default_resource_limit else limit;
    db = db;
    json = json;
    orders = orders;
    now = now;
    address_of = address_of;
  })

-- `1 + int(sent/(received+1))%LEVEL_UNTRUST`; `received+1` wraps, and a division by 0 panics.
unfoldable pub level_of : ℕ → ℕ → Option ℤ
level_of sent received =
    if add64 received 1 == 0
    then none
    else some (pos 1 +ℤ rem (signed64 (sent / add64 received 1)) level_untrust)

-- The record with its level computed anew.
unfoldable pub with_level : {W : Type 0} → RecordItem → Action W RecordItem
unfolding level_of
with_level r = elim (level_of r.sent_resource r.received_resource) [
  | none ↦ crash
  | some l ↦ pure (record r { level = l })
]

-- `calcLimit`: the distance to the limit, and whether the account is beyond it.
unfoldable pub calc_limit : ℕ → RecordItem → ℕ × Bool
calc_limit limit r =
    if ltb limit (sub64 r.sent_resource r.received_resource)
    then (sub64 (sub64 r.sent_resource r.received_resource) limit, true)
    else if ltb r.received_resource r.sent_resource
    then (sub64 limit (sub64 r.sent_resource r.received_resource), false)
    else (sub64 r.received_resource (sub64 r.sent_resource limit), false)

-- The quotient of an order's value by the price, as resource units: a price whose low 64 bits are 0
-- counts as 1.
unfoldable pub units : ℤ → ℤ → ℕ
units v p = uint64 (div v (if is_zero (int64 p) then pos 1 else p))

module _ {W : Type 0} (c : Credit W) where
  -- `GetCreditRecord`: its flag is set where decoding the stored bytes fails.
  unfoldable pub get_credit_record : Bytes → W → RecordItem × Bool
  get_credit_record key w = elim (c.db.get w key) [
    | found res ↦
        if is_nil res
        then (no_record, false)
        else ((c.json.unmarshal res).0, is_some (c.json.unmarshal res).1)
    | not_found ↦ (no_record, false)
    | failed ↦ (no_record, false)
  ]

  -- `PutCreditRecord`: whether the write succeeded, and the state after it.
  unfoldable pub put_credit_record : Bytes → RecordItem → W → Bool × W
  put_credit_record key r w = c.db.put w key (c.json.marshal (record r { last_access = c.now w }))

  -- A call of `PutCreditRecord` whose error is dropped.
  abbrev pub save : Bytes → RecordItem → Action W (Unit {0})
  save key r = modify (λ w. (put_credit_record key r w).1)

  -- `AddCreditPoint`: a negative resource was sent, any other was received.
  unfoldable pub moved : ℤ → RecordItem → RecordItem
  moved (pos n) r = record r { received_resource = add64 r.received_resource n }
  moved (negsuc n) r = record r { sent_resource = add64 r.sent_resource (suc n) }

  -- What `AddCreditPoint` makes of the stored record, but for the level.
  abbrev pub booked : Bytes → ℤ → W → RecordItem
  booked key resource w = moved resource (get_credit_record key w).0

  unfoldable pub add_credit_point : Bytes → ℤ → Action W (Unit {0})
  unfolding moved with_level
  add_credit_point key resource w = (do r ← with_level (booked key resource w); save key r) w

  -- `IsLimited`
  unfoldable pub is_limited : Bytes → W → (ℕ × Bool) × W
  is_limited key w =
      let (r, known) = get_credit_record key w in
      if not known
      then ((c.resource_limit, false), (put_credit_record key r w).1)
      else (calc_limit c.resource_limit r, w)

  -- The second half of `CheckCredit`, from the text that the order check answers with.
  unfoldable pub redeem : Bytes → RecordItem → Bool → Outcome Bytes → Action W Bool
  unfolding with_level units
  redeem key r limited (err e) = pure (not limited)
  redeem key r limited panic = crash
  redeem key r limited (ok value) = elim (set_string value) [
    | none ↦ pure (not limited)
    | some v ↦ elim (set_string c.price) [
      | none ↦ pure (not limited)
      | some p ↦ do
        r' ← with_level (record r { received_resource = add64 r.received_resource (units v p) })
        save key r'
        pure (not (calc_limit c.resource_limit r').1)
    ]
  ]

  -- `CheckCredit`: whether the account may go on.
  unfoldable pub check_credit : Bytes → Bytes → Bytes → Action W Bool
  unfolding redeem
  check_credit pubkey content sign w = elim (c.address_of pubkey) [
    | err e ↦ (ok false, w)
    | panic ↦ (panic, w)
    | ok key ↦
        let (r, known) = get_credit_record key w in
        let limited = (calc_limit c.resource_limit r).1 in
        let ordered = c.orders.check_credit_order pubkey content sign w in
        if not known
        then (ok true, (put_credit_record key r w).1)
        else if is_nil content || is_nil sign
        then (ok (not limited), w)
        else redeem key r limited ordered.0 ordered.1
  ]

  -- `PaymentCreditBill`: pays for a bill on chain, and books the units as sent.
  unfoldable pub payment_credit_bill : Bytes → Bytes → Bytes → Action W (Bytes × Bytes)
  unfolding with_level units
  payment_credit_bill key node_id value w =
      (do
        let r = (get_credit_record key w).0
        order ←
            wrapping "payment credit bill error" (c.orders.create_credit_order key node_id value)
        v ← wrapping "payment credit bill error" (
            lift (λ _. elim (set_string value) [
              | none ↦ err (codes "bad order value")
              | some v ↦ ok v
            ]))
        p ← wrapping "payment credit bill error" (
            lift (λ _. elim (set_string c.price) [
              | none ↦ err (codes "bad order price")
              | some p ↦ ok p
            ]))
        r' ← with_level (record r { sent_resource = add64 r.sent_resource (units v p) })
        save key r'
        pure order)
        w
