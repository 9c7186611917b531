-- ===== src/Credit/Limit.antt =====
-- `calcLimit` and the levels, against the integer difference of what was sent and received.
use cess_dcdn_components.Base.{
  ◌/◌, ◌==◌, ◌%◌, ◌+◌, ◌*◌, ℕ, ◌-◌, ◌≤◌, ◌<◌, ◌≡◌, true, false, some, arith, ltb, if◌then◌else◌,
}
use cess_dcdn_components.Base.Int.{
  div, ℤ, pos, negsuc, ◌+ℤ◌, ◌≤ℤ◌, u64_mod, i64_half, rem, signed64,
}
use cess_dcdn_components.Credit.{level_owner, units, RecordItem, calc_limit, level_of}

-- Of an account that received no more than it was sent, the debt is sent minus received: it is
-- limited exactly when the debt is over the limit, and the number is the distance between the two.
pub calc_limit_debt :
    (limit : ℕ) (r : RecordItem)
    → limit < u64_mod
    → r.sent_resource < u64_mod
    → r.received_resource ≤ r.sent_resource
    → let debt = r.sent_resource - r.received_resource in
      calc_limit limit r ≡ (if ltb limit debt then (debt - limit, true) else (limit - debt, false))
unfolding calc_limit
calc_limit_debt limit r hl hs hr = ground arith

-- An account that paid in more than it used is limited, unless the surplus comes within the limit of
-- 2 ^ 64: the unsigned difference wraps.
pub calc_limit_surplus :
    (limit : ℕ) (r : RecordItem)
    → r.received_resource < u64_mod
    → r.sent_resource < r.received_resource
    → limit < u64_mod
    → (calc_limit limit r).1 ≡ ltb limit (u64_mod - (r.received_resource - r.sent_resource))
unfolding calc_limit
calc_limit_surplus limit r hr h hl = ground arith

signed64-rem_bounds : (x : ℕ) → (negsuc 1 ≤ℤ rem (signed64 x) 3) × (rem (signed64 x) 3 ≤ℤ pos 2)
signed64-rem_bounds x = ground arith

-- A level lies between -1 and 3, and between 1 and 3 while less than 2 ^ 63 was sent.
pub level_of_bounds :
    (sent received : ℕ) {l : ℤ}
    → level_of sent received ≡ some l
    → (negsuc 0 ≤ℤ l) × (l ≤ℤ pos 3) × (sent < i64_half → pos 1 ≤ℤ l)
unfolding level_of ◌+ℤ◌
level_of_bounds sent received h = ground arith

-- An account that received nothing and was booked far beyond 2 ^ 63 gets the owner's level.
pub level_of_owner :
    (k : ℕ) → 3 * k + 1 ≤ i64_half → level_of (u64_mod - (3 * k + 1)) 0 ≡ some level_owner
unfolding level_of ◌+ℤ◌
level_of_owner k h = ground arith

-- A value and a price that are not negative, with a price whose low 64 bits are not all 0, buy the
-- quotient; a price of 0, or of a multiple of 2 ^ 64, buys one unit for each unit of value.
pub units_lem :
    (v p : ℕ) → v < u64_mod → units (pos v) (pos p) ≡ (if p % u64_mod == 0 then v else v / p)
unfolding units div
units_lem v p h = ground arith
