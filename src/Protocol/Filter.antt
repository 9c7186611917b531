-- ===== src/Protocol/Filter.antt =====
-- `SubscribeFilterLogs` (cd2n-lib/protocol/evm_client.go): the loop over a subscription.
use cess_dcdn_components.Base.{Bool, Bytes, List, Option, [], codes, if◌then◌else◌, none, some, ◌∷◌}

-- What the loop's `select` sees: a log, or the end of the subscription with its error, which may be
-- nil. The end of a list of events is the end of the context.
pub data Event : Type 0 where
  logged : Bytes → Event
  ended : Option Bytes → Event

-- The loop over the state `S` that the callback captures, until the callback answers false.
unfoldable pub filter_logs {ℓ} :
    {S : Type ℓ} → (Bytes → S → Bool × S) → List Event → S → Option Bytes × S
filter_logs callback [] s = (some (codes "timeout"), s)
filter_logs callback (ended e ∷ events) s = (e, s)
filter_logs callback (logged l ∷ events) s =
    let (loop, s') = callback l s in
    let rest = filter_logs callback events s' in if loop then rest else (none, s')
