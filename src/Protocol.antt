-- ===== src/Protocol.antt =====
-- The cache protocol contract on an EVM chain (cd2n-lib/protocol/cache_evm_proto.go). The generated
-- bindings of the contract, the node behind them, base58 and the signatures are the record `Evm`.
pub mod Client
pub mod Filter
pub mod Logs
pub mod Options
pub mod Orders
pub mod Accepted
pub mod Rewards
mod Tests
use cess_dcdn_components.Types.{busy, idle}
use cess_dcdn_components.Protocol.Filter.{Event, filter_logs}
use cess_dcdn_components.Base.Decimal.{print, set_string}
use cess_dcdn_components.Base.Int.{int64, leb_ℤ, ltb_ℤ, pos, ℤ, ◌+ℤ◌}
use cess_dcdn_components.Base.Text.{hex, text_eq}
use cess_dcdn_components.Credit.{Order2Credit}
use cess_dcdn_components.Base.{
  panic, suc, zero, ◌||◌, ◌>>=◌, ◌>>◌, Action, Bool, Bytes, List, Option, Outcome, [], codes, crash,
  err, fail_if, false, if◌then◌else◌, is_nil, length, lift, ltb, none, not, ok, pure, returning,
  some, take, true, wrap, wrapping, ℕ,
}

pub record NodeInfo : Type 0 where
  pub created : Bool
  pub collerate : ℤ
  pub token_id : ℤ
  pub peer_id : Bytes

pub record Order : Type 0 where
  pub value : ℤ
  pub creater : Bytes
  pub node : Bytes
  pub term : ℤ

-- `bind.TransactOpts`, as far as the program sets it: the value in wei may be nil.
pub record TransactOpts : Type 0 where
  pub chain_id : ℤ
  pub gas_tip_cap : Option ℤ
  pub gas_fee_cap : Option ℤ
  pub gas_limit : ℕ
  pub value : Option ℤ

-- What the program calls of the generated bindings and of third-party packages. A log is what the
-- node sends; `events` is what the subscription delivers, in order, until its context is done.
pub record Evm (W : Type 0) : Type 0 where
  pub node : Bytes → Action W NodeInfo
  pub order : Bytes → Action W Order
  pub get_currency_term : Action W ℤ
  pub cache_order_payment : TransactOpts → Bytes → Action W Bytes
  pub staking : TransactOpts → Bytes → Bytes → ℤ → Bytes → Bytes → Action W Bytes
  pub claim : TransactOpts → Action W Bytes
  pub exit : TransactOpts → Action W Bytes
  pub events : Bytes → Action W (List Event)
  pub parse_order_payment : Bytes → Option (Bytes × Bytes)
  pub parse_staking : Bytes → Option Bytes
  pub parse_claim : Bytes → Option (Bytes × ℤ)
  pub hex_to_address : Bytes → Bytes
  pub encode_58 : Bytes → Bytes
  pub decode_58 : Bytes → Outcome Bytes
  pub verify_signature : Bytes → Bytes → Bytes → Bool
  pub keccak : Bytes → Bytes

-- `struct CacheProtoContract`; `new_option` is the client's `NewTransactionOption`.
pub record CacheProtoContract (W : Type 0) : Type 0 where
  pub address : Bytes
  pub self : Bytes
  pub new_option : Bytes → Action W TransactOpts
  pub evm : Evm W

module _ {W : Type 0} (pc : CacheProtoContract W) where
  -- `QueryRegisterInfo`: the registered peer ID comes back in base58.
  unfoldable pub query_register_info : Bytes → Action W NodeInfo
  query_register_info acc = wrapping "query node register info error" (do
    info ← pc.evm.node acc
    fail_if (is_nil info.peer_id || not info.created) (codes "node not found.")
    pure (record info { peer_id = pc.evm.encode_58 info.peer_id }))

  abbrev pub query_cache_order : Bytes → Action W Order
  query_cache_order id = wrapping "query cache order info error" (pc.evm.order id)

  abbrev pub query_currency_term : Action W ℤ
  query_currency_term = wrapping "query currency term error" pc.evm.get_currency_term

  -- The callback of `CreateCacheOrder` over the captured order ID.
  abbrev pub on_payment : Bytes → Bytes → Option Bytes → Bool × Option Bytes
  on_payment acc log seen = elim (pc.evm.parse_order_payment log) [
    | none ↦ (true, seen)
    | some (id, payer) ↦ if text_eq payer acc then (false, some id) else (true, seen)
  ]

  -- What `CreateCacheOrder` makes of the end of its subscription.
  abbrev pub order_found : Bytes → Option Bytes × Option Bytes → Outcome (Bytes × Bytes)
  order_found tx (some e, id) = err e
  order_found tx (none, none) = err (codes "order ID not obtained")
  order_found tx (none, some id) = ok (tx, id)

  -- `CreateCacheOrder`: the transaction's hash and the order's ID. (The code returns the hash beside
  -- an error, too; its one caller drops it.)
  unfoldable pub create_cache_order : Bytes → Bytes → Action W (Bytes × Bytes)
  unfolding filter_logs
  create_cache_order acc value = wrapping "create and payment cache order error" (do
    opts ← pc.new_option value
    tx ← pc.evm.cache_order_payment opts acc
    events ← pc.evm.events pc.address
    lift (λ _. order_found tx (filter_logs (on_payment acc) events none)))

  -- The callback of `RegisterNode`.
  abbrev pub on_staking : Bytes → Bytes → Unit {0} → Bool × Unit {0}
  on_staking acc log u = elim (pc.evm.parse_staking log) [
    | none ↦ (true, tt)
    | some staker ↦ (not (text_eq staker acc), tt)
  ]

  -- `RegisterNode`
  unfoldable pub register_node : Bytes → Bytes → Bytes → Bytes → Bytes → Bytes → Action W (Unit {0})
  unfolding filter_logs
  register_node acc token_acc peer_id token_id value sign = wrapping "register cache node error" (do
    id ←
        lift (λ _. elim (set_string token_id) [ none ↦ err (codes "bad token Id") | some v ↦ ok v ])
    raw ← lift (λ _. pc.evm.decode_58 peer_id)
    opts ← pc.new_option value
    tx ← pc.evm.staking opts acc token_acc id raw sign
    events ← pc.evm.events pc.address
    lift (λ _. returning tt (filter_logs (on_staking acc) events tt).0))

  -- `ClaimOrder`: the order's ID is not passed on.
  unfoldable pub claim_order : Bytes → Action W (Unit {0})
  claim_order id =
      wrapping "claim order error" (do opts ← pc.new_option []; pc.evm.claim opts; pure tt)

  -- The callback of `ClaimWorkReward` over the captured reward.
  abbrev pub on_claim : Bytes → Bytes → Bytes → Bool × Bytes
  on_claim acc log reward = elim (pc.evm.parse_claim log) [
    | none ↦ (true, reward)
    | some (node, r) ↦ if text_eq node acc then (false, print r) else (true, reward)
  ]

  abbrev pub claimed : Option Bytes × Bytes → Outcome Bytes
  claimed (e, reward) = returning reward e

  -- `ClaimWorkReward`: the reward in decimal, "0" while no event names it.
  unfoldable pub claim_work_reward : Bytes → Action W Bytes
  unfolding filter_logs
  claim_work_reward acc = wrapping "claim work reward error" (do
    opts ← pc.new_option []
    pc.evm.claim opts
    events ← pc.evm.events pc.address
    lift (λ _. claimed (filter_logs (on_claim acc) events (codes "0"))))

  -- The `for` loop of `ClaimWorkRewardServer` over the ticks until its context is done: the answer is
  -- the last value of `term`.
  unfoldable pub claim_ticks : Bytes → ℕ → ℤ → Action W ℤ
  claim_ticks acc zero term w = (ok term, w)
  claim_ticks acc (suc ticks) term w =
      let (t, w') = query_currency_term w in
      let idle = claim_ticks acc ticks term w' in
      let (claim, w2) = claim_work_reward acc w' in
      let busy = claim_ticks acc ticks (term +ℤ pos 1) w2 in
      elim t [
        | err e ↦ idle
        | panic ↦ (panic, w')
        | ok v ↦
            if leb_ℤ (int64 v) term
            then idle
            else elim claim [ ok r ↦ busy | err e ↦ busy | panic ↦ (panic, w2) ]
      ]

  -- `ClaimWorkRewardServer`
  unfoldable pub claim_work_reward_server : Bytes → ℕ → Action W ℤ
  unfolding claim_ticks
  claim_work_reward_server acc ticks = do query_register_info acc; claim_ticks acc ticks (pos 1)

  -- The callback of `ExitNetwork`.
  abbrev pub on_exit : Bytes → Bytes → Unit {0} → Bool × Unit {0}
  on_exit acc log u = elim (pc.evm.parse_claim log) [
    | none ↦ (true, tt)
    | some (node, r) ↦ (not (text_eq node acc), tt)
  ]

  -- `ExitNetwork`
  unfoldable pub exit_network : Bytes → Action W (Unit {0})
  unfolding filter_logs
  exit_network acc = wrapping "node exit network error" (do
    opts ← pc.new_option []
    pc.evm.exit opts
    events ← pc.evm.events pc.address
    lift (λ _. returning tt (filter_logs (on_exit acc) events tt).0))

  -- `CreateCreditOrder`: the registered peer ID, in base58, is compared with the decoded one.
  unfoldable pub create_credit_order : Bytes → Bytes → Bytes → Action W (Bytes × Bytes)
  create_credit_order key node_id value = wrapping "create credit order" (do
    raw ← lift (λ _. pc.evm.decode_58 node_id)
    info ← query_register_info (pc.evm.hex_to_address key)
    fail_if (not (text_eq info.peer_id raw)) (codes "peer ID does not match the registered one")
    (tx, id) ← create_cache_order (pc.evm.hex_to_address key) value
    pure (tx, hex id))

  -- `errors.Wrap(err, "check credit order error")` returns nil where `err` is nil.
  abbrev pub refused : Outcome Bytes
  refused = returning [] (wrap none "check credit order error")

  -- The part of `CheckCreditOrder` behind the query of the order.
  unfoldable pub settle_order : Bytes → Order → Action W Bytes
  settle_order id order = if not (text_eq order.node pc.self) then lift (λ _. refused) else do
    term ← query_currency_term
    if ltb_ℤ (order.term +ℤ pos 4) term
        then lift (λ _. refused)
        else do claim_order id; pure (print order.value)

  -- `CheckCreditOrder`: the conversion `[32]byte(data)` panics on less than 32 bytes.
  unfoldable pub check_credit_order : Bytes → Bytes → Bytes → Action W Bytes
  check_credit_order pubkey content sign = wrapping "check credit order error" (do
    fail_if (pc.evm.verify_signature pubkey (pc.evm.keccak content) sign) (codes "bad signature")
    if ltb (length content) 32 then crash else pure tt
    order ← query_cache_order (take 32 content)
    settle_order (take 32 content) order)

  -- The contract in the role that the credit module wants.
  abbrev pub contract_orders : Order2Credit W
  contract_orders = record {
    create_credit_order = create_credit_order;
    check_credit_order = check_credit_order;
  }
