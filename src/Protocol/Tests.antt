-- ===== src/Protocol/Tests.antt =====
-- The protocol module over a small chain, and its theorems at concrete inputs. The state counts the
-- calls that change the chain; a log is a tag and its content, and all events are of the node `acc`.
use cess_dcdn_components.Protocol.Accepted.{IsClaimed, check_credit_order_sound}
use cess_dcdn_components.Base.Decimal.{print, set_string}
use cess_dcdn_components.Base.Int.{pos, ℤ, ◌+ℤ◌}
use cess_dcdn_components.Base.Text.{hex, text_eq}
use cess_dcdn_components.Protocol.Rewards.{IsClaiming, claim_ticks_lem}
use cess_dcdn_components.Protocol.Options.{IsConnected, new_client_sound}
use cess_dcdn_components.Protocol.Filter.{Event, logged}
use cess_dcdn_components.Protocol.Client.{
  Client, Rpc, apply_options, connect_client, connection_rpc_addresss, dial_first, empty_client,
  new_client, new_transaction_option,
}
use cess_dcdn_components.Protocol.{
  settle_order, CacheProtoContract, Evm, NodeInfo, Order, TransactOpts, check_credit_order,
  claim_order, claim_ticks, claim_work_reward, create_cache_order, exit_network,
}
use cess_dcdn_components.Base.{
  Bytes, List, Option, [], arith, codes, if◌then◌else◌, is_nil, none, ok, refl, some, suc, true,
  zero, ℕ, ◌+◌, ◌∷◌, ◌≡◌,
}
use cess_dcdn_components.Protocol.Logs.{
  Arrived, create_cache_order_complete, create_cache_order_sound,
}

abbrev acc : Bytes
acc = codes "node"

abbrev sample_order : Order
sample_order = record { value = pos 50; creater = codes "user"; node = acc; term = pos 3 }

abbrev registered : NodeInfo
registered = record { created = true; collerate = pos 9; token_id = pos 1; peer_id = 7 ∷ 8 ∷ [] }

abbrev payment_of : Bytes → Option (Bytes × Bytes)
payment_of (suc zero ∷ id) = some (id, acc)
payment_of _ = none

abbrev staking_of : Bytes → Option Bytes
staking_of (suc (suc zero) ∷ rest) = some acc
staking_of _ = none

abbrev claim_of : Bytes → Option (Bytes × ℤ)
claim_of (suc (suc (suc zero)) ∷ rest) = some (acc, pos 12)
claim_of _ = none

abbrev order_id : Bytes
order_id =
    1 ∷ 2 ∷ 3 ∷ 4 ∷ 5 ∷ 6 ∷ 7 ∷ 8 ∷ 9 ∷ 10 ∷ 11 ∷ 12 ∷ 13 ∷ 14 ∷ 15 ∷ 16 ∷ 17 ∷ 18 ∷ 19 ∷ 20 ∷ 21
    ∷ 22 ∷ 23 ∷ 24 ∷ 25 ∷ 26 ∷ 27 ∷ 28 ∷ 29 ∷ 30 ∷ 31 ∷ 32 ∷ []

abbrev arrivals : List Event
arrivals = logged (9 ∷ []) ∷ logged (1 ∷ order_id) ∷ logged (2 ∷ []) ∷ logged (3 ∷ []) ∷ []

abbrev chain : Evm ℕ
chain = record {
  node = λ a w. (ok registered, w);
  order = λ id w. (ok sample_order, w);
  get_currency_term = λ w. (ok (pos 5), w);
  cache_order_payment = λ opts a w. (ok (codes "0x1"), w + 1);
  staking = λ opts a t id raw sign w. (ok (codes "0x2"), w + 1);
  claim = λ opts w. (ok (codes "0x3"), w + 1);
  exit = λ opts w. (ok (codes "0x4"), w + 1);
  events = λ a w. (ok arrivals, w);
  parse_order_payment = payment_of;
  parse_staking = staking_of;
  parse_claim = claim_of;
  hex_to_address = λ a. a;
  encode_58 = λ raw. hex raw;
  decode_58 = λ text. ok (7 ∷ 8 ∷ []);
  verify_signature = λ key hash sign. text_eq sign (codes "good");
  keccak = λ content. content;
}

abbrev rpc : Rpc ℕ
rpc = record {
  dial = λ a w. (if text_eq a (codes "up") then some a else none, w);
  key_address = λ key. ok key;
  hex_to_address = λ a. a;
  suggest_gas_tip_cap = λ conn w. (some (pos 2), w);
  keyed_transactor = λ sk. ok tt;
}

abbrev client : Client
client = record empty_client {
  rpc_addrs = codes "down" ∷ codes "up" ∷ [];
  gas_fee_cap = some (pos 108694000460);
  gas_limit = 30000000;
  cli = some (codes "up");
}

abbrev contract : CacheProtoContract ℕ
contract = record {
  address = codes "proto";
  self = acc;
  new_option = new_transaction_option rpc client;
  evm = chain;
}

abbrev opts : Bytes → TransactOpts
opts value = record {
  chain_id = pos 11330;
  gas_tip_cap = some (pos 2);
  gas_fee_cap = some (pos 108694000460);
  gas_limit = 30000000;
  value = if is_nil value then none else some (pos 50);
}

claims_reward : claim_work_reward contract acc 0 ≡ (ok (codes "12"), 1)
unfolding claim_work_reward new_transaction_option text_eq print
claims_reward = refl

exits : exit_network contract acc 0 ≡ (ok tt, 1)
unfolding exit_network new_transaction_option text_eq
exits = refl

create_cache_order_sound_example : Arrived (λ l. payment_of l ≡ some (order_id, acc)) arrivals
unfolding create_cache_order new_transaction_option text_eq set_string
create_cache_order_sound_example =
    create_cache_order_sound contract acc (codes "50") (codes "0x1") order_id (opts (codes "50"))
      arrivals 0 0 1 1 refl refl refl refl

create_cache_order_complete_example :
    create_cache_order contract acc (codes "50") 0 ≡ (ok (codes "0x1", order_id), 1)
unfolding new_transaction_option set_string
create_cache_order_complete_example =
    create_cache_order_complete contract acc (codes "50") (codes "0x1") order_id (1 ∷ order_id)
      ((9 ∷ []) ∷ []) (logged (2 ∷ []) ∷ logged (3 ∷ []) ∷ []) (opts (codes "50")) 0 0 1 1 refl refl
      refl (refl, tt) refl

contract-IsClaiming : IsClaiming contract acc 5 (λ w. w)
unfolding new_transaction_option
contract-IsClaiming = record {
  term = λ w. (w, refl, refl);
  option = λ w. (opts [], w, refl, refl);
  claim = λ o w. (λ e. cc, ground arith);
  events = λ a w. (λ e. cc, refl);
}

claim_ticks_lem_example :
    ((claim_ticks contract acc 9 (pos 1) 0).0 ≡ ok (pos 5))
    × ((claim_ticks contract acc 9 (pos 1) 0).1 ≡ 4)
claim_ticks_lem_example =
    claim_ticks_lem contract acc 5 (λ w. w) (omega arith) contract-IsClaiming 9 1 0 (omega arith)

new_client_sound_example : IsConnected rpc client 0
unfolding new_client connect_client apply_options dial_first text_eq
new_client_sound_example =
    new_client_sound rpc (connection_rpc_addresss (codes "down" ∷ codes "up" ∷ []) ∷ []) 0
      {c = client} refl

accepts : check_credit_order contract acc order_id (codes "bad") 0 ≡ (ok (codes "50"), 1)
unfolding check_credit_order text_eq ◌+ℤ◌ claim_order new_transaction_option print settle_order
accepts = refl

check_credit_order_sound_example : IsClaimed contract acc order_id (codes "bad") (codes "50") 1
check_credit_order_sound_example =
    check_credit_order_sound contract acc order_id (codes "bad") 0 1 accepts (λ e. cc)
