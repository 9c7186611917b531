-- ===== src/Protocol/Client.antt =====
-- The Ethereum client (cd2n-lib/protocol/evm_client.go): its options, its connection and the options
-- of a transaction. The connection itself, the keys and the gas oracle are external.
use cess_dcdn_components.Base.Decimal.{set_string}
use cess_dcdn_components.Base.Int.{pos, ℤ}
use cess_dcdn_components.Protocol.{TransactOpts}
use cess_dcdn_components.Base.Dict.{Dict, insert, lookup}
use cess_dcdn_components.Base.{
  Action, Bytes, List, Option, Outcome, [], codes, err, fail_if, if◌then◌else◌, is_nil, lift, none,
  ok, panic, pure, some, wrapping, ℕ, ◌==◌, ◌>>=◌, ◌>>◌, ◌∷◌,
}

-- Third-party calls: `ethclient.Dial`, `crypto.HexToECDSA` with `crypto.PubkeyToAddress`,
-- `common.HexToAddress`, and over a connection `SuggestGasTipCap` and a transactor for a key.
pub record Rpc (W : Type 0) : Type 0 where
  pub dial : Bytes → W → Option Bytes × W
  pub key_address : Bytes → Outcome Bytes
  pub hex_to_address : Bytes → Bytes
  pub suggest_gas_tip_cap : Bytes → W → Option ℤ × W
  pub keyed_transactor : Option Bytes → Outcome (Unit {0})

-- `struct Client`; a connection is known by its address, a key by its hexadecimal text, and a
-- contract of the map by its address.
pub record Client : Type 0 where
  pub rpc_addrs : List Bytes
  pub chain_id : ℤ
  pub gas_fee_cap : Option ℤ
  pub gas_limit : ℕ
  pub cli : Option Bytes
  pub account : Bytes
  pub sk : Option Bytes
  pub contracts : Dict Bytes

abbrev pub empty_client : Client
empty_client = record {
  rpc_addrs = [];
  chain_id = pos 0;
  gas_fee_cap = none;
  gas_limit = 0;
  cli = none;
  account = [];
  sk = none;
  contracts = [];
}

-- The functions of type `Option`, by what they were made from.
pub data ClientOption : Type 0 where
  connection_rpc_addresss : List Bytes → ClientOption
  node_eth_account : Bytes → ClientOption
  chain_id : ℤ → ClientOption
  ethereum_gas : ℤ → ℕ → ClientOption
  account_private_key : Bytes → ClientOption

module _ {W : Type 0} (rpc : Rpc W) where
  -- A call of an option.
  unfoldable pub apply_option : ClientOption → Client → Outcome Client
  apply_option (connection_rpc_addresss rpcs) c =
      if is_nil rpcs
      then err (codes "empty rpc address list")
      else ok (record c { rpc_addrs = rpcs })
  apply_option (node_eth_account acc) c = ok (record c { account = rpc.hex_to_address acc })
  apply_option (ClientOption.chain_id id) c = ok (record c { chain_id = id })
  apply_option (ethereum_gas fee limit) c =
      ok (record c { gas_fee_cap = some fee; gas_limit = limit })
  apply_option (account_private_key key) c = elim (rpc.key_address key) [
    | ok acc ↦ ok (record c { account = acc; sk = some key })
    | err e ↦ err e
    | panic ↦ panic
  ]

  unfoldable pub apply_options : List ClientOption → Client → Action W Client
  unfolding apply_option
  apply_options [] c = pure c
  apply_options (o ∷ os) c = do c' ← lift (λ _. apply_option o c); apply_options os c'

  -- The loop over the addresses: the first one that answers.
  unfoldable pub dial_first : List Bytes → W → Option Bytes × W
  dial_first [] w = (none, w)
  dial_first (a ∷ addrs) w =
      let (r, w') = rpc.dial a w in
      let rest = dial_first addrs w' in elim r [ some conn ↦ (some conn, w') | none ↦ rest ]

  abbrev pub default_gas_fee_cap : ℤ
  default_gas_fee_cap = pos 108694000460

  abbrev pub default_gas_limit : ℕ
  default_gas_limit = 30000000

  -- The gas values that are not set get their defaults.
  abbrev pub with_gas : Client → Client
  with_gas c = record c {
    gas_fee_cap = elim c.gas_fee_cap [ none ↦ some default_gas_fee_cap | some f ↦ some f ];
    gas_limit = if c.gas_limit == 0 then default_gas_limit else c.gas_limit;
  }

  abbrev pub connected : Client → Option Bytes × W → Outcome Client × W
  connected c (none, w) = (err (codes "chain RPC connection failed"), w)
  connected c (some conn, w) = (ok (with_gas (record c { cli = some conn })), w)

  -- `NewClient` after its options.
  unfoldable pub connect_client : Client → Action W Client
  connect_client c = do
    fail_if (is_nil c.rpc_addrs) (codes "no RPC address is configured")
    λ w. connected c (dial_first c.rpc_addrs w)

  -- `NewClient`
  unfoldable pub new_client : List ClientOption → Action W Client
  new_client opts =
      wrapping "new ethereum client error"
        (do c ← apply_options opts empty_client; connect_client c)

  -- `AddWorkContract` and `GetContractAddress`
  abbrev pub add_work_contract : Bytes → Bytes → Client → Client
  add_work_contract name contract c = record c { contracts = insert name contract c.contracts }

  abbrev pub get_contract_address : Bytes → Client → Option Bytes
  get_contract_address name c = lookup name c.contracts

  -- `NewTransactionOption`: the chain ID is written out, the tip's error is dropped, and a value that
  -- is no number leaves the value nil.
  unfoldable pub new_transaction_option : Client → Bytes → Action W TransactOpts
  new_transaction_option c value w = elim c.cli [
    | none ↦ (panic, w)
    | some conn ↦
        let (tip, w') = rpc.suggest_gas_tip_cap conn w in
        wrapping "new transaction option error"
          (do
            lift (λ _. rpc.keyed_transactor c.sk)
            pure (record {
              chain_id = pos 11330;
              gas_tip_cap = tip;
              gas_fee_cap = c.gas_fee_cap;
              gas_limit = c.gas_limit;
              value = if is_nil value then none else set_string value;
            }))
          w'
  ]
