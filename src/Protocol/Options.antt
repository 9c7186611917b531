-- ===== src/Protocol/Options.antt =====
-- What a client and the options of a transaction hold, for every list of options.
use cess_dcdn_components.Base.Decimal.{set_string}
use cess_dcdn_components.Base.Int.{pos}
use cess_dcdn_components.Protocol.Client.{
  connect_client, Client, ClientOption, Rpc, apply_options, connected, dial_first, empty_client,
  new_client, new_transaction_option, with_gas,
}
use cess_dcdn_components.Base.{
  Outcome, err, panic, wrapping, ◌>>=◌, Bool-cases, Bytes, List, Option, Option-cases, [], arith,
  false, inl, inr, is_nil, none, ok, refl, some, ◌∷◌, ◌≡◌, ◌≢◌, ◌⊎◌,
}

module _ {W : Type 0} (rpc : Rpc W) where
  connected_sound :
      (c c' : Client) (r : Option Bytes × W)
      → (connected rpc c r).0 ≡ ok c'
      → (conn : Bytes) × (r.0 ≡ some conn) × (c' ≡ with_gas rpc (record c { cli = some conn }))
  connected_sound c c' (none, w) h = cc
  connected_sound c c' (some conn, w) h = (conn, refl, ground arith)

  -- The first address that answers gives the connection: those before it do not answer.
  abbrev pub FirstAnswer : Bytes → List Bytes → W → Type 0
  FirstAnswer conn [] w = ⊥
  FirstAnswer conn (a ∷ addrs) w =
      ((rpc.dial a w).0 ≡ some conn)
      ⊎ (((rpc.dial a w).0 ≡ none) × FirstAnswer conn addrs (rpc.dial a w).1)

  dial_first_sound :
      (addrs : List Bytes) (w : W) (conn : Bytes)
      → (dial_first rpc addrs w).0 ≡ some conn
      → FirstAnswer conn addrs w
  unfolding dial_first
  dial_first_sound [] w conn h = cc
  dial_first_sound (a ∷ addrs) w conn h = elim (Option-cases (rpc.dial a w).0) [
    | inl silent ↦ inr (silent, dial_first_sound addrs (rpc.dial a w).1 conn (ground arith))
    | inr (c, e) ↦ inl (ground arith)
  ]

  -- At least one address, the connection of the first that answered, and gas values that are set.
  abbrev pub IsConnected : Client → W → Type 0
  IsConnected c w =
      (is_nil c.rpc_addrs ≡ false)
      × (c.gas_limit ≢ 0)
      × (c.gas_fee_cap ≢ none)
      × ((conn : Bytes) × (c.cli ≡ some conn) × FirstAnswer conn c.rpc_addrs w)

  connect_client_sound :
      (c c' : Client) (w : W) → (connect_client rpc c w).0 ≡ ok c' → IsConnected c' w
  unfolding connect_client
  connect_client_sound c c' w h = elim (Bool-cases (is_nil c.rpc_addrs)) [
    | inl empty ↦ absurd (ground arith)
    | inr some_address ↦
        let (conn, answered, e) =
          connected_sound c c' (dial_first rpc c.rpc_addrs w) (ground arith) in
        let served = dial_first_sound c.rpc_addrs w conn answered in
        rw e (some_address, ground arith, ground arith, (conn, refl, served))
  ]

  -- A client that `NewClient` answers with has at least one address, the connection of the first
  -- address that answered, and gas values that are set.
  pub new_client_sound :
      (opts : List ClientOption) (w : W) {c : Client}
      → (new_client rpc opts w).0 ≡ ok c
      → IsConnected c (apply_options rpc opts empty_client w).1
  unfolding new_client
  new_client_sound opts w {c} h = after_options (apply_options rpc opts empty_client w) h
    where
      after_options :
          (r : Outcome Client × W)
          → (wrapping "new ethereum client error" ((λ (v : W). r) >>= connect_client rpc) w).0
            ≡ ok c
          → IsConnected c r.1
      after_options (ok c0, w0) k = connect_client_sound c0 c w0 (ground arith)
      after_options (err e, w0) k = absurd (ground arith)
      after_options (panic, w0) k = absurd (ground arith)

  -- A transaction's options carry the chain 11330 whatever chain the client was made for, the client's
  -- gas values, and the value if it is a number; any other text leaves the value nil.
  pub new_transaction_option_lem :
      (c : Client) (value conn : Bytes) (w : W)
      → c.cli ≡ some conn
      → rpc.keyed_transactor c.sk ≡ ok tt
      → new_transaction_option rpc c value w ≡ (
        ok (record {
          chain_id = pos 11330;
          gas_tip_cap = (rpc.suggest_gas_tip_cap conn w).0;
          gas_fee_cap = c.gas_fee_cap;
          gas_limit = c.gas_limit;
          value = set_string value;
        }),
        (rpc.suggest_gas_tip_cap conn w).1,
      )
  unfolding new_transaction_option set_string
  new_transaction_option_lem c value conn w e k = ground arith
