-- ===== src/Protocol/Logs.antt =====
-- What a finished subscription shows: the events that a call waits for did arrive.
use cess_dcdn_components.Base.Int.{ℤ}
use cess_dcdn_components.Base.Decimal.{set_string}
use cess_dcdn_components.Base.Text.{text_eq_refl, eq_of_text_eq, text_eq}
use cess_dcdn_components.Protocol.Filter.{Event, ended, filter_logs, logged}
use cess_dcdn_components.Protocol.{
  on_staking, register_node, TransactOpts, create_cache_order, CacheProtoContract, on_payment,
}
use cess_dcdn_components.Base.{
  ok, All, Bool-cases, Bytes, List, Option-cases, [], arith, inl, inr, map, none, refl, some, true,
  ◌++◌, ◌∷◌, ◌≡◌, ◌⊎◌,
}

-- An event of the list, before the end of the subscription, meets the predicate.
abbrev pub Arrived : (Bytes → Type 0) → List Event → Type 0
Arrived P [] = ⊥
Arrived P (ended e ∷ events) = ⊥
Arrived P (logged l ∷ events) = P l ⊎ Arrived P events

module _ {W : Type 0} (pc : CacheProtoContract W) where
  -- A log that is no payment of this account.
  abbrev pub IsForeign : Bytes → Bytes → Type 0
  IsForeign acc l = (on_payment pc acc l none) ≡ (true, none)

  filter_logs-on_payment_sound :
      (acc : Bytes) (events : List Event) (id : Bytes)
      → filter_logs (on_payment pc acc) events none ≡ (none, some id)
      → Arrived (λ l. pc.evm.parse_order_payment l ≡ some (id, acc)) events
  unfolding filter_logs
  filter_logs-on_payment_sound acc [] id h = cc
  filter_logs-on_payment_sound acc (ended e ∷ events) id h = cc
  filter_logs-on_payment_sound acc (logged l ∷ events) id h =
      elim (Option-cases (pc.evm.parse_order_payment l)) [
        | inl bad ↦ inr (filter_logs-on_payment_sound acc events id (ground arith))
        | inr ((i, payer), e) ↦ elim (Bool-cases (text_eq payer acc)) [
          | inl same ↦ inl (ground (arith, eq_of_text_eq payer acc same))
          | inr differ ↦ inr (filter_logs-on_payment_sound acc events id (ground arith))
        ]
      ]

  filter_logs-skip :
      (acc : Bytes) (before : List Bytes) (events : List Event)
      → All (IsForeign acc) before
      → filter_logs (on_payment pc acc) (map logged before ++ events) none
        ≡ filter_logs (on_payment pc acc) events none
  unfolding filter_logs
  filter_logs-skip acc [] events h = refl
  filter_logs-skip acc (l ∷ before) events h = rw h.0 (filter_logs-skip acc before events h.1)

  -- When `CreateCacheOrder` answers with an order, its transaction was sent and a payment event of the
  -- account with this order's ID arrived in the subscription.
  pub create_cache_order_sound :
      (acc value tx id : Bytes) (opts : TransactOpts) (events : List Event) (w w1 w2 w3 : W)
      → pc.new_option value w ≡ (ok opts, w1)
      → pc.evm.cache_order_payment opts acc w1 ≡ (ok tx, w2)
      → pc.evm.events pc.address w2 ≡ (ok events, w3)
      → (create_cache_order pc acc value w).0 ≡ ok (tx, id)
      → Arrived (λ l. pc.evm.parse_order_payment l ≡ some (id, acc)) events
  unfolding create_cache_order
  create_cache_order_sound acc value tx id opts events w w1 w2 w3 e1 e2 e3 h =
      filter_logs-on_payment_sound acc events id (ground arith)

  -- The first payment event of the account decides: whatever logs came before it, the order is the one
  -- that it names, and what comes after it is not read.
  pub create_cache_order_complete :
      (acc value tx id l : Bytes) (before : List Bytes) (after : List Event) (opts : TransactOpts)
      (w w1 w2 w3 : W)
      → pc.new_option value w ≡ (ok opts, w1)
      → pc.evm.cache_order_payment opts acc w1 ≡ (ok tx, w2)
      → pc.evm.events pc.address w2 ≡ (ok (map logged before ++ (logged l ∷ after)), w3)
      → All (IsForeign acc) before
      → pc.evm.parse_order_payment l ≡ some (id, acc)
      → create_cache_order pc acc value w ≡ (ok (tx, id), w3)
  unfolding create_cache_order
  create_cache_order_complete acc value tx id l before after opts w w1 w2 w3 e1 e2 e3 hb hl =
      ground (arith, filter_logs-skip acc before (logged l ∷ after) hb, text_eq_refl acc)

-- The subscription ended by itself, without an error.
abbrev pub Closed : List Event → Type 0
Closed [] = ⊥
Closed (ended e ∷ events) = e ≡ none
Closed (logged l ∷ events) = Closed events

module _ {W : Type 0} (pc : CacheProtoContract W) where
  filter_logs-on_staking_sound :
      (acc : Bytes) (events : List Event)
      → (filter_logs (on_staking pc acc) events tt).0 ≡ none
      → Arrived (λ l. pc.evm.parse_staking l ≡ some acc) events ⊎ Closed events
  unfolding filter_logs
  filter_logs-on_staking_sound acc [] h = cc
  filter_logs-on_staking_sound acc (ended e ∷ events) h = inr h
  filter_logs-on_staking_sound acc (logged l ∷ events) h =
      elim (Option-cases (pc.evm.parse_staking l)) [
        | inl bad ↦ later (filter_logs-on_staking_sound acc events (ground arith))
        | inr (staker, e) ↦ elim (Bool-cases (text_eq staker acc)) [
          | inl same ↦ inl (inl (ground (arith, eq_of_text_eq staker acc same)))
          | inr differ ↦ later (filter_logs-on_staking_sound acc events (ground arith))
        ]
      ]
    where
      later :
          Arrived (λ m. pc.evm.parse_staking m ≡ some acc) events ⊎ Closed events
          → Arrived (λ m. pc.evm.parse_staking m ≡ some acc) (logged l ∷ events) ⊎ Closed events
      later (inl a) = inl (inr a)
      later (inr c) = inr c

  -- When `RegisterNode` succeeds, the staking transaction was sent and a staking event of the account
  -- arrived, or the subscription ended by itself without an error, which counts as success too.
  pub register_node_sound :
      (acc token_acc peer_id token_id value sign raw tx : Bytes) (opts : TransactOpts)
      (events : List Event) (id : ℤ) (w w1 w2 w3 : W)
      → set_string token_id ≡ some id
      → pc.evm.decode_58 peer_id ≡ ok raw
      → pc.new_option value w ≡ (ok opts, w1)
      → pc.evm.staking opts acc token_acc id raw sign w1 ≡ (ok tx, w2)
      → pc.evm.events pc.address w2 ≡ (ok events, w3)
      → (register_node pc acc token_acc peer_id token_id value sign w).0 ≡ ok tt
      → Arrived (λ l. pc.evm.parse_staking l ≡ some acc) events ⊎ Closed events
  unfolding register_node
  register_node_sound acc token_acc peer_id token_id value sign raw tx opts events id w w1 w2 w3 e1
        e2 e3 e4 e5 h =
      filter_logs-on_staking_sound acc events (ground arith)
