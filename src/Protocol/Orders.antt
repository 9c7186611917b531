-- ===== src/Protocol/Orders.antt =====
-- Credit orders on chain: which requests `CheckCreditOrder` turns away before it asks the chain, and why
-- no order can be created.
use cess_dcdn_components.Base.Text.{text_eq}
use cess_dcdn_components.Protocol.{
  NodeInfo, create_credit_order, query_register_info, CacheProtoContract, check_credit_order,
}
use cess_dcdn_components.Base.{
  is_nil, Bytes, arith, codes, err, false, length, ok, panic, true, ◌<◌, ◌≡◌,
}

module _ {W : Type 0} (pc : CacheProtoContract W) (pubkey content sign : Bytes) where
  -- A signature that verifies is refused, before the chain is asked.
  pub check_credit_order_verified :
      (w : W)
      → pc.evm.verify_signature pubkey (pc.evm.keccak content) sign ≡ true
      → check_credit_order pc pubkey content sign w
        ≡ (err (codes "check credit order error: bad signature"), w)
  unfolding check_credit_order
  check_credit_order_verified w h = ground arith

  -- With a signature that does not verify, an order ID of less than 32 bytes panics.
  pub check_credit_order_short :
      (w : W)
      → pc.evm.verify_signature pubkey (pc.evm.keccak content) sign ≡ false
      → length content < 32
      → check_credit_order pc pubkey content sign w ≡ (panic, w)
  unfolding check_credit_order
  check_credit_order_short w h s = ground arith

module _ {W : Type 0} (pc : CacheProtoContract W) where
  -- The peer ID that is registered for an account, given as it is written in base58, is refused when an
  -- order is to be created for it, unless base58 leaves it as it is: no payment is made.
  pub create_credit_order_mismatch :
      (key node_id value : Bytes) (w w1 : W) (info : NodeInfo)
      → pc.evm.decode_58 node_id ≡ ok info.peer_id
      → pc.evm.node (pc.evm.hex_to_address key) w ≡ (ok info, w1)
      → is_nil info.peer_id ≡ false
      → info.created ≡ true
      → text_eq (pc.evm.encode_58 info.peer_id) info.peer_id ≡ false
      → create_credit_order pc key node_id value w
        ≡ (err (codes "create credit order: peer ID does not match the registered one"), w1)
  unfolding create_credit_order query_register_info
  create_credit_order_mismatch key node_id value w w1 info e1 e2 e3 e4 e5 = ground arith
