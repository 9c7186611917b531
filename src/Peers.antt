-- ===== src/Peers.antt =====
-- The peer-to-peer node of the cache: its key, and the addresses of its boot nodes
-- (cd2n-lib/p2p/p2p.go).
use cess_dcdn_components.Transfer.Storage.{or_else}
use cess_dcdn_components.Base.{
  Action, Bool, Bytes, List, Option, Outcome, [], codes, if◌then◌else◌, lift, none, ok, panic, pure,
  some, ℕ, ◌&&◌, ◌++◌, ◌+◌, ◌==◌, ◌>>=◌, ◌>>◌, ◌∷◌,
}
use cess_dcdn_components.Base.Text.{contains, split, split_from}
pub mod Identity
pub mod Addresses
mod Tests

-- The operating system's files, and Ed25519 keys: `GenerateKeyPairWithReader`, `Raw` and
-- `UnmarshalEd25519PrivateKey`.
pub record Keyring (W K : Type 0) : Type 0 where
  pub stat : Bytes → Action W (Unit {0})
  pub read_file : Bytes → Action W Bytes
  pub create : Bytes → Action W (Unit {0})
  pub write : Bytes → Bytes → Action W (Unit {0})
  pub sync : Bytes → Action W (Unit {0})
  pub generate : Action W K
  pub raw : K → Outcome Bytes
  pub unmarshal : Bytes → Outcome K

module _ {W K : Type 0} (keys : Keyring W K) where
  -- The lines from the generation of a key on.
  abbrev pub create_key : Bytes → Action W K
  create_key path = do
    key ← keys.generate
    b ← lift (λ _. keys.raw key)
    keys.create path
    keys.write path b
    keys.sync path
    pure key

  -- The content of a file that is there; an empty one is written anew.
  abbrev pub use_content : Bytes → Bytes → Action W K
  use_content path [] = create_key path
  use_content path (c ∷ content) = lift (λ _. keys.unmarshal (c ∷ content))

  -- `Identification`
  unfoldable pub identification : Bytes → Action W K
  identification path =
      or_else (keys.stat path) (λ _. keys.read_file path >>= use_content path) (create_key path)

-- `strings.TrimPrefix(s, p)`
unfoldable pub trim_after : Bytes → Bytes → Option Bytes
trim_after s [] = some s
trim_after [] (y ∷ p) = none
trim_after (x ∷ s) (y ∷ p) = let rest = trim_after s p in if x == y then rest else none

abbrev pub trim_prefix : Bytes → Bytes → Bytes
trim_prefix s p = elim (trim_after s p) [ none ↦ s | some rest ↦ rest ]

-- `strings.Count(s, "=")`
unfoldable pub count_byte : ℕ → Bytes → ℕ
count_byte c [] = 0
count_byte c (x ∷ s) = (if x == c then 1 else 0) + count_byte c s

-- An address over TCP and IPv4, as the records of a domain spell it.
abbrev pub is_tcp : Bytes → Bool
is_tcp v = contains v (codes "ip4") && contains v (codes "tcp")

abbrev pub dns_addr : Bytes
dns_addr = codes "dnsaddr="

-- The loop over the records of the domain.
unfoldable pub direct_addrs : List Bytes → List Bytes
direct_addrs [] = []
direct_addrs (v ∷ vs) =
    let rest = direct_addrs vs in if is_tcp v then trim_prefix v dns_addr ∷ rest else rest

-- The last two elements of a domain, with a dot between them; an index below 0 panics.
unfoldable pub domain_name : List Bytes → Outcome Bytes
domain_name [] = panic
domain_name (a ∷ []) = panic
domain_name (a ∷ b ∷ []) = ok (a ++ (b'.' ∷ b))
domain_name (a ∷ b ∷ c ∷ rest) = domain_name (b ∷ c ∷ rest)

-- The first element of a record that has the domain's name.
unfoldable pub real_dns_of : Bytes → List Bytes → Option Bytes
real_dns_of name [] = none
real_dns_of name (vv ∷ vvs) =
    let rest = real_dns_of name vvs in if contains vv name then some vv else rest

unfoldable pub real_dns : Bytes → List Bytes → List Bytes
unfolding real_dns_of
real_dns name [] = []
real_dns name (v ∷ vs) = elim (real_dns_of name (split v)) [
  | none ↦ real_dns name vs
  | some vv ↦ vv ∷ real_dns name vs
]

-- The inner loop over the records of one of these names.
unfoldable pub indirect_addrs : List Bytes → List Bytes
unfolding count_byte
indirect_addrs [] = []
indirect_addrs (v ∷ vs) =
    let rest = indirect_addrs vs in
    if is_tcp v && count_byte b'=' v == 1 then trim_prefix v dns_addr ∷ rest else rest

-- Whether a text is a multiaddress of a peer, by `NewMultiaddr` and `AddrInfoFromP2pAddr`; `LookupTXT`.
pub record Dns (W : Type 0) : Type 0 where
  pub is_peer_addr : Bytes → Bool
  pub lookup_txt : Bytes → Action W (List Bytes)

module _ {W : Type 0} (dns : Dns W) where
  -- The loop over the names; a lookup that fails is passed over.
  unfoldable pub resolve_all : List Bytes → List Bytes → Action W (List Bytes)
  unfolding indirect_addrs
  resolve_all [] result = pure result
  resolve_all (v ∷ vs) result =
      or_else (dns.lookup_txt (codes "_dnsaddr." ++ v))
        (λ dnses. resolve_all vs (result ++ indirect_addrs dnses)) (resolve_all vs result)

  -- `ParseMultiaddrs`
  unfoldable pub parse_multiaddrs : Bytes → Action W (List Bytes)
  unfolding resolve_all real_dns domain_name direct_addrs
  parse_multiaddrs domain = if dns.is_peer_addr domain then pure (domain ∷ []) else (do
    names ← dns.lookup_txt domain
    name ← lift (λ _. domain_name (split_from b'.' [] domain))
    resolve_all (real_dns name names) (direct_addrs names))
