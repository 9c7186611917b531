-- ===== src/Peers/Tests.antt =====
-- A file for the key, and the theorems about the node at concrete inputs.
use cess_dcdn_components.Base.Text.{contains, has_prefix, split_from, text_eq}
use cess_dcdn_components.Peers.Addresses.{Resolved, parse_multiaddrs-Resolved}
use cess_dcdn_components.Peers.{Dns, parse_multiaddrs, trim_after, Keyring, identification}
use cess_dcdn_components.Peers.Identity.{IsKeyring, identification_stable}
use cess_dcdn_components.Base.{
  List, false, if◌then◌else◌, panic, Bytes, Option, Outcome, [], codes, err, none, ok, refl, some,
  ℕ, ◌++◌, ◌∷◌, ◌≡◌,
}

abbrev key_file : Option Bytes → Option Bytes
key_file w = w

abbrev some_or : Option Bytes → Bytes
some_or none = []
some_or (some b) = b

-- A key is a number, whose bytes are one byte.
abbrev number_of : Bytes → Outcome ℕ
number_of [] = err (codes "bad key")
number_of (n ∷ ns) = ok n

abbrev memory_keys : Keyring (Option Bytes) ℕ
memory_keys = record {
  stat = λ p w. (elim w [ none ↦ err [] | some b ↦ ok tt ], w);
  read_file = λ p w. (ok (some_or w), w);
  create = λ p w. (ok tt, some []);
  write = λ p b w. (ok tt, some (some_or w ++ b));
  sync = λ p w. (ok tt, w);
  generate = λ w. (ok 7, w);
  raw = λ k. ok (k ∷ []);
  unmarshal = number_of;
}

number-raw : (k : ℕ) (b : Bytes) → ok (k ∷ []) ≡ ok b → number_of b ≡ ok k
number-raw k b e = let same : k ∷ [] ≡ b = cc in rw (← same) refl

memory_keys-IsKeyring : IsKeyring memory_keys (codes "key") key_file
memory_keys-IsKeyring = record {
  stat_some = λ w b h. rw h refl;
  stat_none = λ w h. ([], rw h refl);
  read_some = λ w b h. rw h refl;
  created = λ w. refl;
  written = λ b w h. rw h refl;
  synced = λ b w h. h;
  unmarshal-raw = λ k b e. number-raw k b e;
  raw_some = λ k b e. λ n. cc;
}

identification_stable_example : (identification memory_keys (codes "key") (some (7 ∷ []))).0 ≡ ok 7
unfolding identification
identification_stable_example =
    identification_stable memory_keys (codes "key") key_file memory_keys-IsKeyring 7 none
      (some (7 ∷ [])) refl

-- A domain with one record, whose name has one more.
abbrev record_of : Bytes → List Bytes
record_of d =
    if text_eq d (codes "boot.cess.cloud")
    then codes "dnsaddr=/dnsaddr/a.cess.cloud" ∷ []
    else codes "dnsaddr=/ip4/1.2.3.4/tcp/80" ∷ []

abbrev memory_dns : Dns (Unit {0})
memory_dns = record { is_peer_addr = λ d. false; lookup_txt = λ d w. (ok (record_of d), w) }

parse_run :
    (parse_multiaddrs memory_dns (codes "boot.cess.cloud") tt).0
    ≡ ok (codes "/ip4/1.2.3.4/tcp/80" ∷ [])
unfolding parse_multiaddrs text_eq contains split_from trim_after has_prefix
parse_run = refl

-- A domain without a dot that has records panics.
parse_panics : (parse_multiaddrs memory_dns (codes "localhost") tt).0 ≡ panic
unfolding parse_multiaddrs text_eq contains split_from trim_after has_prefix
parse_panics = refl

parse_multiaddrs-Resolved_example :
    Resolved memory_dns
      (codes "boot.cess.cloud")
      (parse_multiaddrs memory_dns (codes "boot.cess.cloud") tt)
parse_multiaddrs-Resolved_example =
    parse_multiaddrs-Resolved memory_dns (λ d w. tt) (codes "boot.cess.cloud") tt
