-- ===== src/Peers/Addresses.antt =====
-- Which addresses `ParseMultiaddrs` finds.
use cess_dcdn_components.Base.Text.{split_from}
use cess_dcdn_components.Transfer.Storage.{or_else}
use cess_dcdn_components.Peers.{
  trim_after, Dns, count_byte, direct_addrs, dns_addr, domain_name, indirect_addrs, is_tcp,
  parse_multiaddrs, real_dns, resolve_all, trim_prefix,
}
use cess_dcdn_components.Base.{
  Option, false, get_elem?, length, none, some, suc, ℕ, ◌≢◌, ◌≤◌, Action, All, All-append,
  Bool-cases, Bytes, List, Outcome, [], arith, codes, err, inl, inr, lift, next, ok, panic, refl,
  true, ◌&&◌, ◌++◌, ◌==◌, ◌>>=◌, ◌∷◌, ◌≡◌, ◌⊎◌,
}

-- A domain without a dot.
abbrev pub NoDot : Bytes → Type 0
NoDot = All (λ c. (c == b'.') ≡ false)

split_from-some : (field s : Bytes) → 1 ≤ length (split_from b'.' field s)
unfolding split_from
split_from-some field [] = omega arith
split_from-some field (c ∷ s) = ground (arith, split_from-some (field ++ (c ∷ [])) s)

split_from-NoDot : (field s : Bytes) → length (split_from b'.' field s) ≤ 1 → NoDot s
unfolding split_from
split_from-NoDot field [] h = tt
split_from-NoDot field (c ∷ s) h = elim (Bool-cases (c == b'.')) [
  | inl dot ↦ absurd (let le = rw dot at h in omega (arith, le, split_from-some [] s))
  | inr other ↦ (other, split_from-NoDot (field ++ (c ∷ [])) s (rw other at h))
]

domain_name-two : (a b : Bytes) (ps : List Bytes) → domain_name (a ∷ b ∷ ps) ≢ panic
unfolding domain_name
domain_name-two a b [] h = cc
domain_name-two a b (c ∷ ps) h = domain_name-two b c ps h

domain_name-panic : (ps : List Bytes) → domain_name ps ≡ panic → length ps ≤ 1
domain_name-panic [] h = omega arith
domain_name-panic (a ∷ []) h = omega arith
domain_name-panic (a ∷ b ∷ ps) h = absurd (domain_name-two a b ps h)

-- `r` is what follows the prefix in `v`, or all of `v` where it does not begin with it.
abbrev pub Trimmed : Bytes → Bytes → Bytes → Type 0
Trimmed p v r = (v ≡ p ++ r) ⊎ (((rest : Bytes) → v ≢ p ++ rest) × (r ≡ v))

trim_after-some : (s p rest : Bytes) → trim_after s p ≡ some rest → s ≡ p ++ rest
unfolding trim_after
trim_after-some s [] rest h = cc
trim_after-some [] (y ∷ p) rest h = cc
trim_after-some (x ∷ s) (y ∷ p) rest h = elim (Bool-cases (x == y)) [
  | inl same ↦
      let e = trim_after-some s p rest (rw same at h) in
      let head : x ≡ y = ground (arith, same) in rw (head, e) refl
  | inr differ ↦ absurd (let n = rw differ at h in cc)
]

trim_after-none : (s p : Bytes) → trim_after s p ≡ none → (rest : Bytes) → s ≢ p ++ rest
unfolding trim_after
trim_after-none s [] h rest e = cc
trim_after-none [] (y ∷ p) h rest e = cc
trim_after-none (x ∷ s) (y ∷ p) h rest e =
    let head : x ≡ y = cc in
    let tail : s ≡ p ++ rest = cc in
    let same : (x == y) ≡ true = ground (arith, head) in
    trim_after-none s p (rw same at h) rest tail

trim_prefix-Trimmed : (v p : Bytes) → Trimmed p v (trim_prefix v p)
trim_prefix-Trimmed v p = trimmed_by (trim_after v p) refl
  where
    trimmed_by :
        (o : Option Bytes)
        → trim_after v p ≡ o
        → Trimmed p v (elim o [ none ↦ v | some rest ↦ rest ])
    trimmed_by none e = inr (trim_after-none v p e, refl)
    trimmed_by (some rest) e = inl (trim_after-some v p rest e)

-- The end of a record among these that names an address over TCP and IPv4.
abbrev pub UsefulOf : (Bytes → Type 0) → Bytes → Type 0
UsefulOf Known r = (v : Bytes) × Known v × (is_tcp v ≡ true) × Trimmed dns_addr v r

module _ (Known : Bytes → Type 0) where
  direct_addrs-Useful : (vs : List Bytes) → All Known vs → All (UsefulOf Known) (direct_addrs vs)
  unfolding direct_addrs
  direct_addrs-Useful [] k = tt
  direct_addrs-Useful (v ∷ vs) k = elim (Bool-cases (is_tcp v)) [
    | inl tcp ↦ rw tcp ((v, k.0, tcp, trim_prefix-Trimmed v dns_addr), direct_addrs-Useful vs k.1)
    | inr differs ↦ rw differs (direct_addrs-Useful vs k.1)
  ]

  indirect_addrs-Useful :
      (vs : List Bytes) → All Known vs → All (UsefulOf Known) (indirect_addrs vs)
  unfolding indirect_addrs
  indirect_addrs-Useful [] k = tt
  indirect_addrs-Useful (v ∷ vs) k = elim (Bool-cases (is_tcp v && count_byte b'=' v == 1)) [
    | inl tcp ↦
        rw tcp ((v, k.0, tcp_of tcp, trim_prefix-Trimmed v dns_addr), indirect_addrs-Useful vs k.1)
    | inr differs ↦ rw differs (indirect_addrs-Useful vs k.1)
  ]
    where
      tcp_of : is_tcp v && count_byte b'=' v == 1 ≡ true → is_tcp v ≡ true
      tcp_of h = ground (arith, h)

-- Each element of a list is at some place of it.
All-get :
    {P : Bytes → Type 0} (xs : List Bytes)
    → ((k : ℕ) (x : Bytes) → get_elem? xs k ≡ some x → P x)
    → All P xs
All-get [] f = tt
All-get (x ∷ xs) f = (f 0 x refl, All-get xs (λ k y e. f (suc k) y e))

module _ {W : Type 0} (dns : Dns W) where
  -- A lookup of TXT records answers with the record.
  pub record IsRecord (v : Bytes) : Type 0 where
    pub name : Bytes
    pub asked : W
    pub answer : List Bytes
    pub place : ℕ
    pub found : (dns.lookup_txt name asked).0 ≡ ok answer
    pub listed : get_elem? answer place ≡ some v

  abbrev pub Useful : Bytes → Type 0
  Useful = UsefulOf IsRecord

  -- The addresses that were found: the domain itself, or ends of records. A domain without a dot panics.
  abbrev pub Resolved : Bytes → Outcome (List Bytes) × W → Type 0
  Resolved domain (ok rs, w) =
      ((dns.is_peer_addr domain ≡ true) × (rs ≡ domain ∷ [])) ⊎ All Useful rs
  Resolved domain (err e, w) = Unit
  Resolved domain (panic, w) = NoDot domain

  abbrev AllUseful : Outcome (List Bytes) × W → Type 0
  AllUseful (ok rs, w) = All Useful rs
  AllUseful (err e, w) = Unit
  AllUseful (panic, w) = ⊥

  -- The records of an answer.
  abbrev Answers : Outcome (List Bytes) → Type 0
  Answers (ok vs) = All IsRecord vs
  Answers (err e) = Unit
  Answers panic = Unit

  lookup_txt-Answers :
      (name : Bytes) (w : W) (o : Outcome (List Bytes)) → (dns.lookup_txt name w).0 ≡ o → Answers o
  lookup_txt-Answers name w (ok vs) e =
      All-get vs
        (λ k v h. record { name = name; asked = w; answer = vs; place = k; found = e; listed = h })
  lookup_txt-Answers name w (err x) e = tt
  lookup_txt-Answers name w panic e = tt

  abbrev pub NoPanic : Outcome (List Bytes) × W → Type 0
  NoPanic (panic, w) = ⊥
  NoPanic _ = Unit

  or_else-AllUseful :
      (r : Outcome (List Bytes) × W) (f : List Bytes → Action W (List Bytes))
      (g : Action W (List Bytes))
      → NoPanic r
      → Answers r.0
      → ((vs : List Bytes) (w : W) → All IsRecord vs → AllUseful (f vs w))
      → ((w : W) → AllUseful (g w))
      → AllUseful (or_else (λ _. r) f g r.1)
  or_else-AllUseful (ok vs, w) f g n a hf hg = hf vs w a
  or_else-AllUseful (err e, w) f g n a hf hg = hg w
  or_else-AllUseful (panic, w) f g n a hf hg = absurd n

  module _ (returns : (d : Bytes) (w : W) → NoPanic (dns.lookup_txt d w)) where
    resolve_all-AllUseful :
        (vs rs : List Bytes) (w : W) → All Useful rs → AllUseful (resolve_all dns vs rs w)
    unfolding resolve_all
    resolve_all-AllUseful [] rs w h = h
    resolve_all-AllUseful (v ∷ vs) rs w h =
        or_else-AllUseful (dns.lookup_txt (codes "_dnsaddr." ++ v) w)
          (λ dnses. resolve_all dns vs (rs ++ indirect_addrs dnses)) (resolve_all dns vs rs)
          (returns (codes "_dnsaddr." ++ v) w)
          (lookup_txt-Answers (codes "_dnsaddr." ++ v) w _ refl)
          (λ dnses u k. resolve_all-AllUseful vs (rs ++ indirect_addrs dnses) u (
            All-append Useful rs (indirect_addrs dnses) h (indirect_addrs-Useful IsRecord dnses k)))
          (λ u. resolve_all-AllUseful vs rs u h)

    useful-Resolved :
        (domain : Bytes) (r : Outcome (List Bytes) × W) → AllUseful r → Resolved domain r
    useful-Resolved domain (ok rs, w) h = inr h
    useful-Resolved domain (err e, w) h = tt
    useful-Resolved domain (panic, w) h = absurd h

    named-Resolved :
        (domain : Bytes) (names : List Bytes) (o : Outcome Bytes) (w : W)
        → All IsRecord names
        → domain_name (split_from b'.' [] domain) ≡ o
        → Resolved domain
            (next (λ name. resolve_all dns (real_dns name names) (direct_addrs names)) (o, w))
    named-Resolved domain names (ok name) w k e =
        useful-Resolved domain (resolve_all dns (real_dns name names) (direct_addrs names) w) (
          resolve_all-AllUseful (real_dns name names) (direct_addrs names) w
            (direct_addrs-Useful IsRecord names k))
    named-Resolved domain names (err x) w k e = tt
    named-Resolved domain names panic w k e =
        split_from-NoDot [] domain (domain_name-panic (split_from b'.' [] domain) e)

    looked_up-Resolved :
        (domain : Bytes) (r : Outcome (List Bytes) × W)
        → NoPanic r
        → Answers r.0
        → Resolved domain (
            next
              (λ names. lift (λ _. domain_name (split_from b'.' [] domain)) >>= λ name.
                resolve_all dns (real_dns name names) (direct_addrs names))
              r)
    looked_up-Resolved domain (ok names, w) n a =
        named-Resolved domain names (domain_name (split_from b'.' [] domain)) w a refl
    looked_up-Resolved domain (err e, w) n a = tt
    looked_up-Resolved domain (panic, w) n a = absurd n

    -- If lookups do not panic, the addresses that `ParseMultiaddrs` answers with are the domain itself,
    -- where it is the address of a peer, or each is what follows "dnsaddr=" in a TXT record that a
    -- lookup answers with and that names an address over TCP and IPv4, or all of such a record if it does
    -- not begin so; and it panics only for a domain without a dot.
    pub parse_multiaddrs-Resolved :
        (domain : Bytes) (w : W) → Resolved domain (parse_multiaddrs dns domain w)
    unfolding parse_multiaddrs
    parse_multiaddrs-Resolved domain w = elim (Bool-cases (dns.is_peer_addr domain)) [
      | inl peer ↦ rw peer (inl (peer, refl))
      | inr differs ↦ rw differs (
          looked_up-Resolved domain (dns.lookup_txt domain w) (returns domain w)
            (lookup_txt-Answers domain w _ refl))
    ]
