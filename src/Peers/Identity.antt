-- ===== src/Peers/Identity.antt =====
-- The node keeps its key.
use cess_dcdn_components.Transfer.Storage.{or_else_err, or_else_ok}
use cess_dcdn_components.Peers.{Keyring, create_key, identification, use_content}
use cess_dcdn_components.Base.{
  Action, Bytes, Option, Option-cases, Outcome, [], bind_ok, err, inl, inr, lift, next, none, ok,
  panic, pure, refl, some, ◌>>=◌, ◌∙◌, ◌∷◌, ◌≡◌, ◌≢◌,
}

module _ {W K : Type 0} (keys : Keyring W K) (path : Bytes) (file : W → Option Bytes) where
  -- A call that succeeds leaves a state of which something holds.
  abbrev pub After : {A : Type 0} → (W → Type 0) → Outcome A × W → Type 0
  After P (ok a, w) = P w
  After P (err e, w) = Unit
  After P (panic, w) = Unit

  -- What the operating system promises of the file at the path, whose content is `file`, and Ed25519 of
  -- a key's bytes.
  pub record IsKeyring : Type 0 where
    pub stat_some : (w : W) (b : Bytes) → file w ≡ some b → keys.stat path w ≡ (ok tt, w)
    pub stat_none : (w : W) → file w ≡ none → (e : Bytes) × (keys.stat path w ≡ (err e, w))
    pub read_some : (w : W) (b : Bytes) → file w ≡ some b → keys.read_file path w ≡ (ok b, w)
    pub created : (w : W) → After (λ v. file v ≡ some []) (keys.create path w)
    pub written :
        (b : Bytes) (w : W) → file w ≡ some [] → After (λ v. file v ≡ some b) (keys.write path b w)
    pub synced :
        (b : Bytes) (w : W) → file w ≡ some b → After (λ v. file v ≡ some b) (keys.sync path w)
    pub unmarshal-raw : (k : K) (b : Bytes) → keys.raw k ≡ ok b → keys.unmarshal b ≡ ok k
    pub raw_some : (k : K) (b : Bytes) → keys.raw k ≡ ok b → b ≢ []

  -- The file holds the bytes of the key that is answered.
  abbrev Holds : K → W → Type 0
  Holds k w = (b : Bytes) × (b ≢ []) × (file w ≡ some b) × (keys.unmarshal b ≡ ok k)

  abbrev Kept : Outcome K × W → Type 0
  Kept (ok k, w) = Holds k w
  Kept (err e, w) = Unit
  Kept (panic, w) = Unit

  After-Kept :
      (P : W → Type 0) (k : Action W K) (r : Outcome (Unit {0}) × W)
      → After P r
      → ((w : W) → P w → Kept (k w))
      → Kept (next (λ _. k) r)
  After-Kept P k (ok u, w) h f = f w h
  After-Kept P k (err e, w) h f = tt
  After-Kept P k (panic, w) h f = tt

  module _ (law : IsKeyring) where
    store_key-Kept :
        (key : K) (o : Outcome Bytes) (w : W)
        → keys.raw key ≡ o
        → Kept (
            next
              (λ b. keys.create path >>= λ _.
                keys.write path b >>= λ _. keys.sync path >>= λ _. pure key)
              (o, w))
    store_key-Kept key (ok b) w e =
        After-Kept (λ v. file v ≡ some [])
          (keys.write path b >>= λ _. keys.sync path >>= λ _. pure key) (keys.create path w)
          (law.created w)
          (λ v h.
            After-Kept (λ u. file u ≡ some b) (keys.sync path >>= λ _. pure key)
              (keys.write path b v) (law.written b v h)
              (λ u h'.
                After-Kept (λ t. file t ≡ some b) (pure key) (keys.sync path u) (law.synced b u h')
                  (λ t h''. (b, law.raw_some key b e, h'', law.unmarshal-raw key b e))))
    store_key-Kept key (err x) w e = tt
    store_key-Kept key panic w e = tt

    generated-Kept :
        (r : Outcome K × W)
        → Kept (
            next
              (λ key. lift (λ _. keys.raw key) >>= λ b. keys.create path >>= λ _.
                keys.write path b >>= λ _. keys.sync path >>= λ _. pure key)
              r)
    generated-Kept (ok key, w) = store_key-Kept key (keys.raw key) w refl
    generated-Kept (err e, w) = tt
    generated-Kept (panic, w) = tt

    create_key-Kept : (w : W) → Kept (create_key keys path w)
    create_key-Kept w = generated-Kept (keys.generate w)

    found-Kept :
        (b : Bytes) (w : W) (o : Outcome K)
        → b ≢ []
        → file w ≡ some b
        → keys.unmarshal b ≡ o
        → Kept (o, w)
    found-Kept b w (ok k) ne h e = (b, ne, h, e)
    found-Kept b w (err x) ne h e = tt
    found-Kept b w panic ne h e = tt

    use_content-Kept : (b : Bytes) (w : W) → file w ≡ some b → Kept (use_content keys path b w)
    use_content-Kept [] w h = create_key-Kept w
    use_content-Kept (c ∷ b) w h = found-Kept (c ∷ b) w (keys.unmarshal (c ∷ b)) (λ e. cc) h refl

    -- What `Identification` does with the file's content.
    identification-some :
        (w : W) (b : Bytes)
        → file w ≡ some b
        → identification keys path w ≡ use_content keys path b w
    unfolding identification
    identification-some w b h =
        or_else_ok (keys.stat path) (λ _. keys.read_file path >>= use_content keys path)
          (create_key keys path) (law.stat_some w b h)
        ∙ bind_ok (keys.read_file path) (use_content keys path) (law.read_some w b h)

    identification-none :
        (w : W) → file w ≡ none → identification keys path w ≡ create_key keys path w
    unfolding identification
    identification-none w h =
        or_else_err (keys.stat path) (λ _. keys.read_file path >>= use_content keys path)
          (create_key keys path) (law.stat_none w h).1

    identification-Kept : (w : W) → Kept (identification keys path w)
    identification-Kept w = elim (Option-cases (file w)) [
      | inl h ↦ rw (identification-none w h) (create_key-Kept w)
      | inr h ↦ rw (identification-some w h.0 h.1) (use_content-Kept h.0 w h.1)
    ]

    use_content_key :
        (b : Bytes) (k : K) (w : W)
        → b ≢ []
        → keys.unmarshal b ≡ ok k
        → (use_content keys path b w).0 ≡ ok k
    use_content_key [] k w ne e = absurd (ne refl)
    use_content_key (c ∷ b) k w ne e = e

    -- Once `Identification` has answered with a key, new or old, it answers with the same key again.
    pub identification_stable :
        (k : K) (w w' : W)
        → identification keys path w ≡ (ok k, w')
        → (identification keys path w').0 ≡ ok k
    identification_stable k w w' e =
        let (b, ne, h, u) = rw e at (identification-Kept w) in
        rw (identification-some w' b h) (use_content_key b k w' ne u)
