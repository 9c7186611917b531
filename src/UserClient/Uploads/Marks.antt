-- ===== src/UserClient/Uploads/Marks.antt =====
-- Which groups a round of `UploadServer` finds on chain, and what it does with one group.
use cess_dcdn_components.Transfer.Storage.{or_else}
use cess_dcdn_components.UserClient.Cachers.{is_cached}
use cess_dcdn_components.UserClient.Uploads.{
  give, mark_one, refuse, Uplink, UploadStats, default_task_interval, send_fragments, send_group,
  send_one, Complete, UploadGroup, mark_complete,
}
use cess_dcdn_components.Base.{
  pure, ◌∙◌, Action, Bool-cases, Bytes, Option, Outcome, err, inl, inr, ltb, next, none, not, ok,
  panic, refl, some, ◌&&◌, ◌-◌, Bool, List, [], arith, false, if◌then◌else◌, true, ℕ, ◌+◌, ◌==◌,
  ◌||◌, ◌∷◌, ◌≡◌,
}

-- The order's list names the group.
unfoldable pub listed : ℕ → List Complete → Bool
listed i [] = false
listed i (c ∷ cs) = c.index == i || listed i cs

-- How many groups were on chain before or are named by the order's list, from the group `i` on.
unfoldable pub confirmed : ℕ → List Complete → List UploadGroup → ℕ
confirmed i cs [] = 0
confirmed i cs (g ∷ gs) = (if g.on_chain || listed i cs then 1 else 0) + confirmed (i + 1) cs gs

-- A group that is on chain has been saved.
abbrev pub IsSaved : UploadGroup → Type 0
IsSaved g = g.on_chain ≡ true → g.saved ≡ true

-- The groups after a round: on chain is who was or is named now.
abbrev pub Marked : ℕ → List Complete → List UploadGroup → List UploadGroup → Type 0
Marked i cs [] [] = Unit
Marked i cs [] (h ∷ hs) = ⊥
Marked i cs (g ∷ gs) [] = ⊥
Marked i cs (g ∷ gs) (h ∷ hs) =
    (h.on_chain ≡ g.on_chain || listed i cs) × (IsSaved g → IsSaved h) × Marked (i + 1) cs gs hs

mark_one_lem :
    (now i : ℕ) (c : Complete) (g : UploadGroup)
    → ((mark_one now i c g).on_chain ≡ g.on_chain || c.index == i)
      × (IsSaved g → IsSaved (mark_one now i c g))
mark_one_lem now i c g = elim (Bool-cases (c.index == i && not g.on_chain)) [
  | inl holds ↦ rw holds (ground arith, λ h o. refl)
  | inr fails ↦ rw fails (ground arith, λ h. h)
]

mark_complete_lem :
    (now i : ℕ) (cs : List Complete) (g : UploadGroup)
    → ((mark_complete now i cs g).on_chain ≡ g.on_chain || listed i cs)
      × (IsSaved g → IsSaved (mark_complete now i cs g))
unfolding mark_complete listed
mark_complete_lem now i [] g = (ground arith, λ h. h)
mark_complete_lem now i (c ∷ cs) g =
    let (e, k) = mark_one_lem now i c g in
    let (e', k') = mark_complete_lem now i cs (mark_one now i c g) in
    (e' ∙ ground (arith, e), λ h. k' (k h))

module _ {W : Type 0} (up : Uplink W) (shards : ℕ) where
  -- What the loop makes of one group.
  abbrev pub OneSent :
      ℕ → List Complete → UploadGroup → Outcome (ℕ × UploadGroup × List Bytes) × W → Type 0
  OneSent i cs g (ok (n, h, ps), w) =
      (n ≡ (if g.on_chain || listed i cs then 1 else 0))
      × (h.on_chain ≡ g.on_chain || listed i cs)
      × (IsSaved g → IsSaved h)
  OneSent i cs g (err e, w) = ⊥
  OneSent i cs g (panic, w) = Unit

  -- A call that does not answer with an error.
  abbrev pub NoError : {A : Type 0} → Outcome A × W → Type 0
  NoError (ok a, w) = Unit
  NoError (err e, w) = ⊥
  NoError (panic, w) = Unit

  pub or_else-NoError :
      {A B : Type 0} (r : Outcome A × W) (f : A → Action W B) (g : Action W B)
      → ((a : A) (w : W) → NoError (f a w))
      → ((w : W) → NoError (g w))
      → NoError (or_else (λ _. r) f g r.1)
  or_else-NoError (ok a, w) f g hf hg = hf a w
  or_else-NoError (err e, w) f g hf hg = hg w
  or_else-NoError (panic, w) f g hf hg = tt

  send_group-NoError :
      (i : ℕ) (task : UploadStats) (held ps : List Bytes) (w : W)
      → NoError (send_group up shards i task held ps w)
  unfolding send_group
  send_group-NoError i task held [] w = tt
  send_group-NoError i task held (p ∷ ps) w = elim (Bool-cases (is_cached p held)) [
    | inl holds ↦ rw holds (send_group-NoError i task held ps w)
    | inr fails ↦ rw fails (
        or_else-NoError (up.connect p w)
          (λ _. give up shards i task p ps (send_group up shards i task held ps))
          (refuse up shards p (send_group up shards i task held ps))
          (λ _ v.
            or_else-NoError (send_fragments up shards i p task.file_hash task.segment_info v)
              (λ _. pure (some p, ps)) (refuse up shards p (send_group up shards i task held ps))
              (λ _ _. tt) (λ v. send_group-NoError i task held ps (up.feedback p false v)))
          (λ v. send_group-NoError i task held ps (up.feedback p false v)))
  ]

  sent_to :
      (i : ℕ) (cs : List Complete) (g h : UploadGroup) (r : Outcome (Option Bytes × List Bytes) × W)
      → (h.on_chain ≡ g.on_chain || listed i cs)
      → (IsSaved g → IsSaved h)
      → h.on_chain ≡ false
      → NoError r
      → OneSent i cs g (
          next
            (λ r v. elim r.0 [
              | none ↦ (ok (0, h, r.1), v)
              | some p ↦
                  (ok (0, record h { saved = true; peer_id = p; flush_time = up.now v }, r.1), v)
            ])
            r)
  sent_to i cs g h (ok (none, ps), v) e k f n = (rw (← e, f) refl, e, k)
  sent_to i cs g h (ok (some p, ps), v) e k f n = (rw (← e, f) refl, e, λ _ _. refl)
  sent_to i cs g h (err x, v) e k f n = absurd n
  sent_to i cs g h (panic, v) e k f n = tt

  pub send_one_sent :
      (i : ℕ) (task : UploadStats) (held : List Bytes) (cs : List Complete) (g : UploadGroup)
      (ps : List Bytes) (w : W)
      → OneSent i cs g (send_one up shards i task held cs g ps w)
  unfolding send_one
  send_one_sent i task held cs g ps w =
      let h = mark_complete (up.now w) i cs g in
      let (e, k) = mark_complete_lem (up.now w) i cs g in
      elim (Bool-cases h.on_chain) [
        | inl holds ↦ rw holds (rw (← e, holds) refl, e, k)
        | inr fails ↦
            (elim (Bool-cases (h.saved && ltb (up.now w - h.flush_time) default_task_interval)) [
              | inl fresh ↦ rw (fails, fresh) (rw (← e, fails) refl, e, k)
              | inr stale ↦
                  rw (fails, stale)
                    (sent_to i cs g h (send_group up shards i task held ps w) e k fails
                      (send_group-NoError i task held ps w))
            ])
      ]
