-- ===== src/Resource/Progress.antt =====
-- How far the loop of `DownloadStoragedFiles` gets.
use cess_dcdn_components.Resource.Neighbors.{
  announce, query_segment_from_neighbor_cacher, shared_segment_from_neighbor_cacher,
}
use cess_dcdn_components.Resource.{ResourceActor}
use cess_dcdn_components.Resource.Download.{
  keep_fragment, Loop, count_segment, fetch_from_storage, fetch_known, fetch_segment, fetch_shared,
  fetch_stored, fetch_stored_fragments,
}
use cess_dcdn_components.Transfer.Storage.{Fragment, Segment, or_else}
use cess_dcdn_components.Cacher.{DownloadResponse}
use cess_dcdn_components.Base.Dict.{Dict}
use cess_dcdn_components.Types.{CacheResponse}
use cess_dcdn_components.Base.{
  Action, Bool-cases, Bytes, List, Option, Outcome, [], arith, err, inl, inr, leb, length, none, ok,
  panic, pure, refl, some, ℕ, ◌+◌, ◌>>=◌, ◌∷◌, ◌≡◌, ◌≤◌,
}

module _ {W : Type 0} (ra : ResourceActor W) (acc fhash shash : Bytes) where
  -- The number of fetched segments stays or goes up by one, and the mark stays.
  abbrev pub Counts : Loop → Outcome Loop × W → Type 0
  Counts st (ok st', w) = (st'.done ≡ st.done) × (st.num ≤ st'.num) × (st'.num ≤ st.num + 1)
  Counts st (err e, w) = Unit
  Counts st (panic, w) = Unit

  or_else-Counts :
      {A : Type 0} (st : Loop) (r : Outcome A × W) (f : A → Action W Loop) (g : Action W Loop)
      (w : W)
      → ((a : A) (v : W) → Counts st (f a v))
      → ((v : W) → Counts st (g v))
      → Counts st (or_else (λ _. r) f g w)
  or_else-Counts st (ok a, v) f g w hf hg = hf a v
  or_else-Counts st (err e, v) f g w hf hg = hg v
  or_else-Counts st (panic, v) f g w hf hg = tt

  bind-Counts :
      {A : Type 0} (st : Loop) (r : Outcome A × W) (f : A → Action W Loop) (w : W)
      → ((a : A) (v : W) → Counts st (f a v))
      → Counts st (((λ (_ : W). r) >>= f) w)
  bind-Counts st (ok a, v) f w hf = hf a v
  bind-Counts st (err e, v) f w hf = tt
  bind-Counts st (panic, v) f w hf = tt

  -- The loop over the fragments leaves the number and the mark alone.
  abbrev Steady : Loop → Outcome Loop × W → Type 0
  Steady st (ok st', w) = (st'.done ≡ st.done) × (st'.num ≡ st.num)
  Steady st (err e, w) = Unit
  Steady st (panic, w) = Unit

  or_else-Steady :
      {A : Type 0} (st : Loop) (r : Outcome A × W) (f : A → Action W Loop) (g : Action W Loop)
      (w : W)
      → ((a : A) (v : W) → Steady st (f a v))
      → ((v : W) → Steady st (g v))
      → Steady st (or_else (λ _. r) f g w)
  or_else-Steady st (ok a, v) f g w hf hg = hf a v
  or_else-Steady st (err e, v) f g w hf hg = hg v
  or_else-Steady st (panic, v) f g w hf hg = tt

  bind-Steady :
      {A : Type 0} (st : Loop) (r : Outcome A × W) (f : A → Action W Loop) (w : W)
      → ((a : A) (v : W) → Steady st (f a v))
      → Steady st (((λ (_ : W). r) >>= f) w)
  bind-Steady st (ok a, v) f w hf = hf a v
  bind-Steady st (err e, v) f w hf = tt
  bind-Steady st (panic, v) f w hf = tt

  fetch_stored_fragments-Steady :
      (fs : List Fragment) (count : ℕ) (st : Loop) (w : W)
      → Steady st (fetch_stored_fragments ra acc fhash shash fs count st w)
  unfolding fetch_stored_fragments
  fetch_stored_fragments-Steady [] count st w = (refl, refl)
  fetch_stored_fragments-Steady (f ∷ fs) count st w =
      elim (Bool-cases (leb ra.sdk.data_shards count)) [
        | inl enough ↦ rw enough (refl, refl)
        | inr few ↦ rw few (
            or_else-Steady st (fetch_stored ra acc fhash shash f w)
              (λ _. announce ra shash st.provided >>= λ provided.
                fetch_stored_fragments ra acc fhash shash fs (count + 1)
                  (keep_fragment ra acc fhash shash st f.hash provided))
              (fetch_stored_fragments ra acc fhash shash fs count st) w
              (λ u v.
                bind-Steady st (announce ra shash st.provided v)
                  (λ provided.
                    fetch_stored_fragments ra acc fhash shash fs (count + 1)
                      (keep_fragment ra acc fhash shash st f.hash provided))
                  v
                  (λ provided v'.
                    fetch_stored_fragments-Steady fs (count + 1)
                      (keep_fragment ra acc fhash shash st f.hash provided) v'))
              (λ v. fetch_stored_fragments-Steady fs count st v))
      ]

  counted-Counts :
      (st : Loop) (r : Outcome Loop × W) (w : W)
      → Steady st r
      → Counts st (((λ (_ : W). r) >>= λ st'. pure (count_segment st')) w)
  counted-Counts st (ok st', v) w h = (h.0, ground (arith, h.1), ground (arith, h.1))
  counted-Counts st (err e, v) w h = tt
  counted-Counts st (panic, v) w h = tt

  fetch_from_storage-Counts :
      (s : Segment) (st : Loop) (w : W) → Counts st (fetch_from_storage ra acc fhash shash s st w)
  unfolding fetch_from_storage
  fetch_from_storage-Counts s st w =
      counted-Counts st (fetch_stored_fragments ra acc fhash shash s.fragments 0 st w) w
        (fetch_stored_fragments-Steady s.fragments 0 st w)

  fetch_shared-Counts :
      (s : Segment) (st : Loop) (rs : List DownloadResponse) (w : W)
      → Counts st (fetch_shared ra acc fhash shash s st rs w)
  fetch_shared-Counts s st [] w = fetch_from_storage-Counts s st w
  fetch_shared-Counts s st (r ∷ rs) w = (refl, omega arith, omega arith)

  fetch_known-Counts :
      (s : Segment) (st : Loop) (found : Option (Dict CacheResponse)) (w : W)
      → Counts st (fetch_known ra acc fhash shash s st found w)
  fetch_known-Counts s st none w = tt
  fetch_known-Counts s st (some peers) w =
      elim (Bool-cases (leb ra.strategy.avg_cached_segment_num (length peers))) [
        | inl many ↦ rw many (refl, omega arith, omega arith)
        | inr few ↦ rw few (
            bind-Counts st (shared_segment_from_neighbor_cacher ra acc fhash s.hash peers w)
              (fetch_shared ra acc fhash shash s st) w (λ rs v. fetch_shared-Counts s st rs v))
      ]

  -- Whatever a segment needs, it adds at most one to the number, and leaves the mark alone.
  pub fetch_segment-Counts :
      (s : Segment) (st : Loop) (w : W) → Counts st (fetch_segment ra acc fhash shash s st w)
  unfolding fetch_segment
  fetch_segment-Counts s st w =
      or_else-Counts st (query_segment_from_neighbor_cacher ra fhash s.hash acc w)
        (fetch_known ra acc fhash shash s st) (fetch_from_storage ra acc fhash shash s st) w
        (λ found v. fetch_known-Counts s st found v) (λ v. fetch_from_storage-Counts s st v)
