-- ===== src/Resource/Reach.antt =====
-- The segment that was asked for is reached by the loop of `DownloadStoragedFiles`.
use cess_dcdn_components.Base.Text.{text_eq}
use cess_dcdn_components.Transfer.Storage.{Segment}
use cess_dcdn_components.Resource.{ResourceActor}
use cess_dcdn_components.Resource.Download.{
  Loop, consider, fetch_segment, fetch_segments, first_loop, see,
}
use cess_dcdn_components.Resource.Progress.{Counts, fetch_segment-Counts}
use cess_dcdn_components.Base.{
  ap, next, sym, Action, All, Bool-cases, Bytes, List, Outcome, [], arith, bind_ok, err, false, inl,
  inr, leb, ok, panic, refl, true, ℕ, ◌++◌, ◌+◌, ◌-◌, ◌<◌, ◌>>=◌, ◌∙◌, ◌∷◌, ◌≡◌,
}
use mathlib.Core.Path.{subst}

module _ {W : Type 0} (ra : ResourceActor W) (acc fhash shash : Bytes) (limit : ℕ) where
  -- Segments other than the one that was asked for leave room for it.
  abbrev HasRoom : Outcome Loop × W → Type 0
  HasRoom (ok st, w) = (st.done ≡ false) × (st.num < limit)
  HasRoom (err e, w) = Unit
  HasRoom (panic, w) = Unit

  room_after :
      (st : Loop) (r : Outcome Loop × W)
      → Counts ra acc fhash shash st r
      → st.done ≡ false
      → st.num + 1 < limit
      → HasRoom r
  room_after st (ok st', v) h d l = (h.0 ∙ d, ground (arith, h.1))
  room_after st (err e, v) h d l = tt
  room_after st (panic, v) h d l = tt

  consider-HasRoom :
      (s : Segment) (st : Loop) (w : W)
      → text_eq s.hash shash ≡ false
      → st.done ≡ false
      → st.num < limit
      → HasRoom (consider ra acc fhash shash limit s (see ra acc fhash shash s st) w)
  consider-HasRoom s st w differ d l = elim (Bool-cases (leb (limit - 1) st.num)) [
    | inl last ↦ rw (differ, d, last) (refl, l)
    | inr early ↦
        rw (differ, d, early)
          (room_after (record st { done = false })
            (fetch_segment ra acc fhash shash s (record st { done = false }) w)
            (fetch_segment-Counts ra acc fhash shash s (record st { done = false }) w) refl
            (ground arith))
  ]

  bind-HasRoom :
      (r : Outcome Loop × W) (f : Loop → Action W Loop) (w : W)
      → HasRoom r
      → ((st : Loop) (v : W) → st.done ≡ false → st.num < limit → HasRoom (f st v))
      → HasRoom (((λ (_ : W). r) >>= f) w)
  bind-HasRoom (ok st, v) f w h k = k st v h.0 h.1
  bind-HasRoom (err e, v) f w h k = tt
  bind-HasRoom (panic, v) f w h k = tt

  abbrev pub IsOther : Segment → Type 0
  IsOther s = text_eq s.hash shash ≡ false

  fetch_segments-HasRoom :
      (before : List Segment) (st : Loop) (w : W)
      → All IsOther before
      → st.done ≡ false
      → st.num < limit
      → HasRoom (fetch_segments ra acc fhash shash limit before st w)
  unfolding fetch_segments
  fetch_segments-HasRoom [] st w others d l = (d, l)
  fetch_segments-HasRoom (s ∷ before) st w others d l = elim (Bool-cases (leb limit st.num)) [
    | inl full ↦ absurd (ground arith)
    | inr room ↦ rw room (
        bind-HasRoom (consider ra acc fhash shash limit s (see ra acc fhash shash s st) w)
          (fetch_segments ra acc fhash shash limit before) w (consider-HasRoom s st w others.0 d l)
          (λ st' v d' l'. fetch_segments-HasRoom before st' v others.1 d' l'))
  ]

  bind-again :
      (r : Outcome Loop × W) (f g h : Loop → Action W Loop) (w : W)
      → HasRoom r
      → ((st : Loop) (v : W) → st.done ≡ false → st.num < limit → f st v ≡ (g st >>= h) v)
      → ((λ (_ : W). r) >>= f) w ≡ ((λ (_ : W). r) >>= g >>= h) w
  bind-again (ok st, v) f g h w b k = k st v b.0 b.1
  bind-again (err e, v) f g h w b k = refl
  bind-again (panic, v) f g h w b k = refl

  fetch_segments-none :
      (st : Loop) (w : W) → fetch_segments ra acc fhash shash limit [] st w ≡ (ok st, w)
  unfolding fetch_segments
  fetch_segments-none st w = refl

  fetch_segments-step :
      (s : Segment) (ss : List Segment) (st : Loop) (w : W)
      → st.num < limit
      → fetch_segments ra acc fhash shash limit (s ∷ ss) st w
        ≡ (consider ra acc fhash shash limit s (see ra acc fhash shash s st)
              >>= fetch_segments ra acc fhash shash limit ss)
            w
  unfolding fetch_segments
  fetch_segments-step s ss st w l = elim (Bool-cases (leb limit st.num)) [
    | inl full ↦ absurd (ground arith)
    | inr room ↦ rw room refl
  ]

  fetch_segments-append :
      (before rest : List Segment) (st : Loop) (w : W)
      → All IsOther before
      → st.done ≡ false
      → st.num < limit
      → fetch_segments ra acc fhash shash limit (before ++ rest) st w
        ≡ (fetch_segments ra acc fhash shash limit before st
              >>= fetch_segments ra acc fhash shash limit rest)
            w
  fetch_segments-append [] rest st w others d l =
      sym (ap (next (fetch_segments ra acc fhash shash limit rest)) (fetch_segments-none st w))
  fetch_segments-append (s ∷ before) rest st w others d l =
      fetch_segments-step s (before ++ rest) st w l
      ∙ bind-again (consider ra acc fhash shash limit s (see ra acc fhash shash s st) w)
          (fetch_segments ra acc fhash shash limit (before ++ rest))
          (fetch_segments ra acc fhash shash limit before)
          (fetch_segments ra acc fhash shash limit rest) w (consider-HasRoom s st w others.0 d l)
          (λ st' v d' l'. fetch_segments-append before rest st' v others.1 d' l')
      ∙ sym (
          ap (next (fetch_segments ra acc fhash shash limit rest))
            (fetch_segments-step s before st w l))

  fetch_segments-asked :
      (after : List Segment) (s : Segment) (st : Loop) (w : W)
      → text_eq s.hash shash ≡ true
      → st.num < limit
      → fetch_segments ra acc fhash shash limit (s ∷ after) st w
        ≡ (fetch_segment ra acc fhash shash s (record st { done = true })
              >>= fetch_segments ra acc fhash shash limit after)
            w
  unfolding fetch_segments
  fetch_segments-asked after s st w same l = fetch_segments-step s after st w l ∙ rw same refl

  -- The limits never skip the segment that was asked for. Whatever segments come before it, and whatever
  -- was done for them, as long as that ended with a value: if one segment at least may be fetched, the
  -- loop hands this one to `fetch_segment`, which looks for it at the neighbours and fetches it where not
  -- enough of them have it, and goes on with the segments after it.
  pub fetch_segments_reaches :
      (before after : List Segment) (s : Segment) (w w' : W) {st : Loop}
      → All IsOther before
      → text_eq s.hash shash ≡ true
      → 0 < limit
      → fetch_segments ra acc fhash shash limit before first_loop w ≡ (ok st, w')
      → fetch_segments ra acc fhash shash limit (before ++ (s ∷ after)) first_loop w
        ≡ (fetch_segment ra acc fhash shash s (record st { done = true })
              >>= fetch_segments ra acc fhash shash limit after)
            w'
  fetch_segments_reaches before after s w w' {st} others same l e =
      let room = subst HasRoom e (fetch_segments-HasRoom before first_loop w others refl l) in
      fetch_segments-append before (s ∷ after) first_loop w others refl l
      ∙ bind_ok (fetch_segments ra acc fhash shash limit before first_loop)
          (fetch_segments ra acc fhash shash limit (s ∷ after)) e
      ∙ fetch_segments-asked after s st w' same room.1
