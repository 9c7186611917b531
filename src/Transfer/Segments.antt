-- ===== src/Transfer/Segments.antt =====
-- With which fragments a segment is restored.
use cess_dcdn_components.Base.Text.{text_eq}
use cess_dcdn_components.Base.FilePath.{dir, join}
use cess_dcdn_components.Transfer.Storage.{
  FileMetadata, Fragment, Sdk, Segment, collect_fragments, collect_segment,
  download_segment_from_storage, fetch_to, or_else, restore_segment,
}
use cess_dcdn_components.Transfer.Requests.{Disk}
use cess_dcdn_components.Base.{
  Outcome-cases, ltb, refl, wrapping, Action, Bool-cases, Bytes, List, Outcome, [], arith, err, inl,
  inr, leb, length, length-append, ok, panic, ℕ, ◌++◌, ◌+◌, ◌>>=◌, ◌∷◌, ◌≡◌, ◌≤◌,
}

module _ {W : Type 0} (sdk : Sdk W) (disk : Disk W) where
  -- The count is that of the paths, and never more than a segment needs.
  abbrev IsBounded : Outcome (ℕ × List Bytes) × W → Type 0
  IsBounded (ok (count, paths), w) = (count ≡ length paths) × (count ≤ sdk.data_shards)
  IsBounded (err e, w) = Unit
  IsBounded (panic, w) = Unit

  or_else-IsBounded :
      (r : Outcome Bytes × W) (f : Bytes → Action W (ℕ × List Bytes))
      (g : Action W (ℕ × List Bytes)) (w : W)
      → ((p : Bytes) (v : W) → IsBounded (f p v))
      → ((v : W) → IsBounded (g v))
      → IsBounded (or_else (λ _. r) f g w)
  or_else-IsBounded (ok p, v) f g w hf hg = hf p v
  or_else-IsBounded (err e, v) f g w hf hg = hg v
  or_else-IsBounded (panic, v) f g w hf hg = tt

  collect_fragments-IsBounded :
      (dir : Bytes) (fs : List Fragment) (count : ℕ) (paths : List Bytes) (w : W)
      → count ≡ length paths
      → count ≤ sdk.data_shards
      → IsBounded (collect_fragments sdk disk dir fs count paths w)
  unfolding collect_fragments
  collect_fragments-IsBounded dir [] count paths w e b = (e, b)
  collect_fragments-IsBounded dir (f ∷ fs) count paths w e b =
      elim (Bool-cases (leb sdk.data_shards count)) [
        | inl enough ↦ rw enough (e, b)
        | inr few ↦ rw few (
            or_else-IsBounded (fetch_to sdk disk dir f w) _ _ w
              (λ p v.
                collect_fragments-IsBounded dir fs (count + 1) (paths ++ (p ∷ [])) v
                  (ground (arith, length-append paths (p ∷ []))) (ground arith))
              (λ v. collect_fragments-IsBounded dir fs count paths v e b))
      ]

  bind-IsBounded :
      (r : Outcome (ℕ × List Bytes) × W) (f : ℕ × List Bytes → Action W (ℕ × List Bytes)) (w : W)
      → IsBounded r
      → ((count : ℕ) (paths : List Bytes) (v : W)
          → count ≡ length paths
          → count ≤ sdk.data_shards
          → IsBounded (f (count, paths) v))
      → IsBounded (((λ (_ : W). r) >>= f) w)
  bind-IsBounded (ok (count, paths), v) f w h k = k count paths v h.0 h.1
  bind-IsBounded (err e, v) f w h k = tt
  bind-IsBounded (panic, v) f w h k = tt

  collect_segment-IsBounded :
      (dir shash : Bytes) (ss : List Segment) (count : ℕ) (paths : List Bytes) (w : W)
      → count ≡ length paths
      → count ≤ sdk.data_shards
      → IsBounded (collect_segment sdk disk dir shash ss count paths w)
  unfolding collect_segment
  collect_segment-IsBounded dir shash [] count paths w e b = (e, b)
  collect_segment-IsBounded dir shash (s ∷ ss) count paths w e b =
      elim (Bool-cases (text_eq s.hash shash)) [
        | inl same ↦ rw same (
            bind-IsBounded (collect_fragments sdk disk dir s.fragments count paths w)
              (λ r. collect_segment sdk disk dir shash ss r.0 r.1) w
              (collect_fragments-IsBounded dir s.fragments count paths w e b)
              (λ count paths v e b. collect_segment-IsBounded dir shash ss count paths v e b))
        | inr differ ↦ rw differ (collect_segment-IsBounded dir shash ss count paths w e b)
      ]

  -- The segment was restored from exactly as many fragments as it needs.
  abbrev pub IsRestored : Bytes → Type 0
  IsRestored path =
      (paths : List Bytes) × (w : W) × (length paths ≡ sdk.data_shards)
      × ((sdk.rs_restore path paths w).0 ≡ ok tt)

  restore_after :
      (path : Bytes) (count : ℕ) (paths : List Bytes) (w : W) {p : Bytes}
      → count ≡ length paths
      → count ≤ sdk.data_shards
      → (restore_segment sdk disk path (count, paths) w).0 ≡ ok p
      → IsRestored path × (p ≡ path)
  restore_after path count paths w e b h = elim (Bool-cases (ltb count sdk.data_shards)) [
    | inl few ↦ absurd (ground arith)
    | inr enough ↦ elim (Outcome-cases (sdk.rs_restore path paths w).0) [
      | inl (u, done) ↦ ((paths, w, ground arith, done), ground arith)
      | inr (inl (x, wrong)) ↦ absurd (ground arith)
      | inr (inr stop) ↦ absurd (ground arith)
    ]
  ]

  restore_outcome :
      (path : Bytes) (r : Outcome (ℕ × List Bytes) × W) (w : W) {p : Bytes}
      → IsBounded r
      → (((λ (_ : W). r) >>= restore_segment sdk disk path) w).0 ≡ ok p
      → IsRestored path × (p ≡ path)
  restore_outcome path (ok (count, paths), v) w b h = restore_after path count paths v b.0 b.1 h
  restore_outcome path (err e, v) w b h = absurd (ground arith)
  restore_outcome path (panic, v) w b h = absurd (ground arith)

  after_query :
      (dir shash : Bytes) (r : Outcome FileMetadata × W) (w : W) {p : Bytes}
      → (((λ (_ : W). r) >>= λ meta.
            collect_segment sdk disk dir shash meta.segments 0 []
            >>= restore_segment sdk disk (join (dir ∷ shash ∷ [])))
          w).0
        ≡ ok p
      → IsRestored (join (dir ∷ shash ∷ [])) × (p ≡ join (dir ∷ shash ∷ []))
  after_query dir shash (ok meta, v) w h =
      restore_outcome (join (dir ∷ shash ∷ []))
        (collect_segment sdk disk dir shash meta.segments 0 [] v) v
        (collect_segment-IsBounded dir shash meta.segments 0 [] v refl (omega arith)) h
  after_query dir shash (err e, v) w h = absurd (ground arith)
  after_query dir shash (panic, v) w h = absurd (ground arith)

  -- When a segment is downloaded, its path is that of the segment's hash in the directory, and the
  -- segment was restored there from exactly as many fragments as it needs.
  pub download_segment_from_storage_sound :
      (dir fhash shash : Bytes) (w : W) {p : Bytes}
      → (download_segment_from_storage sdk disk dir fhash shash w).0 ≡ ok p
      → IsRestored (join (dir ∷ shash ∷ [])) × (p ≡ join (dir ∷ shash ∷ []))
  unfolding download_segment_from_storage
  download_segment_from_storage_sound dir fhash shash w h =
      after_query dir shash
        (wrapping "download fragment from storage error" (sdk.query_file fhash) w) w h
