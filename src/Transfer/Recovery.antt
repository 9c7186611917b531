-- ===== src/Transfer/Recovery.antt =====
-- What `RecoveryFileViaSegments` writes.
use cess_dcdn_components.Base.Text.{eq_of_text_eq, text_eq, text_eq_refl}
use cess_dcdn_components.Base.FilePath.{base}
use cess_dcdn_components.Transfer.Storage.{
  FileMetadata, Sdk, Segment, cut_last, find_path, last_size, recovery_file_via_segments,
  write_found, write_segments,
}
use cess_dcdn_components.Transfer.Requests.{Disk}
use cess_dcdn_components.Base.{
  Bool-cases, get_elem?, inl, inr, length-append, refl, suc, take_beyond, zero, ◌*◌, ◌-◌, ◌<◌, ◌^◌,
  err, panic, Outcome, ap, arith, bind_ok, codes, fail_if, not, pure, sym, wrapping, ◌==◌, ◌>>=◌,
  ◌∙◌, All, Bytes, List, [], length, ok, some, take, ℕ, ◌++◌, ◌+◌, ◌∷◌, ◌≡◌, ◌≤◌,
}
use mathlib.Core.List.{append_assoc, append-nil}
use mathlib.Core.Path.{subst}

find_path-only :
    (hash stored : Bytes) (ps : List Bytes) (k : ℕ)
    → get_elem? ps k ≡ some stored
    → base stored ≡ hash
    → ((j : ℕ) (p : Bytes) → get_elem? ps j ≡ some p → base p ≡ hash → p ≡ stored)
    → find_path hash ps ≡ some stored
unfolding find_path
find_path-only hash stored [] k at_k name only = cc
find_path-only hash stored (p ∷ ps) zero at_k name only =
    let first : p ≡ stored = cc in rw (first, name, text_eq_refl hash) refl
find_path-only hash stored (p ∷ ps) (suc k) at_k name only =
    elim (Bool-cases (text_eq hash (base p))) [
      | inl same ↦ rw same (ap some (only 0 p refl (sym (eq_of_text_eq hash (base p) same))))
      | inr differ ↦ rw differ (find_path-only hash stored ps k at_k name (λ j q. only (suc j) q))
    ]

module _ {W : Type 0} (sdk : Sdk W) (disk : Disk W) (write : Bytes → W → W) (log : W → Bytes)
    (writes : (b : Bytes) (w : W) → log (write b w) ≡ log w ++ b) (content : Bytes → Bytes)
    (reads : (p : Bytes) (w : W) → disk.read_file p w ≡ (ok (content p), w)) (paths : List Bytes)
    (meta : FileMetadata) (stored : Segment → Bytes) where
  -- The segments in their order, the last one cut where the code cuts it.
  abbrev assembled : List Segment → ℕ → Bytes
  assembled [] count = []
  assembled (s ∷ []) count = take (last_size sdk disk [] meta.file_size count) (content (stored s))
  assembled (s ∷ t ∷ ss) count = content (stored s) ++ assembled (t ∷ ss) (count + 1)

  -- The last segment is at least as long as what the file still needs.
  abbrev LastFits : List Segment → ℕ → Type 0
  LastFits [] count = Unit
  LastFits (s ∷ []) count = last_size sdk disk [] meta.file_size count ≤ length (content (stored s))
  LastFits (s ∷ t ∷ ss) count = LastFits (t ∷ ss) (count + 1)

  abbrev IsFound : Segment → Type 0
  IsFound s = find_path s.hash paths ≡ some (stored s)

  write_found-as :
      (count : ℕ) (s : Segment) (w : W) (part : Bytes)
      → IsFound s
      → cut_last sdk disk write paths meta [] count (content (stored s)) ≡ ok part
      → write_found sdk disk write paths meta [] count (find_path s.hash paths) w
        ≡ (ok (count + 1), write part w)
  write_found-as count s w part e c = rw e (ground (arith, reads (stored s) w, c))

  abbrev Wrote : ℕ → Bytes → Outcome ℕ × W → Type 0
  Wrote n bytes r = (r.0 ≡ ok n) × (log r.1 ≡ bytes)

  Wrote-from :
      (ss : List Segment) (count : ℕ) (w : W) (n : ℕ) (bytes : Bytes) {r : Outcome ℕ × W}
      → write_segments sdk disk write paths meta [] ss count w ≡ r
      → Wrote n bytes r
      → Wrote n bytes (write_segments sdk disk write paths meta [] ss count w)
  Wrote-from ss count w n bytes e h = subst (Wrote n bytes) (sym e) h

  write_segments-assembled :
      (ss : List Segment) (count : ℕ) (w : W)
      → All IsFound ss
      → LastFits ss count
      → count + length ss ≡ length meta.segments
      → ((write_segments sdk disk write paths meta [] ss count w).0 ≡ ok (length meta.segments))
        × (log (write_segments sdk disk write paths meta [] ss count w).1
            ≡ log w ++ assembled ss count)
  unfolding write_segments
  write_segments-assembled [] count w found fits e = (ap ok (omega arith), sym (append-nil (log w)))
  write_segments-assembled (s ∷ []) count w found fits e =
      let part = take (last_size sdk disk [] meta.file_size count) (content (stored s)) in
      Wrote-from (s ∷ []) count w (length meta.segments) (log w ++ part)
        (bind_ok (write_found sdk disk write paths meta [] count (find_path s.hash paths)) pure
          (write_found-as count s w part found.0 (ground arith)))
        (ap ok (omega arith), writes part w)
  write_segments-assembled (s ∷ t ∷ ss) count w found fits e =
      let part = content (stored s) in
      let rest =
        write_segments-assembled (t ∷ ss) (count + 1) (write part w) found.1 fits (omega arith) in
      Wrote-from (s ∷ t ∷ ss) count w (length meta.segments) (log w ++ assembled (s ∷ t ∷ ss) count)
        (bind_ok (write_found sdk disk write paths meta [] count (find_path s.hash paths))
          (write_segments sdk disk write paths meta [] (t ∷ ss))
          (write_found-as count s w part found.0 (ground arith)))
        (
          rest.0,
          rest.1 ∙ rw (writes part w) (append_assoc (log w) part (assembled (t ∷ ss) (count + 1))),
        )

  -- The check of the count, after all segments.
  checked :
      (r : Outcome ℕ × W) {bytes : Bytes}
      → Wrote (length meta.segments) bytes r
      → let done =
          ((λ (_ : W). r) >>= λ count. wrapping "file recovery via segments failed" (
              fail_if
                (not (count == length meta.segments))
                (codes "the number of processed segments is inconsistent")))
            r.1 in
        (done.0 ≡ ok tt) × (log done.1 ≡ bytes)
  checked (ok n, v) h = ground arith
  checked (err e, v) h = absurd (ground arith)
  checked (panic, v) h = absurd (ground arith)

  recovers :
      (w : W)
      → All IsFound meta.segments
      → LastFits meta.segments 0
      → ((recovery_file_via_segments sdk disk write paths meta [] w).0 ≡ ok tt)
        × (log (recovery_file_via_segments sdk disk write paths meta [] w).1
            ≡ log w ++ assembled meta.segments 0)
  unfolding recovery_file_via_segments
  recovers w found fits =
      let written = write_segments-assembled meta.segments 0 w found fits (omega arith) in
      checked (write_segments sdk disk write paths meta [] meta.segments 0 w) written

  -- The segment's file is among the paths, and no other path ends with its hash.
  pub record IsNamed (s : Segment) : Type 0 where
    pub place : ℕ
    pub listed : get_elem? paths place ≡ some (stored s)
    pub name : base (stored s) ≡ s.hash
    pub only : (k : ℕ) (p : Bytes) → get_elem? paths k ≡ some p → base p ≡ s.hash → p ≡ stored s

  -- The bytes of all segments in their order, and the length of those before the last.
  abbrev pub whole : List Segment → Bytes
  whole [] = []
  whole (s ∷ ss) = content (stored s) ++ whole ss

  abbrev pub before_last : List Segment → ℕ
  before_last [] = 0
  before_last (s ∷ []) = 0
  before_last (s ∷ t ∷ ss) = length (content (stored s)) + before_last (t ∷ ss)

  -- All segments but the last have the size of a segment.
  abbrev pub Sized : List Segment → Type 0
  Sized [] = Unit
  Sized (s ∷ []) = Unit
  Sized (s ∷ t ∷ ss) = (length (content (stored s)) ≡ sdk.segment_size) × Sized (t ∷ ss)

  All-IsFound : (ss : List Segment) → All IsNamed ss → All IsFound ss
  All-IsFound [] h = tt
  All-IsFound (s ∷ ss) h = (
    find_path-only s.hash (stored s) paths h.0.place h.0.listed h.0.name h.0.only,
    All-IsFound ss h.1,
  )

  last_size-left :
      (count used : ℕ)
      → used ≡ count * sdk.segment_size
      → used ≤ meta.file_size
      → meta.file_size < 2 ^ 64
      → last_size sdk disk [] meta.file_size count ≡ meta.file_size - used
  last_size-left count used e le small = rw (← e) (omega arith)

  next_used :
      (count used : ℕ)
      → used ≡ count * sdk.segment_size
      → used + sdk.segment_size ≡ (count + 1) * sdk.segment_size
  next_used count used e = omega arith

  take_none : (n : ℕ) → [] ≡ take n (whole [])
  take_none zero = refl
  take_none (suc n) = refl

  assembled_lem :
      (ss : List Segment) (count used : ℕ)
      → used ≡ count * sdk.segment_size
      → Sized ss
      → used + before_last ss ≤ meta.file_size
      → meta.file_size ≤ used + length (whole ss)
      → meta.file_size < 2 ^ 64
      → LastFits ss count × (assembled ss count ≡ take (meta.file_size - used) (whole ss))
  assembled_lem [] count used e sized low high small = (tt, take_none _)
  assembled_lem (s ∷ []) count used e sized low high small =
      rw (last_size-left count used e (omega arith) small, append-nil (content (stored s)))
        (omega (arith, ap length (append-nil (content (stored s)))), refl)
  assembled_lem (s ∷ t ∷ ss) count used e sized low high small =
      let (fits, same) =
        assembled_lem (t ∷ ss) (count + 1) (used + sdk.segment_size) (next_used count used e)
          sized.1 (omega (arith, sized.0))
          (omega (arith, sized.0, length-append (content (stored s)) (whole (t ∷ ss)))) small in
      (
        fits,
        ap (λ r. content (stored s) ++ r) same
            ∙ sym (take_beyond (content (stored s)) (whole (t ∷ ss)) _ _ (omega (arith, sized.0))),
      )

  -- On a disk whose files can be read and do not change, and with a writer that appends: a file without a
  -- cipher is written whole, that is, as many bytes of its segments, one after the
  -- other, as the file has: if each segment's file is the one path whose name is the segment's hash, all
  -- segments but the last have the size of a segment, and the file ends within the last one.
  pub recovery_file_via_segments_lem :
      (w : W)
      → All IsNamed meta.segments
      → Sized meta.segments
      → before_last meta.segments ≤ meta.file_size
      → meta.file_size ≤ length (whole meta.segments)
      → meta.file_size < 2 ^ 64
      → ((recovery_file_via_segments sdk disk write paths meta [] w).0 ≡ ok tt)
        × (log (recovery_file_via_segments sdk disk write paths meta [] w).1
            ≡ log w ++ take meta.file_size (whole meta.segments))
  recovery_file_via_segments_lem w named sized low high small =
      let (fits, same) =
        assembled_lem meta.segments 0 0 (omega arith) sized (omega arith) (omega arith) small in
      let (answered, wrote) = recovers w (All-IsFound meta.segments named) fits in
      (
        answered,
        wrote ∙ ap (λ b. log w ++ b) (same ∙ ap (λ n. take n (whole meta.segments)) (omega arith)),
      )
