-- ===== src/Transfer/Storage.antt =====
-- Downloads from the storage nodes: `DownloadFragmentFromStorage`, `DownloadSegmentFromStorage`,
-- `DownloadFileFromStorage` and `RecoveryFileViaSegments`.
use cess_dcdn_components.Cacher.Service.{write}
use cess_dcdn_components.Base.Text.{text_eq}
use cess_dcdn_components.Base.Int.{sub64, u64_mod}
use cess_dcdn_components.Base.FilePath.{base, dir, join}
use cess_dcdn_components.Transfer.Requests.{Disk}
use cess_dcdn_components.Base.{
  ap, ◌≡◌, Action, Bytes, List, Option, Outcome, [], codes, err, fail_if, if◌then◌else◌, is_nil,
  leb, length, lift, ltb, modify, none, not, ok, panic, pure, some, take, wrapping, ℕ, ◌%◌, ◌*◌,
  ◌++◌, ◌+◌, ◌-◌, ◌==◌, ◌>>=◌, ◌>>◌, ◌∷◌,
}

-- The metadata of a file on the chain, as far as the program reads it.
pub record Fragment : Type 0 where
  pub hash : Bytes
  pub miner : Bytes

pub record Segment : Type 0 where
  pub hash : Bytes
  pub fragments : List Fragment

pub record FileMetadata : Type 0 where
  pub segments : List Segment
  pub file_size : ℕ

-- The SDK: queries of the chain, reads from a storage node, erasure coding and its two constants, AES;
-- and what a slice of a buffer beyond its length gives, which depends on the buffer's capacity.
pub record Sdk (W : Type 0) : Type 0 where
  pub query_file : Bytes → Action W FileMetadata
  pub query_miner_items : Bytes → Action W Bytes
  pub read_data_action : Bytes → Bytes → Bytes → Action W (Unit {0})
  pub rs_restore : Bytes → List Bytes → Action W (Unit {0})
  pub aes_cbc_decrypt : Bytes → Bytes → Outcome Bytes
  pub beyond : ℕ → Bytes → Outcome Bytes
  pub data_shards : ℕ
  pub segment_size : ℕ

-- `if err == nil { f } else { g }` after a call; a panic goes on.
abbrev pub or_else : {W A B : Type 0} → Action W A → (A → Action W B) → Action W B → Action W B
or_else m f g w = let (r, w') = m w in elim r [ ok a ↦ f a w' | err e ↦ g w' | panic ↦ (panic, w') ]

pub or_else_ok :
    {W A B : Type 0} (m : Action W A) (f : A → Action W B) (g : Action W B) {w w' : W} {a : A}
    → m w ≡ (ok a, w')
    → or_else m f g w ≡ f a w'
or_else_ok m f g {w} e = ap (λ r. or_else (λ _. r) f g w) e

pub or_else_err :
    {W A B : Type 0} (m : Action W A) (f : A → Action W B) (g : Action W B) {w w' : W} {e : Bytes}
    → m w ≡ (err e, w')
    → or_else m f g w ≡ g w'
or_else_err m f g {w} h = ap (λ r. or_else (λ _. r) f g w) h

-- The first path whose last element is the hash.
unfoldable pub find_path : Bytes → List Bytes → Option Bytes
find_path hash [] = none
find_path hash (p ∷ ps) =
    let rest = find_path hash ps in if text_eq hash (base p) then some p else rest

module _ {W : Type 0} (sdk : Sdk W) (disk : Disk W) where
  -- The inner loop of `DownloadFragmentFromStorage`: it asks the miner of the first fragment with the
  -- hash, by the hash of the segment.
  unfoldable pub fetch_fragment : Bytes → Bytes → Bytes → List Fragment → Action W (Unit {0})
  fetch_fragment path shash want [] = pure tt
  fetch_fragment path shash want (f ∷ fs) =
      let rest = fetch_fragment path shash want fs in
      if not (text_eq f.hash want)
      then rest
      else (do peer ← sdk.query_miner_items f.miner; sdk.read_data_action peer shash path)

  unfoldable pub fetch_from_segments : Bytes → Bytes → Bytes → List Segment → Action W (Unit {0})
  unfolding fetch_fragment
  fetch_from_segments path shash want [] = pure tt
  fetch_from_segments path shash want (s ∷ ss) =
      let rest = fetch_from_segments path shash want ss in
      if not (text_eq s.hash shash)
      then rest
      else fetch_fragment path shash want s.fragments >> rest

  -- `DownloadFragmentFromStorage`
  unfoldable pub download_fragment_from_storage :
      Bytes → Bytes → Bytes → Bytes → Action W (Unit {0})
  unfolding fetch_from_segments
  download_fragment_from_storage path fhash shash want =
      wrapping "download fragment from storage error"
        (do meta ← sdk.query_file fhash; fetch_from_segments path shash want meta.segments)

  -- One fragment, stored in the directory under its hash.
  abbrev pub fetch_to : Bytes → Fragment → Action W Bytes
  fetch_to dir f = do
    peer ← sdk.query_miner_items f.miner
    sdk.read_data_action peer f.hash (join (dir ∷ f.hash ∷ []))
    pure (join (dir ∷ f.hash ∷ []))

  -- The inner loop of `DownloadSegmentFromStorage` over `count` and `paths`.
  unfoldable pub collect_fragments :
      Bytes → List Fragment → ℕ → List Bytes → Action W (ℕ × List Bytes)
  collect_fragments dir [] count paths = pure (count, paths)
  collect_fragments dir (f ∷ fs) count paths =
      if leb sdk.data_shards count
      then pure (count, paths)
      else or_else (fetch_to dir f) (λ p. collect_fragments dir fs (count + 1) (paths ++ (p ∷ [])))
          (collect_fragments dir fs count paths)

  unfoldable pub collect_segment :
      Bytes → Bytes → List Segment → ℕ → List Bytes → Action W (ℕ × List Bytes)
  unfolding collect_fragments
  collect_segment dir shash [] count paths = pure (count, paths)
  collect_segment dir shash (s ∷ ss) count paths =
      if not (text_eq s.hash shash)
      then collect_segment dir shash ss count paths
      else collect_fragments dir s.fragments count paths >>= λ r.
          collect_segment dir shash ss r.0 r.1

  abbrev pub remove_all : List Bytes → W → W
  remove_all [] w = w
  remove_all (p ∷ ps) w = remove_all ps (disk.remove p w)

  abbrev pub restore_segment : Bytes → ℕ × List Bytes → Action W Bytes
  restore_segment path (count, paths) = wrapping "download segment from storage error" (do
    fail_if (ltb count sdk.data_shards) (codes "not enough fragments were downloaded")
    sdk.rs_restore path paths
    modify (remove_all paths)
    pure path)

  -- `DownloadSegmentFromStorage`
  unfoldable pub download_segment_from_storage : Bytes → Bytes → Bytes → Action W Bytes
  unfolding collect_segment
  download_segment_from_storage dir fhash shash = do
    meta ← wrapping "download fragment from storage error" (sdk.query_file fhash)
    r ← collect_segment dir shash meta.segments 0 []
    restore_segment (join (dir ∷ shash ∷ [])) r

  -- `buf[:n]`
  abbrev pub slice : ℕ → Bytes → Outcome Bytes
  slice n buf = if leb n (length buf) then ok (take n buf) else sdk.beyond n buf

  abbrev pub decrypted : Bytes → Bytes → Outcome Bytes
  decrypted cipher buf = if is_nil cipher then ok buf else sdk.aes_cbc_decrypt buf cipher

  -- The bytes of the last segment, from the file's size.
  abbrev pub last_size : Bytes → ℕ → ℕ → ℕ
  last_size cipher size count =
      sub64 size
        (count * (if is_nil cipher then sdk.segment_size else sdk.segment_size - 16) % u64_mod)

  module _ (write : Bytes → W → W) (paths : List Bytes) (meta : FileMetadata) (cipher : Bytes) where
    abbrev pub cut_last : ℕ → Bytes → Outcome Bytes
    cut_last count buf =
        if leb (length meta.segments) (count + 1)
        then slice (last_size cipher meta.file_size count) buf
        else ok buf

    -- One segment that was found: the count of the segments written goes up.
    abbrev pub write_segment : ℕ → Bytes → Action W ℕ
    write_segment count path = do
      raw ← wrapping "file recovery via segments failed" (disk.read_file path)
      buf ← wrapping "file recovery via segments failed" (lift (λ _. decrypted cipher raw))
      part ← lift (λ _. cut_last count buf)
      modify (write part)
      pure (count + 1)

    abbrev pub write_found : ℕ → Option Bytes → Action W ℕ
    write_found count none = pure count
    write_found count (some path) = write_segment count path

    unfoldable pub write_segments : List Segment → ℕ → Action W ℕ
    unfolding find_path
    write_segments [] count = pure count
    write_segments (s ∷ ss) count = write_found count (find_path s.hash paths) >>= write_segments ss

    -- `RecoveryFileViaSegments`; the errors of `writer.Write` are dropped.
    unfoldable pub recovery_file_via_segments : Action W (Unit {0})
    unfolding write_segments
    recovery_file_via_segments = do
      count ← write_segments meta.segments 0
      wrapping "file recovery via segments failed" (
          fail_if (not (count == length meta.segments))
            (codes "the number of processed segments is inconsistent"))

  -- The loop over the fragments of a segment in `DownloadFileFromStorage`: it stops once enough are
  -- there, and restores the segment.
  unfoldable pub gather_segment :
      Bytes → Bytes → List Fragment → List Bytes → Action W (Option Bytes)
  gather_segment dir shash [] paths = pure none
  gather_segment dir shash (f ∷ fs) paths = do
    peer ← wrapping "download file from storage error" (sdk.query_miner_items f.miner)
    or_else (sdk.read_data_action peer f.hash (join (dir ∷ f.hash ∷ [])))
        (λ _.
          if leb sdk.data_shards (length paths + 1)
          then (do
            sdk.rs_restore (join (dir ∷ shash ∷ [])) (paths ++ (join (dir ∷ f.hash ∷ []) ∷ []))
            pure (some (join (dir ∷ shash ∷ []))))
          else gather_segment dir shash fs (paths ++ (join (dir ∷ f.hash ∷ []) ∷ [])))
        (gather_segment dir shash fs paths)

  abbrev pub add_path : List Bytes → Option Bytes → List Bytes
  add_path paths none = paths
  add_path paths (some p) = paths ++ (p ∷ [])

  unfoldable pub gather_segments : Bytes → List Segment → List Bytes → Action W (List Bytes)
  unfolding gather_segment
  gather_segments dir [] paths = pure paths
  gather_segments dir (s ∷ ss) paths =
      gather_segment dir s.hash s.fragments [] >>= λ r. gather_segments dir ss (add_path paths r)

  abbrev pub remove_fragments : Bytes → List Fragment → W → W
  remove_fragments dir [] w = w
  remove_fragments dir (f ∷ fs) w =
      remove_fragments dir fs (disk.remove (join (dir ∷ f.hash ∷ [])) w)

  -- The deferred function: it removes what was downloaded.
  abbrev pub clean_up : Bytes → List Segment → W → W
  clean_up dir [] w = w
  clean_up dir (s ∷ ss) w =
      clean_up dir ss (remove_fragments dir s.fragments (disk.remove (join (dir ∷ s.hash ∷ [])) w))

  abbrev pub afterwards : {A : Type 0} → (W → W) → Action W A → Action W A
  afterwards f m w = let (r, w') = m w in (r, f w')

  -- `DownloadFileFromStorage`
  unfoldable pub download_file_from_storage :
      (Bytes → Bytes → W → W) → Bytes → Bytes → Bytes → Action W Bytes
  unfolding recovery_file_via_segments gather_segments
  download_file_from_storage write dir fhash cipher = do
    wrapping "download file from storage error"
        (do disk.stat dir; disk.create (join (dir ∷ fhash ∷ [])))
    meta ← wrapping "download file from storage error" (sdk.query_file fhash)
    afterwards (clean_up dir meta.segments) (do
      paths ← gather_segments dir meta.segments []
      wrapping "download file from storage error" (do
        fail_if (not (length paths == length meta.segments))
            (codes "the number of downloaded segments is inconsistent")
        recovery_file_via_segments (write (join (dir ∷ fhash ∷ []))) paths meta cipher)
      pure (join (dir ∷ fhash ∷ [])))
