-- ===== src/UserClient/Downloads/Delivery.antt =====
-- What a successful `DownloadFile` has done.
use cess_dcdn_components.Base.FilePath.{join}
use cess_dcdn_components.UserClient.Downloads.Files.{
  all_segments, download_file, recover_and_remove,
}
use cess_dcdn_components.UserClient.Cachers.Query.{Selector}
use cess_dcdn_components.Transfer.Storage.{
  FileMetadata, Sdk, afterwards, recovery_file_via_segments, remove_all,
}
use cess_dcdn_components.Transfer.Requests.{Disk}
use cess_dcdn_components.Base.Dict.{Dict}
use cess_dcdn_components.Types.{CacheResponse}
use cess_dcdn_components.Base.{
  Action, Bool-cases, Bytes, List, Outcome, [], ap, arith, err, inl, inr, length, next, ok, panic,
  pure, refl, wrapped, wrapping, ◌==◌, ◌>>=◌, ◌>>◌, ◌∷◌, ◌≡◌,
}

module _ {W : Type 0} (sdk : Sdk W) (disk : Disk W) (sel : Selector W)
    (from_cachers : Bytes → Bytes → Bytes → Dict CacheResponse → Action W (List Bytes))
    (write : Bytes → Bytes → W → W) (dir fhash cipher : Bytes) where
  -- The file was recovered from one path for each segment of its metadata, and then these were removed.
  pub record IsDelivered (w : W) : Type 0 where
    pub meta : FileMetadata
    pub asked : W
    pub known : W
    pub queried : sdk.query_file fhash asked ≡ (ok meta, known)
    pub kept : List Bytes
    pub each : length kept ≡ length meta.segments
    pub before : W
    pub after : W
    pub recovered :
        recovery_file_via_segments sdk disk
          (write (join (dir ∷ fhash ∷ [])))
          kept
          meta
          cipher
          before
        ≡ (ok tt, after)
    pub removed : w ≡ remove_all sdk disk kept after

  abbrev pub Delivered : Outcome Bytes × W → Type 0
  Delivered (ok p, w) = (p ≡ join (dir ∷ fhash ∷ [])) × IsDelivered w
  Delivered (err e, w) = Unit
  Delivered (panic, w) = Unit

  abbrev path : Bytes
  path = join (dir ∷ fhash ∷ [])

  finish_file :
      (meta : FileMetadata) (asked known : W) (kept : List Bytes) (v : W)
      (r : Outcome (Unit {0}) × W)
      → sdk.query_file fhash asked ≡ (ok meta, known)
      → length kept ≡ length meta.segments
      → recovery_file_via_segments sdk disk (write path) kept meta cipher v ≡ r
      → Delivered (
          afterwards sdk disk
            (remove_all sdk disk kept)
            (λ _. next (λ _. pure path) (wrapped "download file error" r))
            v)
  finish_file meta asked known kept v (ok u, w) q e h = (
    refl,
    record {
      meta = meta;
      asked = asked;
      known = known;
      queried = q;
      kept = kept;
      each = e;
      before = v;
      after = w;
      recovered = h;
      removed = refl;
    },
  )
  finish_file meta asked known kept v (err x, w) q e h = tt
  finish_file meta asked known kept v (panic, w) q e h = tt

  recover-Delivered :
      (meta : FileMetadata) (asked known : W) (kept : List Bytes) (r : Outcome (Unit {0})) (w : W)
      → sdk.query_file fhash asked ≡ (ok meta, known)
      → Delivered
          (recover_and_remove sdk disk sel from_cachers (write path) path meta cipher (kept, r) w)
  recover-Delivered meta asked known kept (ok u) w q =
      elim (Bool-cases (length kept == length meta.segments)) [
        | inl same ↦ rw same (
            finish_file meta asked known kept w
              (recovery_file_via_segments sdk disk (write path) kept meta cipher w) q
              (ground (arith, same)) refl)
        | inr differ ↦ rw differ tt
      ]
  recover-Delivered meta asked known kept (err e) w q = tt
  recover-Delivered meta asked known kept panic w q = tt

  bind-Delivered :
      {A : Type 0} (f : A → Action W Bytes) (r : Outcome A × W)
      → ((a : A) (w : W) → r ≡ (ok a, w) → Delivered (f a w))
      → Delivered (next f r)
  bind-Delivered f (ok a, w) k = k a w refl
  bind-Delivered f (err e, w) k = tt
  bind-Delivered f (panic, w) k = tt

  -- What came before an error got its message.
  unwrapped :
      {A : Type 0} (r : Outcome A × W) (a : A) (w : W)
      → wrapped "download file error" r ≡ (ok a, w)
      → r ≡ (ok a, w)
  unwrapped (ok b, v) a w h = h
  unwrapped (err e, v) a w h = absurd (no_error (ap (λ r. r.0) h))
    where
      no_error : {x : Bytes} → err x ≡ ok a → ⊥
      no_error e = cc
  unwrapped (panic, v) a w h = absurd (no_panic (ap (λ r. r.0) h))
    where
      no_panic : panic ≡ ok a → ⊥
      no_panic e = cc

  -- When `DownloadFile` answers with a path, that is the file's; the file was recovered from one path for
  -- each segment that the chain names for it, and the last thing done was to remove these paths.
  pub download_file-Delivered :
      (w : W) → Delivered (download_file sdk disk sel from_cachers write dir fhash cipher w)
  unfolding download_file
  download_file-Delivered w =
      bind-Delivered located (wrapped "download file error" ((disk.stat dir >> disk.create path) w))
        (λ u v h.
          bind-Delivered fetch_all (wrapped "download file error" (sdk.query_file fhash v))
            (λ meta v' h'.
              bind-Delivered
                (recover_and_remove sdk disk sel from_cachers (write path) path meta cipher)
                (all_segments sdk disk sel from_cachers dir fhash (sel.peers_number v')
                  meta.segments [] v')
                (λ r v'' h''.
                  recover-Delivered meta v v' r.0 r.1 v''
                    (unwrapped (sdk.query_file fhash v) meta v' h'))))
    where
      fetch_all : FileMetadata → Action W Bytes
      fetch_all meta w =
          (all_segments sdk disk sel from_cachers dir fhash (sel.peers_number w) meta.segments []
              >>= recover_and_remove sdk disk sel from_cachers (write path) path meta cipher)
            w

      located : Unit {0} → Action W Bytes
      located u = wrapping "download file error" (sdk.query_file fhash) >>= fetch_all
