-- ===== src/UserClient/Box/Roundtrip.antt =====
-- A directory is packed, its box uploaded by segments, and a file of it read back: `CreateAFileBox`, the
-- hashes that `UploadDirAsBoxFile` enters, and `DownloadFileInBox`.
use cess_dcdn_components.Base.FilePath.{join}
use cess_dcdn_components.Base.{
  All, Bytes, List, Option-cases, Outcome, [], ap, arith, drop, drop_append, get_elem?, inl, inr,
  length, none, ok, some, suc, sym, take, take_append, zero, ℕ, ◌++◌, ◌<◌, ◌^◌, ◌∙◌, ◌∷◌, ◌≡◌, ◌≢◌,
}
use cess_dcdn_components.UserClient.Box.Readback.{Delivers, IsReadable, download_file_in_box_lem}
use cess_dcdn_components.UserClient.Box.Sealed.{ReadsBox}
use cess_dcdn_components.UserClient.Box.Slots.{find_slot_sound, find_slot, find_slot-none}
use cess_dcdn_components.UserClient.Box.Layout.{concat}
use cess_dcdn_components.UserClient.Box.Create.{IsSteady}
use cess_dcdn_components.UserClient.Box.Packs.{
  Boxed, Fits, IsBoxOf, content_of, create_a_file_box_lem,
}
use cess_dcdn_components.UserClient.Box.Names.{packed_names}
use cess_dcdn_components.UserClient.Box.Download.{Sources, download_file_in_box}
use cess_dcdn_components.UserClient.Uploads.Preprocess.{with_hashes}
use cess_dcdn_components.UserClient.Uploads.{SegmentDataInfo}
use cess_dcdn_components.UserClient.Box.{Entry, FileBox, FilePlate, Folder, create_a_file_box}
use mathlib.Core.Path.{subst}
use mathlib.Core.List.{append_assoc}

-- The bytes of a file from the `i`-th run of `F` bytes.
abbrev pub piece : ℕ → ℕ → Bytes → Bytes
piece F zero bytes = take F bytes
piece F (suc i) bytes = piece F i (drop F bytes)

piece-concat :
    (F : ℕ) (bs : List Bytes) (rest : Bytes) (i : ℕ) (b : Bytes)
    → All (λ b. length b ≡ F) bs
    → get_elem? bs i ≡ some b
    → piece F i (concat bs ++ rest) ≡ b
unfolding concat
piece-concat F [] rest i b h e = cc
piece-concat F (c ∷ bs) rest zero b h e =
    let same : c ≡ b = cc in
    rw (append_assoc c (concat bs) rest, ← h.0) (take_append c (concat bs ++ rest) ∙ same)
piece-concat F (c ∷ bs) rest (suc i) b h e =
    ap (piece F i) (
      ap (drop F) (append_assoc c (concat bs) rest)
      ∙ ap (λ n. drop n (c ++ (concat bs ++ rest))) (sym h.0)
      ∙ drop_append c (concat bs ++ rest))
    ∙ piece-concat F bs rest i b h.1 e

-- The hashes of the segments change nothing that is read.
module _ (beyond : ℕ → Bytes → Outcome Bytes) (content : Bytes → Bytes) where
  ReadsBox-with_hashes :
      (ss : List SegmentDataInfo) (ps : List FilePlate) (bs : List Bytes)
      → length ss ≡ length ps
      → ReadsBox beyond content ps bs
      → ReadsBox beyond content (with_hashes ss ps) bs
  unfolding with_hashes
  ReadsBox-with_hashes [] [] bs e h = h
  ReadsBox-with_hashes [] (p ∷ ps) bs e h = absurd (omega (arith, e))
  ReadsBox-with_hashes (s ∷ ss) [] bs e h = absurd (omega (arith, e))
  ReadsBox-with_hashes (s ∷ ss) (p ∷ ps) [] e h = absurd h
  ReadsBox-with_hashes (s ∷ []) (p ∷ []) (b ∷ bs) e h = h
  ReadsBox-with_hashes (s ∷ []) (p ∷ q ∷ ps) (b ∷ bs) e h = absurd (omega (arith, e))
  ReadsBox-with_hashes (s ∷ t ∷ ss) (p ∷ []) (b ∷ bs) e h = absurd (omega (arith, e))
  ReadsBox-with_hashes (s ∷ t ∷ ss) (p ∷ q ∷ ps) (b ∷ bs) e h =
      (h.0, ReadsBox-with_hashes (t ∷ ss) (q ∷ ps) bs (omega (arith, e)) h.1)

module _ {W : Type 0} (folder : Folder W) (F : ℕ) (fname dir : Bytes) (written : W → Bytes)
    (at : Bytes → Bytes) (beyond : ℕ → Bytes → Outcome Bytes) (src : Sources W)
    (tmp_dir fhash : Bytes) where
  -- The box as it is described after the upload.
  abbrev pub described : FileBox → List SegmentDataInfo → FileBox
  described box ss = record box { plates = with_hashes ss box.plates }

  -- The download of the segment of a plate gives the path of a file with the bytes of the box file that
  -- were cut as this segment.
  pub record IsStored (ps : List FilePlate) (image : Bytes) : Type 0 where
    pub path : Bytes → Bytes
    pub fetched : Bytes → W → W
    pub segment :
        (h : Bytes) (w : W) → src.segment_path fhash h tmp_dir w ≡ (ok (path h), fetched h w)
    pub read :
        (i : ℕ) (p : FilePlate) (w : W)
        → get_elem? ps i ≡ some p
        → src.read_file (path p.segment_hash) (fetched p.segment_hash w)
          ≡ (ok (piece F i image), fetched p.segment_hash w)

  delivers :
      (box : FileBox) (names : List Bytes) (ps : List FilePlate) (image : Bytes)
      (h : IsBoxOf folder F fname dir written at beyond names ps image)
      → IsStored box.plates image
      → Delivers beyond
          (content_of folder F fname dir written at beyond)
          src
          tmp_dir
          box
          h.fragments
          fhash
  delivers box names ps image h d = record {
    path = d.path;
    fetched = d.fetched;
    segment = d.segment;
    read = λ i p b w e g.
        d.read i p w e
        ∙ ap (λ c. (ok c, d.fetched p.segment_hash w))
            (ap (piece F i) h.split ∙ piece-concat F h.fragments _ i b h.sized g);
  }

  -- Each place of the name in the box is one whose end is known.
  abbrev pub IsReadableAt : List FilePlate → Bytes → Type 0
  IsReadableAt ps name =
      (i j : ℕ) (p : FilePlate)
      → get_elem? ps i ≡ some p
      → get_elem? p.files j ≡ some name
      → IsReadable ps i

  module _ (small : F < 2 ^ 62)
      (steady : IsSteady folder (join (dir ∷ fname ∷ [])) written at) where
    boxed :
        (es : List Entry) (w w1 : W) {box : FileBox} {path : Bytes}
        → folder.read_dir dir w ≡ (ok es, w)
        → All (Fits folder F fname dir written at beyond) es
        → create_a_file_box folder F fname dir w ≡ (ok (box, path), w1)
        → IsBoxOf folder F fname dir written at beyond (packed_names es) box.plates (written w1)
    boxed es w w1 entries fits made =
        (subst (Boxed folder F fname dir written at beyond (packed_names es)) made (
          create_a_file_box_lem folder F fname dir written at beyond small steady es w entries
            fits)).0

    pub download_packed_file :
        (es : List Entry) (w w1 : W) {box : FileBox} {path : Bytes}
        → folder.read_dir dir w ≡ (ok es, w)
        → All (Fits folder F fname dir written at beyond) es
        → create_a_file_box folder F fname dir w ≡ (ok (box, path), w1)
        → (ss : List SegmentDataInfo) → length ss ≡ length box.plates
        → IsStored (described box ss).plates (written w1)
        → (name : Bytes) (i j : ℕ) (p : FilePlate) (v : W) → name ≢ []
        → get_elem? (described box ss).plates i ≡ some p
        → get_elem? p.files j ≡ some name
        → IsReadableAt (described box ss).plates name
        → (download_file_in_box src beyond tmp_dir fhash name (described box ss) v).0
          ≡ ok (at (join (dir ∷ name ∷ [])))
    download_packed_file es w w1 {box} entries fits made ss same d name i j p v ne e g readable =
        let h = boxed es w w1 entries fits made in
        elim (Option-cases (find_slot name 0 (described box ss).plates none)) [
          | inl missed ↦ absurd (find_slot-none name 0 (described box ss).plates missed i j p e g)
          | inr ((k, l), found) ↦
              download_file_in_box_lem beyond (content_of folder F fname dir written at beyond) src
                tmp_dir (described box ss) h.fragments fhash
                (delivers (described box ss) (packed_names es) box.plates (written w1) h d)
                (ReadsBox-with_hashes beyond (content_of folder F fname dir written at beyond) ss
                  box.plates h.fragments same h.readable)
                name k l v ne found
                (readable_slot (described box ss).plates name k l found readable)
        ]
      where
        readable_slot :
            (ps : List FilePlate) (name : Bytes) (k l : ℕ)
            → find_slot name 0 ps none ≡ some (k, l)
            → IsReadableAt ps name
            → IsReadable ps k
        readable_slot ps name k l found r = elim (find_slot_sound name 0 ps none k l found) [
          | inl start ↦ cc
          | inr (m, q, at_m, e, n) ↦ let same : k ≡ m = omega arith in rw same (r m l q e n)
        ]
