-- ===== src/UserClient/Box/Readback.antt =====
-- A file of a box is read back.
use cess_dcdn_components.Transfer.Streams.{reads}
use cess_dcdn_components.UserClient.Box.Slots.{read_slot, find_slot, find_slot_sound}
use cess_dcdn_components.UserClient.Box.Download.{
  at_index, indexed, in_plate, in_slot, Sources, download_file_in_box,
}
use cess_dcdn_components.UserClient.Box.Sealed.{ReadsBox}
use cess_dcdn_components.UserClient.Box.Layout.{Reads}
use cess_dcdn_components.UserClient.Box.{FileBox, FilePlate}
use cess_dcdn_components.Base.{
  Action, ◌>>=◌, ap, bind_ok, lift, wrapping, wrapping_ok, ◌∙◌, Bytes, List, Outcome, [], arith,
  get_elem?, inl, inr, length, none, ok, refl, some, suc, zero, ℕ, ◌+◌, ◌<◌, ◌∷◌, ◌≡◌, ◌≢◌, ◌⊎◌,
}

-- A plate whose last file's end is known, or which is not the last one.
abbrev pub IsReadable : List FilePlate → ℕ → Type 0
IsReadable ps i =
    (i + 1 < length ps)
    ⊎ ((p : FilePlate) → get_elem? ps i ≡ some p → length p.files < length p.indexs)

module _ (beyond : ℕ → Bytes → Outcome Bytes) (content_of : Bytes → Bytes) where
  ReadsBox-at :
      (ps : List FilePlate) (bs : List Bytes) (i : ℕ) (p : FilePlate)
      → ReadsBox beyond content_of ps bs
      → get_elem? ps i ≡ some p
      → IsReadable ps i
      → (b : Bytes) × (get_elem? bs i ≡ some b) × Reads beyond content_of p b
  ReadsBox-at [] bs i p h e r = cc
  ReadsBox-at (q ∷ ps) [] i p h e r = absurd h
  ReadsBox-at (q ∷ []) (b ∷ bs) zero p h e (inl less) = absurd (omega arith)
  ReadsBox-at (q ∷ []) (b ∷ bs) zero p h e (inr more) =
      let same : q ≡ p = cc in (b, refl, rw (← same) (h.1 (more q refl)))
  ReadsBox-at (q ∷ []) (b ∷ bs) (suc i) p h e r = cc
  ReadsBox-at (q ∷ q' ∷ ps) (b ∷ bs) zero p h e r =
      let same : q ≡ p = cc in (b, refl, rw (← same) h.0)
  ReadsBox-at (q ∷ q' ∷ ps) (b ∷ bs) (suc i) p h e (inl less) =
      ReadsBox-at (q' ∷ ps) bs i p h.1 e (inl (omega arith))
  ReadsBox-at (q ∷ q' ∷ ps) (b ∷ bs) (suc i) p h e (inr more) =
      ReadsBox-at (q' ∷ ps) bs i p h.1 e (inr more)

  module _ {W : Type 0} (src : Sources W) (tmp_dir : Bytes) (box : FileBox) (bs : List Bytes)
      (fhash : Bytes) where
    -- The segment of each plate is downloaded to a path, at which the plate's fragment is read.
    pub record Delivers : Type 0 where
      pub path : Bytes → Bytes
      pub fetched : Bytes → W → W
      pub segment :
          (h : Bytes) (w : W) → src.segment_path fhash h tmp_dir w ≡ (ok (path h), fetched h w)
      pub read :
          (i : ℕ) (p : FilePlate) (b : Bytes) (w : W)
          → get_elem? box.plates i ≡ some p
          → get_elem? bs i ≡ some b
          → src.read_file (path p.segment_hash) (fetched p.segment_hash w)
            ≡ (ok b, fetched p.segment_hash w)

    in_plate_lem :
        (d : Delivers) (i j : ℕ) (p : FilePlate) (b : Bytes) (w : W)
        → get_elem? box.plates i ≡ some p
        → get_elem? bs i ≡ some b
        → in_plate src beyond tmp_dir fhash p j w
          ≡ (read_slot beyond j p b, d.fetched p.segment_hash w)
    in_plate_lem d i j p b w g g' =
        bind_ok
          (wrapping "download file in box error" (src.segment_path fhash p.segment_hash tmp_dir))
          (λ spath. wrapping "download file in box error" (src.read_file spath) >>= reading)
          (wrapping_ok "download file in box error" (src.segment_path fhash p.segment_hash tmp_dir)
            (d.segment p.segment_hash w))
        ∙ bind_ok (wrapping "download file in box error" (src.read_file (d.path p.segment_hash)))
            reading
            (wrapping_ok "download file in box error" (src.read_file (d.path p.segment_hash))
              (d.read i p b w g g'))
      where
        reading : Bytes → Action W Bytes
        reading bytes = lift (λ _. read_slot beyond j p bytes)

    in_slot_lem :
        (d : Delivers) (i j : ℕ) (p : FilePlate) (b : Bytes) (w : W)
        → get_elem? box.plates i ≡ some p
        → get_elem? bs i ≡ some b
        → (in_slot src beyond tmp_dir fhash box (some (i, j)) w).0 ≡ read_slot beyond j p b
    in_slot_lem d i j p b w g g' =
        ap (λ r. r.0)
          (bind_ok (lift (λ _. at_index box.plates i)) (λ p. in_plate src beyond tmp_dir fhash p j)
              (ap (λ o. (indexed o, w)) g)
            ∙ in_plate_lem d i j p b w g g')

    -- If the files of the box's plates are read back from the fragments `bs`, and the downloads deliver
    -- these, then a name that is found, in a plate that is not the last or in a padded one, gives the
    -- bytes of the file of that name.
    pub download_file_in_box_lem :
        Delivers
        → ReadsBox beyond content_of box.plates bs
        → (name : Bytes) (i j : ℕ) (w : W) → name ≢ []
        → find_slot name 0 box.plates none ≡ some (i, j)
        → IsReadable box.plates i
        → (download_file_in_box src beyond tmp_dir fhash name box w).0 ≡ ok (content_of name)
    unfolding download_file_in_box
    download_file_in_box_lem d h name i j w ne e r =
        elim (find_slot_sound name 0 box.plates none i j e) [
          | inl start ↦ cc
          | inr (m, p, at_m, g, n) ↦
              let (b, g', reads) = ReadsBox-at box.plates bs m p h g (rw (← place_of at_m) r) in
              ap (λ o. (in_slot src beyond tmp_dir fhash box o w).0) e
              ∙ rw (place_of at_m) (in_slot_lem d m j p b w g g')
              ∙ reads j name n ne
        ]
      where
        place_of : {m : ℕ} → i ≡ 0 + m → i ≡ m
        place_of at_m = omega arith
