-- ===== src/UserClient/BoxTests.antt =====
-- A directory that is packed, and a file that is read back, at concrete inputs.
use cess_dcdn_components.UserClient.Uploads.Preprocess.{with_hashes}
use cess_dcdn_components.Base.Text.{text_eq, text_eq_refl}
use cess_dcdn_components.Base.FilePath.{join}
use cess_dcdn_components.UserClient.BoxData.{
  box_image, box_made, content_at, directory, entry_of, memory-IsSteady, memory_folder, no_bytes,
}
use cess_dcdn_components.UserClient.Box.Download.{Sources, download_file_in_box}
use cess_dcdn_components.UserClient.Uploads.{SegmentDataInfo}
use cess_dcdn_components.UserClient.Box.Roundtrip.{
  IsReadableAt, IsStored, download_packed_file, piece,
}
use cess_dcdn_components.UserClient.Box.{
  FileBox, FilePlate, create_a_file_box, packed_size, set_last,
}
use cess_dcdn_components.UserClient.Box.Packs.{Boxed, Fits, create_a_file_box_lem}
use cess_dcdn_components.Base.{
  All, Bytes, List, [], ap, arith, codes, err, false, get_elem?, if◌then◌else◌, inl, inr, length,
  ok, refl, some, suc, zero, ℕ, ◌++◌, ◌∷◌, ◌≡◌, ◌≢◌, ◌≤◌,
}

memory_fits :
    (name : Bytes) (k n : ℕ)
    → k ≤ 8
    → length (content_at (join (codes "d" ∷ name ∷ []))) ≡ k
    → text_eq (join (codes "d" ∷ name ∷ [])) (join (codes "d" ∷ codes "box" ∷ [])) ≡ false
    → packed_size (entry_of name k) ≡ some n
    → (n ≤ 8)
      × (length (content_at (join (codes "d" ∷ name ∷ []))) ≡ n)
      × (join (codes "d" ∷ name ∷ []) ≢ join (codes "d" ∷ codes "box" ∷ []))
memory_fits name k n h e differ packed =
    let same : k ≡ n = ground arith in
    (
      rw (← same) h,
      rw (← same) e,
      λ p. ground (
        arith,
        ap (λ q. text_eq q (join (codes "d" ∷ codes "box" ∷ []))) p,
        differ,
        text_eq_refl (join (codes "d" ∷ codes "box" ∷ [])),
      ),
    )

abbrev AllFit : Type 0
AllFit = All (Fits memory_folder 8 (codes "box") (codes "d") (λ w. w) content_at no_bytes) directory

all_fit : AllFit
unfolding text_eq join
all_fit = (
  (λ n e. memory_fits (codes "a") 5 n (omega arith) refl refl e),
  (
    (λ n e. memory_fits (codes "b") 6 n (omega arith) refl refl e),
    ((λ n e. memory_fits (codes "c") 3 n (omega arith) refl refl e), tt),
  ),
)

create_a_file_box_lem_example :
    Boxed memory_folder 8
      (codes "box")
      (codes "d")
      (λ w. w)
      content_at
      no_bytes
      (codes "a" ∷ codes "b" ∷ codes "c" ∷ [])
      (create_a_file_box memory_folder 8 (codes "box") (codes "d") [])
unfolding text_eq join
create_a_file_box_lem_example =
    create_a_file_box_lem memory_folder 8 (codes "box") (codes "d") (λ w. w) content_at no_bytes
      (omega arith) memory-IsSteady directory [] refl all_fit

-- The segments of the box file by their hashes.
abbrev segment_at : Bytes → Bytes
segment_at p =
    if text_eq p (codes "s")
    then codes "hello" ++ (0 ∷ 0 ∷ 0 ∷ [])
    else codes "worlds" ++ (0 ∷ 0 ∷ [])

abbrev memory_sources : Sources Bytes
memory_sources = record {
  segment_path = λ fhash shash dir w. (ok shash, w);
  query_segments = λ fhash w. (ok (codes "s" ∷ codes "t" ∷ []), w);
  is_directory = λ path w. (err [], w);
  remove_all = λ path w. (ok tt, w);
  retrieve_file = λ url fhash mnemonic path w. (ok tt, w);
  read_file = λ path w. (ok (segment_at path), w);
}

abbrev hashes : List SegmentDataInfo
hashes =
    record { segment_hash = codes "s"; fragment_hash = [] }
    ∷ record { segment_hash = codes "t"; fragment_hash = [] }
    ∷ []

abbrev box_stored : FileBox
box_stored = record box_made {
  plates =
      record { segment_hash = codes "s"; files = codes "a" ∷ []; indexs = 0 ∷ 5 ∷ [] }
      ∷ record { segment_hash = codes "t"; files = codes "b" ∷ [] ∷ []; indexs = 0 ∷ 6 ∷ 3 ∷ [] }
      ∷ [];
}

stored_read :
    (i : ℕ) (p : FilePlate)
    → get_elem? box_stored.plates i ≡ some p
    → segment_at p.segment_hash ≡ piece 8 i box_image
unfolding text_eq
stored_read zero p g = let e : codes "s" ≡ p.segment_hash = cc in rw (← e) refl
stored_read (suc zero) p g = let e : codes "t" ≡ p.segment_hash = cc in rw (← e) refl
stored_read (suc (suc i)) p g = cc

memory-IsStored :
    IsStored memory_folder 8
      (codes "box")
      (codes "d")
      (λ w. w)
      content_at
      no_bytes
      memory_sources
      (codes "tmp")
      (codes "f")
      box_stored.plates
      box_image
memory-IsStored = record {
  path = λ h. h;
  fetched = λ h w. w;
  segment = λ h w. refl;
  read = λ i p w g. ap (λ c. (ok c, w)) (stored_read i p g);
}

-- The name is in the second plate only, which was padded.
readable_b :
    IsReadableAt memory_folder 8
      (codes "box")
      (codes "d")
      (λ w. w)
      content_at
      no_bytes
      memory_sources
      (codes "tmp")
      (codes "f")
      box_stored.plates
      (codes "b")
readable_b zero j p e g = inl (omega arith)
readable_b (suc zero) j p e g = inr (λ q d.
    let same : record {
      segment_hash = codes "t";
      files = codes "b" ∷ [] ∷ [];
      indexs = 0 ∷ 6 ∷ 3 ∷ [];
    }
        ≡ q =
      cc in
    rw (← same) (omega arith))
readable_b (suc (suc i)) j p e g = cc

download_packed_file_example :
    (download_file_in_box memory_sources no_bytes
      (codes "tmp")
      (codes "f")
      (codes "b")
      box_stored
      []).0
    ≡ ok (codes "worlds")
unfolding text_eq join with_hashes create_a_file_box set_last
download_packed_file_example =
    download_packed_file memory_folder 8 (codes "box") (codes "d") (λ w. w) content_at no_bytes
      memory_sources (codes "tmp") (codes "f") (omega arith) memory-IsSteady directory [] box_image
      {box = box_made} {path = codes "d/box"} refl all_fit refl hashes refl memory-IsStored
      (codes "b") 1 0
      (record { segment_hash = codes "t"; files = codes "b" ∷ [] ∷ []; indexs = 0 ∷ 6 ∷ 3 ∷ [] }) []
      (λ e. cc) refl refl readable_b
