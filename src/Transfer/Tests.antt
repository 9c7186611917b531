-- ===== src/Transfer/Tests.antt =====
-- Streams, a host and a disk in memory, and the theorems about transfers at concrete inputs.
use cess_dcdn_components.Base.Text.{text_eq_refl, split_dir, split_from, text_eq}
use cess_dcdn_components.Transfer.Recovery.{IsNamed, recovery_file_via_segments_lem}
use cess_dcdn_components.Transfer.Reads.{read_data_multiple}
use cess_dcdn_components.Transfer.Streams.{read_data, read_data_from}
use cess_dcdn_components.Transfer.Answers.{download_file_from_cache_multiple}
use cess_dcdn_components.Base.FilePath.{base, join}
use cess_dcdn_components.Transfer.Segments.{IsRestored, download_segment_from_storage_sound}
use cess_dcdn_components.Transfer.Storage.{
  Segment, FileMetadata, Sdk, download_segment_from_storage, find_path, recovery_file_via_segments,
}
use cess_dcdn_components.Base.Dict.{Dict, insert, lookup, lookup-insert_self}
use cess_dcdn_components.Transfer.Requests.{
  Codec, Disk, Host, download_file_from_cache, empty_request, eof, send_request_to_cacher,
}
use cess_dcdn_components.Base.{
  List, false, get_elem?, sym, true, ◌∙◌, Option, ap, Bytes, [], arith, codes, err, length, none,
  ok, panic, refl, some, suc, zero, ℕ, ◌++◌, ◌∷◌, ◌≡◌,
}
use cess_dcdn_components.Types.{CacheRequest, download}

abbrev zeros : ℕ → Bytes
zeros zero = []
zeros (suc n) = 0 ∷ zeros n

length-zeros : (n : ℕ) → length (zeros n) ≡ n
length-zeros zero = refl
length-zeros (suc n) = omega (arith, length-zeros n)

read_data_parts : read_data_from 4 20 [] eof (codes "abcdef" ∷ []) ≡ ok (codes "abcdef")
unfolding read_data_from
read_data_parts = refl

-- A message that arrives in two chunks is cut after the first.
read_data_cut : read_data_from 4 20 [] eof (codes "abc" ∷ codes "def" ∷ []) ≡ ok (codes "abc")
unfolding read_data_from
read_data_cut = refl

read_data_multiple_example : read_data eof (zeros 2048 ∷ []) ≡ err eof
read_data_multiple_example =
    read_data_multiple eof (zeros 2048) 1 (omega (arith, length-zeros 2048))

-- Files by their paths.
abbrev text_of : Option Bytes → Bytes
text_of none = []
text_of (some b) = b

abbrev content : Bytes → Dict Bytes → Bytes
content p w = text_of (lookup p w)

abbrev append : Bytes → Bytes → Dict Bytes → Dict Bytes
append p b w = insert p (content p w ++ b) w

content-append : (p b : Bytes) (w : Dict Bytes) → content p (append p b w) ≡ content p w ++ b
content-append p b w = ap text_of (lookup-insert_self p (content p w ++ b) w)

abbrev memory_disk : Disk (Dict Bytes)
memory_disk = record {
  create = λ p w. (ok tt, insert p [] w);
  append_to = λ p b w. (ok tt, append p b w);
  stat = λ p w. (ok tt, w);
  read_file = λ p w. (ok (base p), w);
  remove = λ p w. w;
}

-- A cache node that answers every request with the same bytes.
abbrev echo : Bytes → Host (Dict Bytes)
echo body = record {
  new_stream = λ peer w. (ok 7, w);
  write_stream = λ s b w. (ok tt, w);
  copy_all = λ s w. (ok body, w);
  reset_stream = λ s w. w;
  close_stream = λ s w. w;
}

abbrev no_codec : Codec
no_codec = record {
  marshal_request = λ req. ok (codes "{}");
  data_text = λ b. err (codes "no JSON");
  decode_data = λ b. err (codes "no JSON");
  decode_whole = λ b. err (codes "no JSON");
}

abbrev wants : CacheRequest
wants = empty_request (echo []) no_codec download

download_file_from_cache_multiple_example :
    ((download_file_from_cache
        (echo (zeros 1024))
        no_codec
        memory_disk
        (codes "peer")
        (codes "x")
        wants
        []).0
      ≡ err (codes "download file error: EOF"))
    × (content
          (codes "x")
          (download_file_from_cache
            (echo (zeros 1024))
            no_codec
            memory_disk
            (codes "peer")
            (codes "x")
            wants
            []).1
        ≡ zeros 1024)
unfolding send_request_to_cacher insert lookup text_eq
download_file_from_cache_multiple_example =
    download_file_from_cache_multiple (echo (zeros 1024)) no_codec memory_disk content
      (λ p b w. refl) content-append (codes "peer") (codes "x") wants [] refl refl refl 0
      (omega (arith, length-zeros 1024))

-- A file of two segments of four bytes each at most, and six bytes in all.
abbrev small_file : FileMetadata
small_file = record {
  segments =
      record {
        hash = codes "s1aa";
        fragments = record { hash = codes "f"; miner = codes "m" } ∷ [];
      }
      ∷ record { hash = codes "s2bb"; fragments = [] }
      ∷ [];
  file_size = 6;
}

abbrev small_sdk : Sdk (Dict Bytes)
small_sdk = record {
  query_file = λ h w. (ok small_file, w);
  query_miner_items = λ m w. (ok m, w);
  read_data_action = λ peer name path w. (ok tt, w);
  rs_restore = λ path paths w. (ok tt, w);
  aes_cbc_decrypt = λ b key. ok b;
  beyond = λ n b. panic;
  data_shards = 1;
  segment_size = 4;
}

download_segment_from_storage_sound_example :
    IsRestored small_sdk memory_disk (codes "d/s1aa") × (codes "d/s1aa" ≡ codes "d/s1aa")
unfolding download_segment_from_storage join split_from text_eq
download_segment_from_storage_sound_example =
    download_segment_from_storage_sound small_sdk memory_disk (codes "d") (codes "h") (codes "s1aa")
      [] refl

abbrev two_paths : List Bytes
two_paths = codes "d/s2bb" ∷ codes "d/s1aa" ∷ []

abbrev stored_at : Segment → Bytes
stored_at s = codes "d/" ++ s.hash

of_some : {a b : Bytes} → some a ≡ some b → a ≡ b
of_some e = cc

abbrev IsStored : Segment → Type 0
IsStored =
    IsNamed small_sdk memory_disk (append (codes "o")) (content (codes "o"))
      (content-append (codes "o")) base (λ p w. refl) two_paths small_file stored_at

not_in : {a b : Bytes} (p q : Bytes) → q ≡ p → base q ≡ a → base p ≡ b → text_eq a b ≡ false → ⊥
unfolding text_eq
not_in {a} {b} p q e x y differ =
    let same : a ≡ b = sym x ∙ ap base e ∙ y in
    let eq : text_eq a b ≡ true = rw same (text_eq_refl b) in ground (arith, eq, differ)

only_first :
    (k : ℕ) (p : Bytes)
    → get_elem? two_paths k ≡ some p
    → base p ≡ codes "s1aa"
    → p ≡ codes "d/s1aa"
unfolding base split_dir text_eq
only_first zero p e h = absurd (not_in (codes "d/s2bb") p (sym (of_some e)) h refl refl)
only_first (suc zero) p e h = sym (of_some e)
only_first (suc (suc k)) p e h = cc

only_second :
    (k : ℕ) (p : Bytes)
    → get_elem? two_paths k ≡ some p
    → base p ≡ codes "s2bb"
    → p ≡ codes "d/s2bb"
unfolding base split_dir text_eq
only_second zero p e h = sym (of_some e)
only_second (suc zero) p e h = absurd (not_in (codes "d/s1aa") p (sym (of_some e)) h refl refl)
only_second (suc (suc k)) p e h = cc

IsStored-first : IsStored (record {
  hash = codes "s1aa";
  fragments = record { hash = codes "f"; miner = codes "m" } ∷ [];
})
unfolding base split_dir
IsStored-first = record { place = 1; listed = refl; name = refl; only = only_first }

IsStored-second : IsStored (record { hash = codes "s2bb"; fragments = [] })
unfolding base split_dir
IsStored-second = record { place = 0; listed = refl; name = refl; only = only_second }

-- In the memory disk a file holds its own name.
recovery_file_via_segments_lem_example :
    ((recovery_file_via_segments small_sdk memory_disk
        (append (codes "o"))
        (codes "d/s2bb" ∷ codes "d/s1aa" ∷ [])
        small_file
        []
        []).0
      ≡ ok tt)
    × (content
          (codes "o")
          (recovery_file_via_segments small_sdk memory_disk
            (append (codes "o"))
            (codes "d/s2bb" ∷ codes "d/s1aa" ∷ [])
            small_file
            []
            []).1
        ≡ codes "s1aas2")
unfolding lookup find_path base split_dir text_eq
recovery_file_via_segments_lem_example =
    recovery_file_via_segments_lem small_sdk memory_disk (append (codes "o")) (content (codes "o"))
      (content-append (codes "o")) base (λ p w. refl) (codes "d/s2bb" ∷ codes "d/s1aa" ∷ [])
      small_file (λ s. codes "d/" ++ s.hash) [] (IsStored-first, (IsStored-second, tt)) (refl, tt)
      (omega arith) (omega arith) (omega arith)
