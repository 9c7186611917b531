-- ===== src/Cacher/Keys.antt =====
-- Under which keys the counters stand. The callbacks count for the directory of an item's key, which
-- keeps its last slash; the queries ask for a segment's key, which has none.
use cess_dcdn_components.Base.Int.{ℤ}
use cess_dcdn_components.Cacher.Records.{
  get_uint32, get_uint32-put_uint32, stored_count, count_up, put_uint32, get_file_record,
  on_add_item, on_delete_item, put_file_record, uint32,
}
use cess_dcdn_components.Store.{IsLawful}
use cess_dcdn_components.Cacher.{CacheActor}
use cess_dcdn_components.Types.{record_fragments, record_requests}
use cess_dcdn_components.Base.Text.{text_eq_ne, split_dir, text_eq, slash, split_last}
use cess_dcdn_components.Base.{
  some, ◌-◌, ◌<◌, ◌^◌, Option-cases, ap, arith, sym, ◌≢◌, Bool, Bool-cases, Bytes, [], false, inl,
  inr, refl, true, ℕ, ◌++◌, ◌==◌, ◌∙◌, ◌∷◌, ◌≡◌, ◌⊎◌,
}
use mathlib.Core.List.{append_cancel_right, reverse, reverse-append}

unfoldable pub ends_slash : Bytes → Bool
ends_slash [] = false
ends_slash (c ∷ []) = c == slash
ends_slash (c ∷ d ∷ s) = ends_slash (d ∷ s)

ends_slash-append : (s : Bytes) (c : ℕ) → ends_slash (s ++ (c ∷ [])) ≡ (c == slash)
unfolding ends_slash
ends_slash-append [] c = refl
ends_slash-append (d ∷ []) c = refl
ends_slash-append (d ∷ e ∷ s) c = ends_slash-append (e ∷ s) c

-- A directory is empty or ends in a slash.
split_last_dir :
    (file s : Bytes) → ((split_last file s).0 ≡ []) ⊎ (ends_slash (split_last file s).0 ≡ true)
unfolding split_last
split_last_dir file [] = inl refl
split_last_dir file (c ∷ s) = elim (Bool-cases (c == slash)) [
  | inl sep ↦ inr (rw sep (rw (reverse-append (c ∷ []) s) (ends_slash-append (reverse s) c ∙ sep)))
  | inr other ↦ rw other (split_last_dir (c ∷ file) s)
]

-- The third byte from the end, which tells the two record types apart.
abbrev third : Bytes → ℕ
third (a ∷ b ∷ c ∷ s) = c
third s = 0

pub suffixes_differ : (d q : Bytes) → d ++ record_fragments ≢ q ++ record_requests
suffixes_differ d q e =
    let same : third (reverse (d ++ record_fragments)) ≡ third (reverse (q ++ record_requests)) =
      ap (λ s. third (reverse s)) e in
    absurd (
      omega
        (arith, rw (reverse-append d record_fragments, reverse-append q record_requests) at same))

-- A key that the queries ask for: not empty, with no slash at its end.
abbrev pub IsSegmentKey : Bytes → Type 0
IsSegmentKey q = (q ≢ []) × (ends_slash q ≡ false)

dir_ne : (k q : Bytes) → IsSegmentKey q → (split_dir k).0 ≢ q
unfolding split_dir
dir_ne k q h e = elim (split_last_dir [] (reverse k)) [
  | inl empty ↦ h.0 (sym e ∙ empty)
  | inr sep ↦ cc (rw e at sep, h.1)
]

-- The two record types.
abbrev pub record_type : Bool → Bytes
record_type true = record_fragments
record_type false = record_requests

record_keys_ne : (d q : Bytes) (a b : Bool) → d ≢ q → d ++ record_type a ≢ q ++ record_type b
record_keys_ne d q true true h e = h (append_cancel_right d q record_fragments e)
record_keys_ne d q true false h e = suffixes_differ d q e
record_keys_ne d q false true h e = suffixes_differ q d (sym e)
record_keys_ne d q false false h e = h (append_cancel_right d q record_requests e)

-- The callbacks never write where a query of a segment reads.
dir_key_ne :
    (k q : Bytes) (a b : Bool)
    → IsSegmentKey q
    → text_eq ((split_dir k).0 ++ record_type a) (q ++ record_type b) ≡ false
dir_key_ne k q a b h = text_eq_ne _ _ (record_keys_ne (split_dir k).0 q a b (dir_ne k q h))

uint32-lt : (v : ℤ) → uint32 v < 2 ^ 32
uint32-lt v = ground arith

get_uint32-put_uint32_small : (v : ℕ) → v < 2 ^ 32 → get_uint32 (put_uint32 v) ≡ some v
get_uint32-put_uint32_small v h = get_uint32-put_uint32 v ∙ ap some (omega arith)

module _ {W : Type 0} (c : CacheActor W) (lawful : IsLawful c.records) where
  -- What was stored for a key is read back, modulo 2 ^ 32, for both record types.
  pub get_file_record-put :
      (key : Bytes) (a : Bool) (v : ℤ) (w : W)
      → (put_file_record c key (record_type a) v w).0 ≡ true
      → get_file_record c key (record_type a) (put_file_record c key (record_type a) v w).1
        ≡ (uint32 v, true)
  unfolding get_file_record put_file_record text_eq
  get_file_record-put key true v w h =
      rw (lawful.get-put_self w _ _ h, get_uint32-put_uint32_small (uint32 v) (uint32-lt v))
  get_file_record-put key false v w h =
      rw (lawful.get-put_self w _ _ h, get_uint32-put_uint32_small (uint32 v) (uint32-lt v))

  pub get_file_record-same :
      (q : Bytes) (b : Bool) {w w' : W}
      → c.records.get w' (q ++ record_type b) ≡ c.records.get w (q ++ record_type b)
      → get_file_record c q (record_type b) w' ≡ get_file_record c q (record_type b) w
  unfolding get_file_record
  get_file_record-same q b e = rw e

  module _ (k q : Bytes) (b : Bool) (segment : IsSegmentKey q) where
    get-put_dir :
        (a : Bool) (w : W) (v : Bytes)
        → c.records.get
            (c.records.put w ((split_dir k).0 ++ record_type a) v).1
            (q ++ record_type b)
          ≡ c.records.get w (q ++ record_type b)
    get-put_dir a w v = lawful.get-put_other w _ _ v (dir_key_ne k q a b segment)

    get-on_add_item :
        (w : W)
        → c.records.get (on_add_item c k w) (q ++ record_type b)
          ≡ c.records.get w (q ++ record_type b)
    unfolding on_add_item
    get-on_add_item w =
        elim (Option-cases (count_up c (c.records.get w ((split_dir k).0 ++ record_fragments)))) [
          | inl gone ↦ ground arith
          | inr (n, e) ↦ ground (arith, get-put_dir true w (put_uint32 n))
        ]

    get-on_delete_item :
        (w : W)
        → c.records.get (on_delete_item c k w) (q ++ record_type b)
          ≡ c.records.get w (q ++ record_type b)
    unfolding on_delete_item
    get-on_delete_item w =
        elim (Option-cases (stored_count (c.records.get w ((split_dir k).0 ++ record_fragments)))) [
          | inl gone ↦ ground arith
          | inr (n, e) ↦ ground (
            arith,
            get-put_dir true w (put_uint32 (n - 1)),
            get-put_dir false
                (c.records.put w ((split_dir k).0 ++ record_fragments) (put_uint32 (n - 1))).1
                (put_uint32 0),
          )
        ]

  -- Neither callback changes a counter of a segment as the queries read it, whatever item is added
  -- or deleted: the fragments of a segment are never counted under the key that is asked for.
  pub get_file_record-callbacks :
      (k q : Bytes) (b : Bool) (w : W)
      → IsSegmentKey q
      → (get_file_record c q (record_type b) (on_add_item c k w)
          ≡ get_file_record c q (record_type b) w)
        × (get_file_record c q (record_type b) (on_delete_item c k w)
            ≡ get_file_record c q (record_type b) w)
  get_file_record-callbacks k q b w h = (
    get_file_record-same q b (get-on_add_item k q b h w),
    get_file_record-same q b (get-on_delete_item k q b h w),
  )
