-- ===== src/Cacher/Records.antt =====
-- The counters of a segment, four bytes each in LevelDB: the callbacks that `NewCacher` registers,
-- `GetFileRecord` and `PutFileRecord`.
use cess_dcdn_components.Store.{found, failed, not_found}
use cess_dcdn_components.Base.Text.{split_dir, text_eq}
use cess_dcdn_components.Types.{record_fragments, record_requests}
use cess_dcdn_components.Base.Int.{negsuc, pos, ℤ}
use cess_dcdn_components.Store.{Lookup}
use cess_dcdn_components.Cacher.{CacheActor}
use cess_dcdn_components.Base.{
  Bool, Bytes, Option, [], ap, arith, false, if◌then◌else◌, ltb, none, not, some, true, ℕ, ◌%◌, ◌*◌,
  ◌++◌, ◌+◌, ◌-◌, ◌/◌, ◌^◌, ◌||◌, ◌∷◌, ◌≡◌,
}

-- `binary.BigEndian.PutUint32` and `Uint32`.
unfoldable pub put_uint32 : ℕ → Bytes
put_uint32 v = (v / 2 ^ 24 % 256) ∷ (v / 2 ^ 16 % 256) ∷ (v / 2 ^ 8 % 256) ∷ (v % 256) ∷ []

unfoldable pub get_uint32 : Bytes → Option ℕ
get_uint32 (a ∷ b ∷ c ∷ d ∷ rest) = some (((a * 256 + b) * 256 + c) * 256 + d)
get_uint32 _ = none

-- What is stored is read back, modulo 2 ^ 32.
pub get_uint32-put_uint32 : (v : ℕ) → get_uint32 (put_uint32 v) ≡ some (v % 2 ^ 32)
unfolding get_uint32 put_uint32
get_uint32-put_uint32 v = ap some (omega arith)

-- `uint32(value)` of an `int`.
abbrev pub uint32 : ℤ → ℕ
uint32 (pos n) = n % 2 ^ 32
uint32 (negsuc n) = (2 ^ 32 - (n + 1) % 2 ^ 32) % 2 ^ 32

-- The number in an answer of the database, if it has four bytes.
abbrev pub stored_count : Lookup → Option ℕ
stored_count failed = none
stored_count not_found = none
stored_count (found v) = get_uint32 v

module _ {W : Type 0} (c : CacheActor W) where
  abbrev pub count_up : Lookup → Option ℕ
  count_up failed = none
  count_up not_found = some 1
  count_up (found v) = elim (get_uint32 v) [ none ↦ some 1 | some n ↦ some ((1 + n) % 2 ^ 32) ]

  -- The callback for an added item: it counts the item for its directory, unless its key is a URL.
  unfoldable pub on_add_item : Bytes → W → W
  on_add_item k w =
      let key = (split_dir k).0 ++ record_fragments in
      let counted : W = elim (count_up (c.records.get w key)) [
        | none ↦ w
        | some n ↦ (c.records.put w key (put_uint32 n)).1
      ] in
      if c.is_request_uri k then w else counted

  -- The callback for a deleted item: it counts down to 0, and clears the requests of a segment that has
  -- too few fragments left.
  unfoldable pub on_delete_item : Bytes → W → W
  on_delete_item k w = elim (stored_count (c.records.get w ((split_dir k).0 ++ record_fragments))) [
    | none ↦ w
    | some n ↦
        let w1 = (c.records.put w ((split_dir k).0 ++ record_fragments) (put_uint32 (n - 1))).1 in
        let w2 = (c.records.put w1 ((split_dir k).0 ++ record_requests) (put_uint32 0)).1 in
        if ltb (n - 1) c.data_shards then w2 else w1
  ]

  abbrev pub is_record_type : Bytes → Bool
  is_record_type t = text_eq t record_fragments || text_eq t record_requests

  -- `GetFileRecord`
  unfoldable pub get_file_record : Bytes → Bytes → W → ℕ × Bool
  get_file_record key t w =
      if not (is_record_type t)
      then (0, false)
      else elim (stored_count (c.records.get w (key ++ t))) [
        | none ↦ (0, false)
        | some n ↦ (n, true)
      ]

  -- `PutFileRecord`: whether the value was stored; a bad record type is an error.
  unfoldable pub put_file_record : Bytes → Bytes → ℤ → W → Bool × W
  put_file_record key t value w =
      if not (is_record_type t)
      then (false, w)
      else c.records.put w (key ++ t) (put_uint32 (uint32 value))
