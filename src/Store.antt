-- ===== src/Store.antt =====
-- LevelDB, which the program only calls: its two operations over the state `W` of everything that
-- lies outside a component, and what the code relies on. `Memory` meets the assumptions.
pub mod Memory
use cess_dcdn_components.Base.{◌≡◌, true, false, Bool, Bytes}
use cess_dcdn_components.Base.Text.{text_eq}

-- What `Get` answers: a value, `leveldb.ErrNotFound`, or any other error.
pub data Lookup : Type 0 where
  found : Bytes → Lookup
  not_found failed : Lookup

-- `put` answers whether it stored the value.
pub record Leveldb (W : Type 0) : Type 0 where
  pub get : W → Bytes → Lookup
  pub put : W → Bytes → Bytes → Bool × W

-- A stored value is read back, and a write touches no other key.
pub record IsLawful {W : Type 0} (db : Leveldb W) : Type 0 where
  pub get-put_self :
      (w : W) (k v : Bytes) → (db.put w k v).0 ≡ true → db.get (db.put w k v).1 k ≡ found v
  pub get-put_other :
      (w : W) (k j v : Bytes) → text_eq k j ≡ false → db.get (db.put w k v).1 j ≡ db.get w j
