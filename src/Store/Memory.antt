-- ===== src/Store/Memory.antt =====
-- A database in memory that never fails.
use cess_dcdn_components.Base.{true, Bytes, none, some, Option}
use cess_dcdn_components.Base.Dict.{Dict, lookup, insert, lookup-insert, lookup-insert_self}
use cess_dcdn_components.Store.{Leveldb, Lookup, found, not_found, IsLawful}

abbrev pub answer : Option Bytes → Lookup
answer none = not_found
answer (some v) = found v

abbrev pub memory_db : Leveldb (Dict Bytes)
memory_db = record { get = λ w k. answer (lookup k w); put = λ w k v. (true, insert k v w) }

pub memory_db-IsLawful : IsLawful memory_db
memory_db-IsLawful = record {
  get-put_self = λ w k v _. rw (lookup-insert_self k v w);
  get-put_other = λ w k j v h. rw (lookup-insert k j v w, h);
}
