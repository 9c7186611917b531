-- ===== src/Credit/Tests.antt =====
-- Runs of the credit module over a ledger in memory, and its theorems at concrete inputs.
use cess_dcdn_components.Store.Memory.{memory_db-IsLawful}
use cess_dcdn_components.Credit.Memory.{ledger_at, list_json-IsFaithful}
use cess_dcdn_components.Base.Int.{negsuc, pos, ◌+ℤ◌}
use cess_dcdn_components.Credit.Records.{
  check_credit-add_credit_point, get_credit_record-add_credit_point,
}
use cess_dcdn_components.Base.Dict.{Dict, lookup}
use cess_dcdn_components.Credit.{
  Credit, RecordItem, add_credit_point, check_credit, get_credit_record, level_of, moved,
  put_credit_record,
}
use cess_dcdn_components.Base.{Bytes, [], codes, false, ok, refl, true, ℕ, ◌∷◌, ◌≡◌}

abbrev ledger : Credit (Dict Bytes)
ledger = ledger_at (codes "10")

abbrev item : ℕ → ℕ → RecordItem
item sent received = record {
  level = pos 1;
  sent_resource = sent;
  received_resource = received;
  checked_times = 0;
  last_access = 0;
}

abbrev alice : Bytes
alice = codes "alice"

-- A stored record that cannot be decoded.
abbrev corrupt : Dict Bytes
corrupt = (alice, codes "?") ∷ []

get_credit_record-add_credit_point_example :
    ((add_credit_point ledger alice (negsuc 499) []).0 ≡ ok tt)
    × (get_credit_record ledger alice (add_credit_point ledger alice (negsuc 499) []).1
        ≡ (record (item 500 0) { level = pos 3; last_access = 7 }, false))
unfolding put_credit_record get_credit_record moved level_of ◌+ℤ◌ lookup
get_credit_record-add_credit_point_example =
    get_credit_record-add_credit_point ledger memory_db-IsLawful list_json-IsFaithful alice
      (negsuc 499) [] {l = pos 3} refl refl

check_credit-add_credit_point_example :
    (check_credit ledger alice [] [] (add_credit_point ledger alice (negsuc 499) []).1).0 ≡ ok true
unfolding put_credit_record get_credit_record moved level_of ◌+ℤ◌ lookup
check_credit-add_credit_point_example =
    check_credit-add_credit_point ledger memory_db-IsLawful list_json-IsFaithful alice [] [] alice
      (negsuc 499) [] {l = pos 3} refl refl refl
