-- ===== src/Credit/Memory.antt =====
-- An encoding of records and a ledger in memory that meet the assumptions of the credit module.
-- A level is written as its sign and its number.
use cess_dcdn_components.Base.Int.{negsuc, pos, ℤ}
use cess_dcdn_components.Store.Memory.{memory_db}
use cess_dcdn_components.Base.Dict.{Dict}
use cess_dcdn_components.Credit.{Credit, IsFaithful, Json, Order2Credit, RecordItem, no_record}
use cess_dcdn_components.Base.{
  Bytes, Option, [], codes, false, is_nil, none, ok, refl, some, suc, zero, ◌∷◌, ◌≡◌,
}

abbrev level_code : ℤ → Bytes → Bytes
level_code (pos n) rest = 0 ∷ n ∷ rest
level_code (negsuc n) rest = 1 ∷ n ∷ rest

abbrev fields : RecordItem → Bytes
fields r = r.sent_resource ∷ r.received_resource ∷ r.checked_times ∷ r.last_access ∷ []

abbrev decode_fields : ℤ → Bytes → RecordItem × Option Bytes
decode_fields l (s ∷ r ∷ t ∷ a ∷ []) = (
  record {
    level = l;
    sent_resource = s;
    received_resource = r;
    checked_times = t;
    last_access = a;
  },
  none,
)
decode_fields l _ = (no_record, some (codes "bad record"))

abbrev decode : Bytes → RecordItem × Option Bytes
decode (zero ∷ n ∷ rest) = decode_fields (pos n) rest
decode (suc _ ∷ n ∷ rest) = decode_fields (negsuc n) rest
decode _ = (no_record, some (codes "bad record"))

abbrev pub list_json : Json
list_json = record { marshal = λ r. level_code r.level (fields r); unmarshal = decode }

decode-level_code :
    (l : ℤ) (r : RecordItem) → decode (level_code l (fields r)) ≡ (record r { level = l }, none)
decode-level_code (pos n) r = refl
decode-level_code (negsuc n) r = refl

level_code_not_nil : (l : ℤ) (rest : Bytes) → is_nil (level_code l rest) ≡ false
level_code_not_nil (pos n) rest = refl
level_code_not_nil (negsuc n) rest = refl

pub list_json-IsFaithful : IsFaithful list_json
list_json-IsFaithful = record {
  unmarshal-marshal = λ r. decode-level_code r.level r;
  marshal_not_nil = λ r. level_code_not_nil r.level (fields r);
}

-- Every order is created and is worth 50.
abbrev pub orders : Order2Credit (Dict Bytes)
orders = record {
  create_credit_order = λ key node_id value w. (ok (codes "tx", codes "order"), w);
  check_credit_order = λ pubkey content sign w. (ok (codes "50"), w);
}

abbrev pub ledger_at : Bytes → Credit (Dict Bytes)
ledger_at price = record {
  price = price;
  owner = codes "node";
  resource_limit = 100;
  db = memory_db;
  json = list_json;
  orders = orders;
  now = λ w. 7;
  address_of = λ pubkey. ok pubkey;
}
