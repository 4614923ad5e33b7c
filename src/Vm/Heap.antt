-- ===== src/Vm/Heap.antt =====
-- compiler/rust/crates/squidvm-core/src/vm.rs: `RuntimeRecords` and `RuntimeLists`, the records and
-- lists that builtins return. Each is a ring of slots, of which the oldest is used again.
use squid_script.Base.{
  fitting, ℕ, ◌+◌, ◌%◌, ◌^◌, List, [], ◌∷◌, length, get_elem?, set, replicate, bytes_eq, ltb,
  if◌then◌else◌, Result, ok, err, ◌>>=◌, ◌>>◌, guard, ok_or,
}
use squid_script.Vm.Values.{VmError, invalid_operand, Value, record_value, list_value}
use squid_script.Vm.FieldNames.{parse_field_name}

abbrev pub max_runtime_records : ℕ
max_runtime_records = 8

abbrev pub max_runtime_record_fields : ℕ
max_runtime_record_fields = 26

abbrev pub max_runtime_lists : ℕ
max_runtime_lists = 2

abbrev pub max_runtime_list_items : ℕ
max_runtime_list_items = 8

pub record RuntimeRecordField : Type 0 where
  pub name : List ℕ
  pub value : Value

pub record RuntimeRecords : Type 0 where
  pub records : List (List RuntimeRecordField)
  pub next : ℕ

pub record RuntimeLists : Type 0 where
  pub lists : List (List Value)
  pub next : ℕ

abbrev pub new_records : RuntimeRecords
new_records = record { records = replicate max_runtime_records []; next = 0 }

abbrev pub new_lists : RuntimeLists
new_lists = record { lists = replicate max_runtime_lists []; next = 0 }

unfoldable pub alloc_record :
    RuntimeRecords → List RuntimeRecordField → RuntimeRecords × Result VmError Value
alloc_record r fields =
    if ltb max_runtime_record_fields (length fields) then (r, err invalid_operand) else (
      record { records = set r.records r.next fields; next = (r.next + 1) % max_runtime_records },
      fitting (length fields) max_runtime_record_fields (ok (record_value r.next)),
    )

-- The loop of `RuntimeRecords::field`.
unfoldable pub field_from : List ℕ → List RuntimeRecordField → Result VmError Value
field_from name [] = err invalid_operand
field_from name (f ∷ fs) =
    let later = field_from name fs in if bytes_eq f.name name then ok f.value else later

unfoldable pub record_field : RuntimeRecords → ℕ → List ℕ → Result VmError Value
unfolding field_from parse_field_name
record_field r id field_name = do
  name ← ok_or (parse_field_name field_name) invalid_operand
  fields ← ok_or (get_elem? r.records id) invalid_operand
  field_from name fields

unfoldable pub alloc_list : RuntimeLists → List Value → RuntimeLists × Result VmError Value
alloc_list l items =
    if ltb max_runtime_list_items (length items) then (l, err invalid_operand) else (
      record { lists = set l.lists l.next items; next = (l.next + 1) % max_runtime_lists },
      fitting (length items) max_runtime_list_items (ok (list_value l.next)),
    )

unfoldable pub list_len : RuntimeLists → ℕ → Result VmError ℕ
list_len l id = ok_or (get_elem? l.lists id) invalid_operand >>= λ items. ok (length items)

-- An index with the sign bit is negative.
unfoldable pub list_get : RuntimeLists → ℕ → ℕ → Result VmError Value
list_get l id index = do
  items ← ok_or (get_elem? l.lists id) invalid_operand
  guard (ltb index (2 ^ 31)) invalid_operand
  ok_or (get_elem? items index) invalid_operand
