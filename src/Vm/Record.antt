-- ===== src/Vm/Record.antt =====
-- compiler/rust/crates/squidvm-core/src/state.rs: the record in which an app's state is saved. What the
-- writers put into the buffer is a list, `out`; `string` and `find` stand for the `StringTable` of the
-- program.
use squid_script.Base.{
  ℕ, zero, suc, ◌+◌, Bool, true, false, not, ◌&&◌, Option, none, some, List, [], ◌∷◌, ◌++◌, length,
  get_elem?, set, take, slice, bytes_eq, ltb, leb, ◌==◌, if◌then◌else◌, Result, ok, err, panic,
  stuck, ◌>>=◌, ◌>>◌, guard, ok_or, and_then,
}
use squid_script.Base.Words.{to_le, from_le}
use squid_script.Base.Utf8.{is_utf8}
use squid_script.Vm.Values.{
  VmError, invalid_operand, too_many_strings, state_too_large, invalid_state_record,
  state_type_mismatch, Value, null, bool_value, i32_value, string_value, record_value, list_value,
  handle_value,
}
use squid_script.Vm.State.{StateSlot, is_state_type, flag}
use squid_script.Vm.Strings.{Interner, value_str, intern_dynamic, max_runtime_string_bytes}

abbrev pub max_saved_state_bytes : ℕ
max_saved_state_bytes = 512

-- "SQST"
abbrev pub state_record_magic : List ℕ
state_record_magic = 0x53 ∷ 0x51 ∷ 0x53 ∷ 0x54 ∷ []

-- `write_bytes`, and `write_byte` of one byte.
unfoldable pub write_bytes : List ℕ → List ℕ → Result VmError (List ℕ)
write_bytes out bytes =
    if leb (length out + length bytes) max_saved_state_bytes
    then ok (out ++ bytes)
    else err state_too_large

unfoldable pub write_len_prefixed : List ℕ → List ℕ → Result VmError (List ℕ)
unfolding write_bytes
write_len_prefixed out bytes = do
  guard (ltb (length bytes) 256) state_too_large
  out ← write_bytes out (length bytes ∷ [])
  write_bytes out bytes

module _ (string : ℕ → Result VmError (List ℕ)) where
  unfoldable pub encode_state_record_value : Interner → List ℕ → Value → Result VmError (List ℕ)
  unfolding write_len_prefixed value_str
  encode_state_record_value i out null = write_bytes out (0 ∷ [])
  encode_state_record_value i out (bool_value b) =
      write_bytes out (1 ∷ []) >>= λ out. write_bytes out (flag b ∷ [])
  encode_state_record_value i out (i32_value n) =
      write_bytes out (2 ∷ []) >>= λ out. write_bytes out (to_le 4 n)
  encode_state_record_value i out (string_value s) = do
    out ← write_bytes out (3 ∷ [])
    text ← value_str string i (string_value s)
    write_len_prefixed out text
  encode_state_record_value i out (record_value r) = err invalid_operand
  encode_state_record_value i out (list_value l) = err invalid_operand
  encode_state_record_value i out (handle_value h) = err invalid_operand

  -- The loop over the slots and their values.
  unfoldable pub encode_fields :
      Interner → List ℕ → List StateSlot → List Value → Result VmError (List ℕ)
  unfolding encode_state_record_value
  encode_fields i out [] values = ok out
  encode_fields i out (slot ∷ slots) [] = ok out
  encode_fields i out (slot ∷ slots) (value ∷ values) = do
    name ← string slot.name_id
    out ← write_len_prefixed out name
    out ← write_bytes out (slot.value_type.tag ∷ [])
    out ← write_bytes out (flag slot.value_type.nullable ∷ [])
    out ← encode_state_record_value i out value
    encode_fields i out slots values

  unfoldable pub encode_state_record :
      Interner → List StateSlot → List Value → Result VmError (List ℕ)
  unfolding encode_fields
  encode_state_record i slots state = do
    out ← write_bytes [] state_record_magic
    out ← write_bytes out (length slots ∷ [])
    encode_fields i out slots state

pub data SavedStateValue : Type 0 where
  saved_null : SavedStateValue
  saved_bool : Bool → SavedStateValue
  saved_i32 : ℕ → SavedStateValue
  saved_string : List ℕ → SavedStateValue

unfoldable pub saved_state_value_matches : ℕ → Bool → SavedStateValue → Bool
saved_state_value_matches tag nullable saved_null = nullable
saved_state_value_matches tag nullable (saved_bool b) = tag == 2
saved_state_value_matches tag nullable (saved_i32 n) = tag == 1
saved_state_value_matches tag nullable (saved_string s) =
    tag == 3 && leb (length s) max_runtime_string_bytes

-- The readers return what they read and the cursor behind it.
unfoldable pub read_byte : List ℕ → ℕ → Result VmError (ℕ × ℕ)
read_byte bytes cursor =
    ok_or (get_elem? bytes cursor) invalid_state_record >>= λ b. ok (b, cursor + 1)

-- `bytes.get(cursor..cursor + len)`
unfoldable pub read_range : List ℕ → ℕ → ℕ → Result VmError (List ℕ × ℕ)
read_range bytes cursor len =
    if leb (cursor + len) (length bytes)
    then ok (slice cursor (cursor + len) bytes, cursor + len)
    else err invalid_state_record

unfoldable pub read_len_prefixed : List ℕ → ℕ → Result VmError (List ℕ × ℕ)
unfolding read_byte read_range
read_len_prefixed bytes cursor = do
  (len, cursor) ← read_byte bytes cursor
  read_range bytes cursor len

-- The value by its tag.
unfoldable pub read_saved : List ℕ → ℕ → ℕ → Result VmError (SavedStateValue × ℕ)
unfolding read_byte read_len_prefixed read_range
read_saved bytes cursor value_tag =
    if value_tag == 0
    then ok (saved_null, cursor)
    else if value_tag == 1
    then (read_byte bytes cursor >>= λ (b, next). ok (saved_bool (not (b == 0)), next))
    else if value_tag == 2
    then (read_range bytes cursor 4 >>= λ (raw, next). ok (saved_i32 (from_le raw), next))
    else if value_tag == 3
    then (read_len_prefixed bytes cursor >>= λ (text, next).
        guard (is_utf8 text) invalid_state_record >> ok (saved_string text, next))
    else err invalid_state_record

unfoldable pub read_state_record_value :
    List ℕ → ℕ → ℕ → Bool → Result VmError (SavedStateValue × ℕ)
unfolding read_byte read_saved saved_state_value_matches
read_state_record_value bytes cursor tag nullable = do
  (value_tag, cursor) ← read_byte bytes cursor
  (value, cursor) ← read_saved bytes cursor value_tag
  guard (saved_state_value_matches tag nullable value) state_type_mismatch
  ok (value, cursor)

abbrev pub read_nullable : ℕ → Result VmError Bool
read_nullable b = if b == 0 then ok false else if b == 1 then ok true else err invalid_state_record

-- A field of a record.
pub record SavedField : Type 0 where
  pub name : List ℕ
  pub tag : ℕ
  pub nullable : Bool
  pub value : SavedStateValue

-- What a round of the loop of `apply_state_record` reads.
unfoldable pub read_field : List ℕ → ℕ → Result VmError (SavedField × ℕ)
unfolding read_byte read_len_prefixed read_state_record_value
read_field bytes cursor = do
  (name, cursor) ← read_len_prefixed bytes cursor
  (tag, cursor) ← read_byte bytes cursor
  guard (is_state_type tag) invalid_state_record
  (b, cursor) ← read_byte bytes cursor
  nullable ← read_nullable b
  (value, cursor) ← read_state_record_value bytes cursor tag nullable
  ok (record { name = name; tag = tag; nullable = nullable; value = value }, cursor)

-- The errors of the interner, as `materialize_state_value` reports them.
abbrev pub saved_error : Result VmError Value → Result VmError Value
saved_error (err too_many_strings) = err invalid_state_record
saved_error (err invalid_operand) = err invalid_state_record
saved_error (err e) = err e
saved_error (ok v) = ok v
saved_error panic = panic
saved_error stuck = stuck

module _ (string : ℕ → Result VmError (List ℕ)) (find : List ℕ → Result VmError (Option ℕ)) where
  -- The slot of a name, the first one, and its place.
  unfoldable pub slot_named : List ℕ → ℕ → List StateSlot → Result VmError (Option (ℕ × StateSlot))
  slot_named name place [] = ok none
  slot_named name place (slot ∷ slots) = do
    own ← string slot.name_id
    let later = slot_named name (suc place) slots
    if bytes_eq own name then ok (some (place, slot)) else later

  -- `materialize_state_value`
  unfoldable pub materialize : Interner → SavedStateValue → Interner × Result VmError Value
  unfolding intern_dynamic
  materialize i saved_null = (i, ok null)
  materialize i (saved_bool b) = (i, ok (bool_value b))
  materialize i (saved_i32 n) = (i, ok (i32_value n))
  materialize i (saved_string s) =
      let (i', made) = intern_dynamic string find i s true in (i', saved_error made)

  -- What the loop does with a field.
  unfoldable pub apply_field :
      List StateSlot
      → Interner × List Value
      → SavedField
      → (Interner × List Value) × Result VmError (Unit {0})
  unfolding slot_named materialize
  apply_field slots (i, state) field =
      and_then (slot_named field.name 0 slots) (i, state)
        λ matched. elim matched [
          | none ↦ ((i, state), ok tt)
          | some (place, slot) ↦
              if not (slot.value_type.tag == field.tag)
              then ((i, state), err state_type_mismatch)
              else if not (flag slot.value_type.nullable == flag field.nullable)
              then ((i, state), err state_type_mismatch)
              else let (i', made) = materialize i field.value in
                and_then made (i', state) λ value. ((i', set state place value), ok tt)
        ]

  -- The loop of `apply_state_record`, and the check behind it.
  unfoldable pub apply_fields :
      List StateSlot
      → ℕ
      → List ℕ
      → ℕ
      → Interner × List Value
      → (Interner × List Value) × Result VmError (Unit {0})
  unfolding read_field apply_field
  apply_fields slots zero bytes cursor s =
      (s, if cursor == length bytes then ok tt else err invalid_state_record)
  apply_fields slots (suc n) bytes cursor s = and_then (read_field bytes cursor) s λ (field, next).
      let (s', outcome) = apply_field slots s field in
      and_then outcome s' λ done. apply_fields slots n bytes next s'

  unfoldable pub apply_state_record :
      List ℕ
      → List StateSlot
      → Interner × List Value
      → (Interner × List Value) × Result VmError (Unit {0})
  unfolding apply_fields
  apply_state_record bytes slots s =
      if ltb max_saved_state_bytes (length bytes)
      then (s, err invalid_state_record)
      else if ltb (length bytes) 5
      then (s, err invalid_state_record)
      else if not (bytes_eq (take 4 bytes) state_record_magic)
      then (s, err invalid_state_record)
      else and_then (ok_or (get_elem? bytes 4) invalid_state_record) s
          λ count. apply_fields slots count bytes 5 s
