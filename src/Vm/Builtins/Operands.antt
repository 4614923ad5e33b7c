-- ===== src/Vm/Builtins/Operands.antt =====
-- compiler/rust/crates/squidvm-core/src/vm.rs: how builtins take their operands and ask the host.
pub mod Safe
use squid_script.Base.{
  ℕ, ◌+◌, Bool, Option, none, some, List, [], ◌∷◌, ◌++◌, length, take, leb, if◌then◌else◌, Result,
  ok, err, fitting,
}
use squid_script.Base.Utf8.{is_utf8}
use squid_script.Vm.Values.{
  VmError, invalid_operand, invalid_utf8, Value, null, bool_value, i32_value, string_value,
  handle_value, sqbc, Handle,
}
use squid_script.Vm.Strings.{value_str}
use squid_script.Vm.Heap.{
  RuntimeRecordField, alloc_record, alloc_list, list_get, max_runtime_list_items,
}
use squid_script.Vm.ProgramIndex.{index_string}
use squid_script.Vm.Services.{Service, Answer, Drawing, Resolver}
use squid_script.Vm.Machine.{Host}
use squid_script.Vm.Exec.{M, ◌>>=◌, ◌>>◌, ret, reads, asks, push, pop}
use squid_script.Vm.Instructions.{intern_runtime}

-- `display_color_from_i32`: a negative value is above 15 too.
unfoldable pub display_color : ℕ → Result VmError ℕ
display_color value = if leb value 15 then ok value else err invalid_operand

unfoldable pub expect_bool : Value → Result VmError Bool
expect_bool (bool_value b) = ok b
expect_bool value = err invalid_operand

unfoldable pub expect_handle : Value → Result VmError Handle
expect_handle (handle_value handle) = ok handle
expect_handle value = err invalid_operand

unfoldable pub optional_string : Value → Result VmError (Option ℕ)
optional_string null = ok none
optional_string (string_value (sqbc id)) = ok (some id)
optional_string value = err invalid_operand

unfoldable pub optional_color : Value → Result VmError (Option ℕ)
unfolding display_color
optional_color null = ok none
optional_color (i32_value n) = squid_script.Base.◌>>=◌ (display_color n) λ color. ok (some color)
optional_color value = err invalid_operand

-- `write_str` of a `FixedString`: what does not fit is left out.
abbrev pub write_str : List ℕ → List ℕ → List ℕ
write_str text piece = if leb (length text + length piece) 128 then text ++ piece else text

unfoldable pub written : List ℕ → List (List ℕ) → List ℕ
written text [] = text
written text (piece ∷ pieces) = written (write_str text piece) pieces

-- `FixedString::as_str`
unfoldable pub as_text : List ℕ → Result VmError (List ℕ)
as_text text = if is_utf8 text then ok text else err invalid_utf8

module _ {H : Type 0} where
  -- `self.pop()?` and what the operand must be.
  unfoldable pub pop_as : {A : Type 0} → (Value → Result VmError A) → M H A
  unfolding pop
  pop_as expect = pop >>= λ value. reads (λ _. expect value)

  -- A string of the program.
  unfoldable pub named : ℕ → ℕ → M H (List ℕ)
  unfolding index_string
  named max id = reads (λ s. index_string max s.index id)

  unfoldable pub optional_named : ℕ → Option ℕ → M H (Option (List ℕ))
  unfolding named
  optional_named max none = ret none
  optional_named max (some id) = named max id >>= λ name. ret (some name)

  -- `resolver.value_str`
  unfoldable pub text_of : ℕ → Value → M H (List ℕ)
  unfolding value_str index_string
  text_of max value = reads (λ s. value_str (index_string max s.index) s.strings value)

  unfoldable pub resolver : M H Resolver
  resolver = reads (λ s. ok (record { index = s.index; interner = s.strings }))

  unfoldable pub list_item : ℕ → ℕ → M H Value
  unfolding list_get
  list_item list at = reads (λ s. list_get s.runtime_lists list at)

  unfoldable pub service : Host H → (q : Service) → M H (Answer q)
  service host q = asks (host.call q)

  unfoldable pub draws : Host H → Drawing → M H (Unit {0})
  draws host drawing s = (record s { host = host.draw drawing s.host }, ok tt)

  -- `runtime_string_value`
  unfoldable pub runtime_string_value : ℕ → Option (List ℕ) → M H Value
  unfolding intern_runtime
  runtime_string_value max none = ret null
  runtime_string_value max (some text) = intern_runtime max text

  -- The loops that fill `items`.
  unfoldable pub each_value : {A : Type 0} → (A → M H Value) → List A → M H (List Value)
  each_value build [] = ret []
  each_value build (x ∷ xs) = do value ← build x; rest ← each_value build xs; ret (value ∷ rest)

  unfoldable pub alloc : List RuntimeRecordField → M H Value
  unfolding alloc_record
  alloc fields s =
      let (records, made) = alloc_record s.runtime_records fields in
      (record s { runtime_records = records }, made)

  unfoldable pub alloc_items : List Value → M H Value
  unfolding alloc_list
  alloc_items items s =
      let (lists, made) = alloc_list s.runtime_lists items in
      (record s { runtime_lists = lists }, made)

  -- A call, the record of its answer, and `self.push(value)?`.
  unfoldable pub answered : {A : Type 0} → M H A → (A → M H Value) → M H (Unit {0})
  unfolding push
  answered ask build = do answer ← ask; value ← build answer; push value

  -- The first eight entries of an answer, as a list.
  unfoldable pub list_of : {A : Type 0} → (A → M H Value) → List A → M H Value
  unfolding each_value alloc_items
  list_of build xs = do
    let entries = take max_runtime_list_items xs
    reads (λ _. fitting (length entries) max_runtime_list_items (ok tt))
    items ← each_value build entries
    alloc_items items

  -- The text that the host writes, as a value.
  unfoldable pub text_value : ℕ → List (List ℕ) → M H Value
  unfolding written as_text runtime_string_value
  text_value max pieces = do
    text ← reads (λ _. as_text (written [] pieces))
    runtime_string_value max (some text)
