-- ===== src/Vm/Names.antt =====
-- compiler/rust/crates/squidvm-core/src/program.rs: the checks on the names of a program's tables. The
-- ten loops over a table's names differ in the table and in how a name is read, which is the argument
-- `name` here.
pub mod Unique
use squid_script.Base.{
  ℕ, not, List, [], ◌∷◌, ◌++◌, length, bytes_eq, ltb, Result, ok, ◌>>=◌, ◌>>◌, guard, index,
}
use squid_script.Vm.Values.{
  VmError, invalid_string_ref, duplicate_table_key, Value, string_value, sqbc,
}
use squid_script.Vm.State.{StateSlot}
use squid_script.Vm.Tables.{Function, Handler, TriggerTimerMeta, Screen}

unfoldable pub validate_string_id : ℕ → ℕ → Result VmError (Unit {0})
validate_string_id id string_count = guard (ltb id string_count) invalid_string_ref

unfoldable pub validate_value_string_refs : Value → ℕ → Result VmError (Unit {0})
unfolding validate_string_id
validate_value_string_refs (string_value (sqbc id)) string_count =
    validate_string_id id string_count
validate_value_string_refs _ string_count = ok tt

unfoldable pub table_string : List (List ℕ) → ℕ → Result VmError (List ℕ)
unfolding validate_string_id
table_string strings id = validate_string_id id (length strings) >> index strings id

-- `for x in xs { check(x)?; }`
abbrev pub each {ℓ} :
    {A : Type ℓ} → (A → Result VmError (Unit {0})) → List A → Result VmError (Unit {0})
each check [] = ok tt
each check (x ∷ xs) = check x >> each check xs

module _ {ℓ} {A : Type ℓ} where
  -- The inner loop: `own` is not the name of an entry before it.
  unfoldable pub name_is_new :
      (A → Result VmError (List ℕ)) → List ℕ → List A → Result VmError (Unit {0})
  name_is_new name own [] = ok tt
  name_is_new name own (x ∷ xs) = do
    other ← name x
    guard (not (bytes_eq other own)) duplicate_table_key
    name_is_new name own xs

  -- The outer loop, behind the entries `previous`.
  unfoldable pub names_are_new :
      (A → Result VmError (List ℕ)) → List A → List A → Result VmError (Unit {0})
  unfolding name_is_new
  names_are_new name previous [] = ok tt
  names_are_new name previous (x ∷ xs) = do
    own ← name x
    name_is_new name own previous
    names_are_new name (previous ++ (x ∷ [])) xs

  unfoldable pub validate_unique_names :
      (A → Result VmError (List ℕ)) → List A → Result VmError (Unit {0})
  unfolding names_are_new
  validate_unique_names name xs = names_are_new name [] xs

-- The five checks on the strings of a table of strings, in the order of the source.
unfoldable pub validate_names :
    (ℕ → Result VmError (List ℕ))
    → List StateSlot
    → List Function
    → List Handler
    → List TriggerTimerMeta
    → List Screen
    → Result VmError (Unit {0})
unfolding validate_unique_names
validate_names string_of slots functions handlers timers screens = do
  validate_unique_names (λ (s : StateSlot). string_of s.name_id) slots
  validate_unique_names (λ (f : Function). string_of f.name_id) functions
  validate_unique_names (λ (h : Handler). string_of h.event_id) handlers
  validate_unique_names (λ (t : TriggerTimerMeta). string_of t.event_id) timers
  validate_unique_names (λ (s : Screen). string_of s.name_id) screens

-- The checks of the tables' string ids, by the check of one id.
unfoldable pub validate_ids :
    (ℕ → Result VmError (Unit {0}))
    → ℕ
    → List StateSlot
    → List Function
    → List Handler
    → List TriggerTimerMeta
    → List Screen
    → Result VmError (Unit {0})
unfolding validate_value_string_refs
validate_ids check string_count slots functions handlers timers screens = do
  each (λ (s : StateSlot). check s.name_id >> validate_value_string_refs s.default string_count)
      slots
  each (λ (f : Function). check f.name_id) functions
  each (λ (h : Handler). check h.event_id) handlers
  each (λ (t : TriggerTimerMeta). check t.event_id) timers
  each (λ (s : Screen). check s.name_id) screens
