-- ===== src/Vm/Builtins/Operands/Safe.antt =====
-- compiler/rust/crates/squidvm-core/src/vm.rs: what the operands of builtins and the calls of the host
-- keep of the machine.
use squid_script.Base.{
  ℕ, true, Option, none, some, List, [], ◌∷◌, length, take, leb, Result, ok, fitting, ◌≡◌, Settles,
  Settles-if, Settles-bind, refl, length-take, arith,
}
use squid_script.Base.Utf8.{is_utf8}
use squid_script.Vm.Values.{
  VmError, Value, null, bool_value, i32_value, string_value, record_value, list_value, handle_value,
  sqbc, static_string, dynamic,
}
use squid_script.Vm.Strings.{value_str}
use squid_script.Vm.Strings.Interns.{value_str-Settles}
use squid_script.Vm.Heap.{
  RuntimeRecordField, RuntimeRecords, RuntimeLists, alloc_record, alloc_list, list_get,
  max_runtime_list_items,
}
use squid_script.Vm.ProgramIndex.{index_string}
use squid_script.Vm.Services.{Service, Drawing}
use squid_script.Vm.Machine.{Host, index_find_string}
use squid_script.Vm.Exec.{M, reads}
use squid_script.Vm.Exec.Triples.{Stays, Stays-bind, ret-Stays, reads-Stays}
use squid_script.Vm.Exec.Safe.{
  Returns, At-same, asks-Stays, push-Stays, pop-Stays, index_string-Settles,
  index_find_string-Settles,
}
use squid_script.Vm.Instructions.Safe.{intern_runtime-Stays, list_get-Settles}
use squid_script.Vm.Builtins.Operands.{
  display_color, expect_bool, expect_handle, optional_string, optional_color, as_text, written,
  pop_as, named, optional_named, text_of, resolver, list_item, service, draws, runtime_string_value,
  each_value, alloc, alloc_items, answered, list_of, text_value,
}

display_color-Settles : (v : ℕ) → Settles (display_color v)
unfolding display_color
display_color-Settles v = Settles-if (leb v 15) _ _ tt tt

pub expect_bool-Settles : (v : Value) → Settles (expect_bool v)
unfolding expect_bool
expect_bool-Settles null = tt
expect_bool-Settles (bool_value b) = tt
expect_bool-Settles (i32_value n) = tt
expect_bool-Settles (string_value (sqbc i)) = tt
expect_bool-Settles (string_value (static_string i)) = tt
expect_bool-Settles (string_value (dynamic i)) = tt
expect_bool-Settles (record_value r) = tt
expect_bool-Settles (list_value l) = tt
expect_bool-Settles (handle_value h) = tt

pub expect_handle-Settles : (v : Value) → Settles (expect_handle v)
unfolding expect_handle
expect_handle-Settles null = tt
expect_handle-Settles (bool_value b) = tt
expect_handle-Settles (i32_value n) = tt
expect_handle-Settles (string_value (sqbc i)) = tt
expect_handle-Settles (string_value (static_string i)) = tt
expect_handle-Settles (string_value (dynamic i)) = tt
expect_handle-Settles (record_value r) = tt
expect_handle-Settles (list_value l) = tt
expect_handle-Settles (handle_value h) = tt

pub optional_string-Settles : (v : Value) → Settles (optional_string v)
unfolding optional_string
optional_string-Settles null = tt
optional_string-Settles (bool_value b) = tt
optional_string-Settles (i32_value n) = tt
optional_string-Settles (string_value (sqbc i)) = tt
optional_string-Settles (string_value (static_string i)) = tt
optional_string-Settles (string_value (dynamic i)) = tt
optional_string-Settles (record_value r) = tt
optional_string-Settles (list_value l) = tt
optional_string-Settles (handle_value h) = tt

pub optional_color-Settles : (v : Value) → Settles (optional_color v)
unfolding optional_color
optional_color-Settles null = tt
optional_color-Settles (bool_value b) = tt
optional_color-Settles (i32_value n) =
    Settles-bind (display_color n) _ (display_color-Settles n) (λ _ _. tt)
optional_color-Settles (string_value (sqbc i)) = tt
optional_color-Settles (string_value (static_string i)) = tt
optional_color-Settles (string_value (dynamic i)) = tt
optional_color-Settles (record_value r) = tt
optional_color-Settles (list_value l) = tt
optional_color-Settles (handle_value h) = tt

-- One more part of a conjunction.
infixr 4 ◌⨾◌
abbrev pub ◌⨾◌ : {A B : Type 0} → A → B → A × B
a ⨾ rest = (a, rest)

alloc_record-Settles :
    (r : RuntimeRecords) (fields : List RuntimeRecordField) → Settles (alloc_record r fields).1
unfolding alloc_record
alloc_record-Settles r fields = ground arith

alloc_list-Settles : (l : RuntimeLists) (items : List Value) → Settles (alloc_list l items).1
unfolding alloc_list
alloc_list-Settles l items = ground arith

pub as_text-Settles : (text : List ℕ) → Settles (as_text text)
unfolding as_text
as_text-Settles text = Settles-if (is_utf8 text) _ _ tt tt

module _ {H : Type 0} where
  pub pop_as-Stays :
      {A : Type 0} (expect : Value → Result VmError A)
      → ((v : Value) → Settles (expect v))
      → Stays {H = H} (pop_as expect)
  unfolding pop_as
  pop_as-Stays expect h = Stays-bind _ _ pop-Stays λ v. reads-Stays (λ _. expect v) (λ _ _. h v)

  pub color-Stays : (n : ℕ) → Stays {H = H} (reads (λ _. display_color n))
  color-Stays n = reads-Stays (λ _. display_color n) (λ _ _. display_color-Settles n)

  pub named-Stays : (max id : ℕ) → Stays {H = H} (named max id)
  unfolding named
  named-Stays max id =
      reads-Stays (λ s. index_string max s.index id) (λ s _. index_string-Settles max s.index id)

  pub optional_named-Stays : (max : ℕ) (id : Option ℕ) → Stays {H = H} (optional_named max id)
  unfolding optional_named
  optional_named-Stays max none = ret-Stays none
  optional_named-Stays max (some id) =
      Stays-bind _ _ (named-Stays max id) λ name. ret-Stays (some name)

  pub text_of-Stays : (max : ℕ) (v : Value) → Stays {H = H} (text_of max v)
  unfolding text_of
  text_of-Stays max v =
      reads-Stays (λ s. value_str (index_string max s.index) s.strings v)
        (λ s valid.
          value_str-Settles (index_string max s.index) (index_find_string max s.index)
            (index_string-Settles max s.index) (index_find_string-Settles max s.index) s.strings v
            valid.strings_acyclic)

  pub resolver-Stays : Stays {H = H} resolver
  unfolding resolver
  resolver-Stays =
      reads-Stays (λ s. ok (record { index = s.index; interner = s.strings })) (λ _ _. tt)

  pub list_item-Stays : (list at : ℕ) → Stays {H = H} (list_item list at)
  unfolding list_item
  list_item-Stays list at =
      reads-Stays (λ s. list_get s.runtime_lists list at)
        (λ s _. list_get-Settles s.runtime_lists list at)

  pub service-Stays : (host : Host H) → Returns host → (q : Service) → Stays (service host q)
  unfolding service
  service-Stays host returns q = asks-Stays (host.call q) (returns.call_returns q)

  pub draws-Stays : (host : Host H) (drawing : Drawing) → Stays (draws host drawing)
  unfolding draws
  draws-Stays host drawing = record {
    stays = λ i f s at. (At-same i f s _ refl refl refl refl at, tt);
  }

  pub runtime_string_value-Stays :
      (max : ℕ) (text : Option (List ℕ)) → Stays {H = H} (runtime_string_value max text)
  unfolding runtime_string_value
  runtime_string_value-Stays max none = ret-Stays null
  runtime_string_value-Stays max (some text) = intern_runtime-Stays max text

  each_value-Stays :
      {A : Type 0} (build : A → M H Value) (xs : List A)
      → ((a : A) → Stays (build a))
      → Stays (each_value build xs)
  unfolding each_value
  each_value-Stays build [] h = ret-Stays []
  each_value-Stays build (x ∷ xs) h =
      Stays-bind _ _ (h x)
        λ value. Stays-bind _ _ (each_value-Stays build xs h) λ rest. ret-Stays (value ∷ rest)

  pub alloc-Stays : (fields : List RuntimeRecordField) → Stays {H = H} (alloc fields)
  unfolding alloc
  alloc-Stays fields = record {
    stays = λ i f s at.
        (At-same i f s _ refl refl refl refl at, alloc_record-Settles s.runtime_records fields);
  }

  alloc_items-Stays : (items : List Value) → Stays {H = H} (alloc_items items)
  unfolding alloc_items
  alloc_items-Stays items = record {
    stays = λ i f s at.
        (At-same i f s _ refl refl refl refl at, alloc_list-Settles s.runtime_lists items);
  }

  pub answered-Stays :
      {A : Type 0} (ask : M H A) (build : A → M H Value)
      → Stays ask
      → ((a : A) → Stays (build a))
      → Stays (answered ask build)
  unfolding answered
  answered-Stays ask build h k =
      Stays-bind _ _ h λ a. Stays-bind _ _ (k a) λ value. push-Stays value

  pub list_of-Stays :
      {A : Type 0} (build : A → M H Value) (xs : List A)
      → ((a : A) → Stays (build a))
      → Stays (list_of build xs)
  unfolding list_of
  list_of-Stays build xs h =
      let entries = take max_runtime_list_items xs in
      let few : leb (length entries) max_runtime_list_items ≡ true =
        ground (arith, length-take max_runtime_list_items xs) in
      Stays-bind _ _
        (reads-Stays (λ _. fitting (length entries) max_runtime_list_items (ok tt))
          (λ _ _. rw (few, Settles) tt))
        λ _. Stays-bind _ _ (each_value-Stays build entries h) λ items. alloc_items-Stays items

  pub text_value-Stays : (max : ℕ) (pieces : List (List ℕ)) → Stays {H = H} (text_value max pieces)
  unfolding text_value
  text_value-Stays max pieces =
      Stays-bind _ _
        (reads-Stays (λ _. as_text (written [] pieces))
          (λ _ _. as_text-Settles (written [] pieces)))
        λ text. runtime_string_value-Stays max (some text)
