-- ===== src/Vm/Strings/Interns.antt =====
-- compiler/rust/crates/squidvm-core/src/strings.rs: what the operations of the interner leave.
use squid_script.Base.{
  ℕ, suc, ◌+◌, ◌≡◌, inl, inr, refl, sym, ap, subst, ◌∙◌, Bool, true, false, ◌||◌, Bool-cases,
  Option, none, some, Option-cases, List, [], ◌∷◌, ◌++◌, length, get_elem?, is_empty, ltb, leb,
  if◌then◌else◌, Result, ok, err, panic, stuck, and_then, Settles, Settles-bind, Settles-if,
  >>=-eq-ok, arith,
}
use squid_script.Vm.Values.{
  VmError, invalid_operand, too_many_strings, StringRef, sqbc, static_string, dynamic, Value, null,
  bool_value, i32_value, string_value, record_value, list_value, handle_value,
}
use squid_script.Vm.Strings.{
  max_service_strings, max_service_string_bytes, max_runtime_string_bytes, static_strings, inline,
  part, Interner, empty_interner, encode_string_source, static_string_id, or_static, get, value_str,
  find_dynamic_from, find_in_dynamic, find_substring, alloc_dynamic, alloc_slice, mark, intern_new,
  intern_dynamic, retain_values, retain_state_values, retain_value,
}
use squid_script.Vm.Strings.Acyclic.{
  IsAcyclic, found_at, found_place, no_place, get-Settles, find_dynamic_from-Settles,
  find_in_dynamic-lem, find_in_static-static, IsBefore, encode-decode, IsAcyclic-append,
  set_retained-IsAcyclic,
}

-- What holds of the interner that an operation leaves, whatever its result, which there is.
abbrev pub Interns {ℓ} : {A : Type ℓ} → Interner × Result VmError A → Type 0
Interns (i, outcome) = IsAcyclic i.refs × Settles outcome

pub retain_value-Interns :
    (i : Interner) (v : Value) → IsAcyclic i.refs → Interns (retain_value i v)
unfolding retain_value
retain_value-Interns i (string_value (dynamic id)) acyclic =
    elim (Option-cases (get_elem? i.refs id)) [
      | inl gone ↦ rw (gone, retain_value) (acyclic, tt)
      | inr (r, at) ↦ rw (at, retain_value) (set_retained-IsAcyclic i.refs id r at acyclic, tt)
    ]
retain_value-Interns i (string_value (sqbc id)) acyclic = (acyclic, tt)
retain_value-Interns i (string_value (static_string id)) acyclic = (acyclic, tt)
retain_value-Interns i null acyclic = (acyclic, tt)
retain_value-Interns i (bool_value b) acyclic = (acyclic, tt)
retain_value-Interns i (i32_value n) acyclic = (acyclic, tt)
retain_value-Interns i (record_value r) acyclic = (acyclic, tt)
retain_value-Interns i (list_value l) acyclic = (acyclic, tt)
retain_value-Interns i (handle_value h) acyclic = (acyclic, tt)

mark-IsAcyclic :
    (i : Interner) (id : ℕ) (retained : Bool)
    → IsAcyclic i.refs
    → IsAcyclic (mark i id retained).refs
unfolding mark
mark-IsAcyclic i id false acyclic = elim (Option-cases (get_elem? i.refs id)) [
  | inl gone ↦ rw (gone, mark) acyclic
  | inr (r, at) ↦ rw (at, mark) acyclic
]
mark-IsAcyclic i id true acyclic = elim (Option-cases (get_elem? i.refs id)) [
  | inl gone ↦ rw (gone, mark) acyclic
  | inr (r, at) ↦ rw (at, mark) (set_retained-IsAcyclic i.refs id r at acyclic)
]

Interns-if {ℓ} :
    {A : Type ℓ} (b : Bool) (x y : Interner × Result VmError A)
    → Interns x
    → Interns y
    → Interns (if b then x else y)
Interns-if true x y hx hy = hx
Interns-if false x y hx hy = hy

-- The second branch may rely on the failed test.
Interns-else {ℓ} :
    {A : Type ℓ} (b : Bool) (x y : Interner × Result VmError A)
    → Interns x
    → (b ≡ false → Interns y)
    → Interns (if b then x else y)
Interns-else true x y hx hy = hx
Interns-else false x y hx hy = hy refl

Interns-and_then {ℓ κ} :
    {A : Type ℓ} {B : Type κ} (r : Result VmError A) (i : Interner)
    (f : A → Interner × Result VmError B)
    → Settles r
    → IsAcyclic i.refs
    → ((a : A) → r ≡ ok a → Interns (f a))
    → Interns (and_then r i f)
Interns-and_then (ok a) i f h acyclic k = k a refl
Interns-and_then (err e) i f h acyclic k = (acyclic, tt)
Interns-and_then panic i f h acyclic k = absurd h
Interns-and_then stuck i f h acyclic k = absurd h

Interns-Option {ℓ κ} :
    {A : Type ℓ} {B : Type κ} (o : Option A) (x : Interner × Result VmError B)
    (f : A → Interner × Result VmError B)
    → (o ≡ none → Interns x)
    → ((a : A) → o ≡ some a → Interns (f a))
    → Interns {A = B} (elim o [ none ↦ x | some a ↦ f a ])
Interns-Option none x f hx hf = hx refl
Interns-Option (some a) x f hx hf = hf a refl

alloc_dynamic-Interns :
    (i : Interner) (value : List ℕ) (retained : Bool)
    → IsAcyclic i.refs
    → Interns (alloc_dynamic i value retained)
unfolding alloc_dynamic
alloc_dynamic-Interns i value retained acyclic =
    let new : IsAcyclic (i.refs ++ (inline (length i.pool) (length value) retained ∷ [])) =
      IsAcyclic-append i.refs (inline (length i.pool) (length value) retained) acyclic
        (λ _ _ _ _ _ e d. cc) in
    Interns-else (leb max_service_strings (length i.refs)) (i, err too_many_strings) _ (acyclic, tt)
      λ room.
        Interns-else (ltb max_service_string_bytes (length i.pool + length value))
          (i, err too_many_strings) _ (acyclic, tt)
          λ space.
            let fits : leb (suc (length i.refs)) max_service_strings ≡ true =
              ground (arith, room) in
            let holds : leb (length i.pool + length value) max_service_string_bytes ≡ true =
              ground (arith, space) in
            (new, rw (fits, holds) tt)

encode_string_source-Settles : (r : StringRef) → Settles (encode_string_source r)
unfolding encode_string_source
encode_string_source-Settles (sqbc id) = ground arith
encode_string_source-Settles (static_string id) = ground arith
encode_string_source-Settles (dynamic id) = ground arith

alloc_slice-Interns :
    (i : Interner) (source : StringRef) (offset len : ℕ) (retained : Bool)
    → IsBefore (length i.refs) source
    → IsAcyclic i.refs
    → Interns (alloc_slice i source offset len retained)
unfolding alloc_slice
alloc_slice-Interns i source offset len retained before acyclic =
    Interns-else (leb max_service_strings (length i.refs)) (i, err too_many_strings) _ (acyclic, tt)
      λ room.
        (Interns-if (ltb 65535 offset || ltb 65535 len) (i, err invalid_operand) _ (acyclic, tt)
          (Interns-and_then (encode_string_source source) i _ (encode_string_source-Settles source)
            acyclic
            (λ e made. (
              IsAcyclic-append i.refs (part e offset len retained) acyclic (λ s o l b j same d.
                  let sources : e ≡ s = ground arith in
                  encode-decode (length i.refs) source e j before made (rw sources d)),
              (let fits : leb (suc (length i.refs)) max_service_strings ≡ true =
                    ground (arith, room) in
                  rw (fits, Settles) tt),
            ))))

or_static-IsBefore :
    (n : ℕ) (value : List ℕ) (found : Option (StringRef × ℕ)) (r : StringRef) (offset : ℕ)
    → ((r' : StringRef) (o : ℕ) → found ≡ some (r', o) → IsBefore n r')
    → or_static value found ≡ some (r, offset)
    → IsBefore n r
unfolding or_static
or_static-IsBefore n value none r offset h e =
    let (j, same) = find_in_static-static 0 static_strings value r offset e in
    subst (IsBefore n) (sym same) tt
or_static-IsBefore n value (some (r', o)) r offset h e = h r offset e

nothing_found : (n : ℕ) (r : StringRef) (offset : ℕ) → no_place ≡ found_at r offset → IsBefore n r
nothing_found n r offset e = cc

ok-injective : (a b : Option (StringRef × ℕ)) → found_place a ≡ found_place b → a ≡ b
ok-injective a b e = ground arith

module _ (string : ℕ → Result VmError (List ℕ)) (find : List ℕ → Result VmError (Option ℕ))
    (settles : (id : ℕ) → Settles (string id)) (finds : (s : List ℕ) → Settles (find s)) where
  find_substring-lem :
      (i : Interner) (value : List ℕ)
      → IsAcyclic i.refs
      → Settles (find_substring string i value)
        × ((r : StringRef) (offset : ℕ)
            → find_substring string i value ≡ ok (some (r, offset))
            → IsBefore (length i.refs) r)
  unfolding find_substring
  find_substring-lem i value acyclic =
      let (later, place) = find_in_dynamic-lem string settles i value 0 (length i.refs) acyclic in
      (
        Settles-if (is_empty value) (ok none) _ tt
            (Settles-bind (find_in_dynamic string i value 0 (length i.refs)) _ later (λ _ _. tt)),
        λ r offset e. elim (Bool-cases (is_empty value)) [
          | inl empty ↦ nothing_found _ r offset (rw (empty, find_substring) at e)
          | inr full ↦
              let (found, first, e₁) =
                >>=-eq-ok (find_in_dynamic string i value 0 (length i.refs))
                  (λ (p : Option (StringRef × ℕ)). ok (or_static value p))
                  (rw (full, find_substring) at e) in
              or_static-IsBefore (length i.refs) value found r offset
                (λ r' o same.
                  let (j, is, below) =
                    place r' o (first ∙ ap (λ (p : Option (StringRef × ℕ)). ok p) same) in
                  subst (IsBefore (length i.refs)) (sym is) (omega arith))
                (ok-injective (or_static value found) (some (r, offset)) e₁)
        ],
      )

  intern_new-Interns :
      (i : Interner) (value : List ℕ) (retained : Bool)
      → IsAcyclic i.refs
      → Interns (intern_new string find i value retained)
  unfolding intern_new
  intern_new-Interns i value retained acyclic =
      let (later, place) = find_substring-lem i value acyclic in
      Interns-and_then (find_substring string i value) i _ later acyclic λ found e.
        Interns-Option found (alloc_dynamic i value retained)
          (λ (p : StringRef × ℕ). alloc_slice i p.0 p.1 (length value) retained)
          (λ _. alloc_dynamic-Interns i value retained acyclic)
          (λ p same.
            alloc_slice-Interns i p.0 p.1 (length value) retained (place p.0 p.1 (rw same at e))
              acyclic)

  pub intern_dynamic-Interns :
      (i : Interner) (value : List ℕ) (retained : Bool)
      → IsAcyclic i.refs
      → Interns (intern_dynamic string find i value retained)
  unfolding intern_dynamic
  intern_dynamic-Interns i value retained acyclic =
      Interns-if (ltb max_runtime_string_bytes (length value)) (i, err invalid_operand) _
        (acyclic, tt)
        (Interns-and_then (find value) i _ (finds value) acyclic λ known _.
          Interns-Option known _ (λ (id : ℕ). (i, ok (string_value (sqbc id))))
            (λ _.
              Interns-Option (static_string_id value) _
                (λ (id : ℕ). (i, ok (string_value (static_string id))))
                (λ _.
                  Interns-and_then (find_dynamic_from string i value 0 (length i.refs)) i _
                    (find_dynamic_from-Settles string settles i value 0 (length i.refs) acyclic)
                    acyclic
                    λ held _.
                      Interns-Option held (intern_new string find i value retained)
                        (λ (id : ℕ). (mark i id retained, ok (string_value (dynamic id))))
                        (λ _. intern_new-Interns i value retained acyclic)
                        (λ id _. (mark-IsAcyclic i id retained acyclic, tt)))
                (λ id _. (acyclic, tt)))
            (λ id _. (acyclic, tt)))

  pub value_str-Settles :
      (i : Interner) (v : Value) → IsAcyclic i.refs → Settles (value_str string i v)
  unfolding value_str
  value_str-Settles i (string_value r) acyclic = get-Settles string settles i r acyclic
  value_str-Settles i null acyclic = tt
  value_str-Settles i (bool_value b) acyclic = tt
  value_str-Settles i (i32_value n) acyclic = tt
  value_str-Settles i (record_value r) acyclic = tt
  value_str-Settles i (list_value l) acyclic = tt
  value_str-Settles i (handle_value h) acyclic = tt

  -- Of what the move of the state's strings leaves: the interner, the values and the outcome.
  abbrev pub Moved : ℕ → (Interner × List Value) × Result VmError (Unit {0}) → Type 0
  Moved n ((i, values), outcome) = IsAcyclic i.refs × (length values ≡ n) × Settles outcome

  Moved-and_then {ℓ} :
      {A : Type ℓ} (n : ℕ) (r : Result VmError A) (s : Interner × List Value)
      (f : A → (Interner × List Value) × Result VmError (Unit {0}))
      → Settles r
      → IsAcyclic s.0.refs
      → length s.1 ≡ n
      → ((a : A) → r ≡ ok a → Moved n (f a))
      → Moved n (and_then r s f)
  Moved-and_then n (ok a) s f h acyclic size k = k a refl
  Moved-and_then n (err e) s f h acyclic size k = (acyclic, size, tt)
  Moved-and_then n panic s f h acyclic size k = absurd h
  Moved-and_then n stuck s f h acyclic size k = absurd h

  Moved-cons :
      (n : ℕ) (v : Value) (r : (Interner × List Value) × Result VmError (Unit {0}))
      → Moved n r
      → Moved (suc n) ((r.0.0, v ∷ r.0.1), r.1)
  Moved-cons n v r (acyclic, size, fine) = (acyclic, omega arith, fine)

  retain_values-Moved :
      (old i : Interner) (values : List Value)
      → IsAcyclic old.refs
      → IsAcyclic i.refs
      → Moved (length values) (retain_values string find old i values)
  unfolding retain_values
  retain_values-Moved old i [] h acyclic = (acyclic, refl, tt)
  retain_values-Moved old i (string_value (dynamic id) ∷ values) h acyclic =
      Moved-and_then (suc (length values)) (get string old (dynamic id))
        (i, string_value (dynamic id) ∷ values) _ (get-Settles string settles old (dynamic id) h)
        acyclic refl
        λ text _.
          let (acyclic', made) = intern_dynamic-Interns i text true acyclic in
          let (i', outcome) = intern_dynamic string find i text true in
          Moved-and_then (suc (length values)) outcome (i', string_value (dynamic id) ∷ values) _
            made acyclic' refl
            λ value _.
              Moved-cons (length values) value (retain_values string find old i' values)
                (retain_values-Moved old i' values h acyclic')
  retain_values-Moved old i (string_value (sqbc id) ∷ values) h acyclic =
      Moved-cons (length values) null (retain_values string find old i values)
        (retain_values-Moved old i values h acyclic)
  retain_values-Moved old i (string_value (static_string id) ∷ values) h acyclic =
      Moved-cons (length values) null (retain_values string find old i values)
        (retain_values-Moved old i values h acyclic)
  retain_values-Moved old i (null ∷ values) h acyclic =
      Moved-cons (length values) null (retain_values string find old i values)
        (retain_values-Moved old i values h acyclic)
  retain_values-Moved old i (bool_value b ∷ values) h acyclic =
      Moved-cons (length values) null (retain_values string find old i values)
        (retain_values-Moved old i values h acyclic)
  retain_values-Moved old i (i32_value n ∷ values) h acyclic =
      Moved-cons (length values) null (retain_values string find old i values)
        (retain_values-Moved old i values h acyclic)
  retain_values-Moved old i (record_value r ∷ values) h acyclic =
      Moved-cons (length values) null (retain_values string find old i values)
        (retain_values-Moved old i values h acyclic)
  retain_values-Moved old i (list_value l ∷ values) h acyclic =
      Moved-cons (length values) null (retain_values string find old i values)
        (retain_values-Moved old i values h acyclic)
  retain_values-Moved old i (handle_value v ∷ values) h acyclic =
      Moved-cons (length values) null (retain_values string find old i values)
        (retain_values-Moved old i values h acyclic)

  pub retain_state_values-Moved :
      (i : Interner) (state : List Value)
      → IsAcyclic i.refs
      → Moved (length state) (retain_state_values string find i state)
  unfolding retain_state_values
  retain_state_values-Moved i state h =
      retain_values-Moved i empty_interner state h (λ k source offset len retained j at d. cc)
