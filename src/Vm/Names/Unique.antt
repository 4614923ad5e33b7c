-- ===== src/Vm/Names/Unique.antt =====
-- compiler/rust/crates/squidvm-core/src/program.rs: the tables that pass the checks on names.
use squid_script.Base.{
  ℕ, ◌<◌, ◌≡◌, ◌≢◌, ◌∙◌, not, List, [], ◌∷◌, ◌++◌, All, bytes_eq, bytes_eq_refl, Result, ok,
  >>=-eq-ok, guard, guard-eq-ok, arith,
}
use squid_script.Vm.Values.{
  VmError, duplicate_table_key, Value, null, bool_value, i32_value, string_value, record_value,
  list_value, handle_value, sqbc, static_string, dynamic,
}
use squid_script.Vm.Names.{
  validate_string_id, validate_value_string_refs, each, name_is_new, names_are_new,
  validate_unique_names,
}

module _ {ℓ κ} {A : Type ℓ} (P : A → Type κ) where
  pub All-append-left : (xs ys : List A) → All P (xs ++ ys) → All P xs
  All-append-left [] ys h = tt
  All-append-left (x ∷ xs) ys h = (h.0, All-append-left xs ys h.1)

  pub All-append-right : (xs ys : List A) → All P (xs ++ ys) → All P ys
  All-append-right [] ys h = h
  All-append-right (x ∷ xs) ys h = All-append-right xs ys h.1

  pub All-zip {μ ν} :
      {Q : A → Type μ} {R : A → Type ν}
      → ((x : A) → P x → Q x → R x)
      → (xs : List A) → All P xs
      → All Q xs
      → All R xs
  All-zip f [] p q = tt
  All-zip f (x ∷ xs) p q = (f x p.0 q.0, All-zip f xs p.1 q.1)

  pub All-map {μ} : {Q : A → Type μ} → ((x : A) → P x → Q x) → (xs : List A) → All P xs → All Q xs
  All-map f [] p = tt
  All-map f (x ∷ xs) p = (f x p.0, All-map f xs p.1)

  pub All-of : ((x : A) → P x) → (xs : List A) → All P xs
  All-of f [] = tt
  All-of f (x ∷ xs) = (f x, All-of f xs)

  pub each-All :
      (check : A → Result VmError (Unit {0}))
      → ((x : A) (u : Unit {0}) → check x ≡ ok u → P x)
      → (xs : List A) {u : Unit {0}} → each check xs ≡ ok u
      → All P xs
  each-All check sound [] e = tt
  each-All check sound (x ∷ xs) e =
      let (u, one, e₁) = >>=-eq-ok (check x) _ e in (sound x u one, each-All check sound xs e₁)

module _ {ℓ} {A : Type ℓ} (name : A → Result VmError (List ℕ)) where
  -- No two entries have the same name.
  abbrev pub IsUnique : List A → Type 0
  IsUnique [] = Unit {0}
  IsUnique (x ∷ xs) = All (λ y. name x ≢ name y) xs × IsUnique xs

  name_is_new-All :
      (own : List ℕ) (xs : List A) {u : Unit {0}}
      → name_is_new name own xs ≡ ok u
      → All (λ x. name x ≢ ok own) xs
  unfolding name_is_new
  name_is_new-All own [] e = tt
  name_is_new-All own (x ∷ xs) e =
      let (other, called, e₁) = >>=-eq-ok (name x) _ e in
      let (u, fresh, e₂) = >>=-eq-ok (guard (not (bytes_eq other own)) duplicate_table_key) _ e₁ in
      let differs = guard-eq-ok (not (bytes_eq other own)) duplicate_table_key fresh in
      let same = bytes_eq_refl own in ((λ h. ground arith), name_is_new-All own xs e₂)

  names_are_new-IsUnique :
      (previous xs : List A) {u : Unit {0}}
      → names_are_new name previous xs ≡ ok u
      → All (λ p. All (λ x. name p ≢ name x) xs) previous × IsUnique xs
  unfolding names_are_new
  names_are_new-IsUnique previous [] e = (All-of _ (λ p. tt) previous, tt)
  names_are_new-IsUnique previous (x ∷ xs) e =
      let (own, called, e₁) = >>=-eq-ok (name x) _ e in
      let (u, fresh, e₂) = >>=-eq-ok (name_is_new name own previous) _ e₁ in
      let (apart, rest) = names_are_new-IsUnique (previous ++ (x ∷ [])) xs e₂ in
      let front = All-append-left _ previous (x ∷ []) apart in
      let back = All-append-right _ previous (x ∷ []) apart in
      let new = name_is_new-All own previous fresh in
      (
        All-zip _ (λ p (h : name p ≢ ok own) t. ((λ (e : name p ≡ name x). h (e ∙ called)), t))
            previous new front,
        (back.0, rest),
      )

  pub validate_unique_names-IsUnique :
      (xs : List A) {u : Unit {0}} → validate_unique_names name xs ≡ ok u → IsUnique xs
  unfolding validate_unique_names
  validate_unique_names-IsUnique xs e = (names_are_new-IsUnique [] xs e).1

pub validate_string_id-lt : (id n : ℕ) {u : Unit {0}} → validate_string_id id n ≡ ok u → id < n
unfolding validate_string_id
validate_string_id-lt id n e = ground arith

-- A string of the program that a value names is one of the `n` strings.
abbrev pub RefersBelow : ℕ → Value → Type 0
RefersBelow n (string_value (sqbc id)) = id < n
RefersBelow n _ = Unit {0}

pub validate_value_string_refs-RefersBelow :
    (v : Value) (n : ℕ) {u : Unit {0}} → validate_value_string_refs v n ≡ ok u → RefersBelow n v
unfolding validate_value_string_refs
validate_value_string_refs-RefersBelow null n e = tt
validate_value_string_refs-RefersBelow (bool_value b) n e = tt
validate_value_string_refs-RefersBelow (i32_value i) n e = tt
validate_value_string_refs-RefersBelow (string_value (sqbc id)) n e = validate_string_id-lt id n e
validate_value_string_refs-RefersBelow (string_value (static_string i)) n e = tt
validate_value_string_refs-RefersBelow (string_value (dynamic i)) n e = tt
validate_value_string_refs-RefersBelow (record_value r) n e = tt
validate_value_string_refs-RefersBelow (list_value l) n e = tt
validate_value_string_refs-RefersBelow (handle_value h) n e = tt
