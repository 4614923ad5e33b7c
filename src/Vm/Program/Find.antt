-- ===== src/Vm/Program/Find.antt =====
-- compiler/rust/crates/squidvm-core/src/program.rs: `handler`, `screen` and `find_string` of a program.
use squid_script.Base.{
  ℕ, zero, suc, ◌<◌, ◌≡◌, ◌≢◌, ◌↔◌, inl, inr, refl, sym, ap, subst, ◌∙◌, Bool-cases, some, List, [],
  ◌∷◌, All, length, get_elem?, bytes_eq, bytes_eq_refl, bytes_eq→eq, lt→ltb, Result, ok, >>=-eq-ok,
  index_ok, arith,
}
use squid_script.Vm.Values.{VmError, invalid_operand, handler_not_found}
use squid_script.Vm.Tables.{Handler, Screen}
use squid_script.Vm.Names.{validate_string_id, table_string}
use squid_script.Vm.Names.Unique.{All-map, All-zip, IsUnique}
use squid_script.Vm.Program.{Program, program_string, find_named, handler, screen}
use squid_script.Vm.Program.WellFormed.{IsProgram}

-- `x` is an entry of the table.
abbrev pub IsEntry {ℓ} : {A : Type ℓ} → A → List A → Type ℓ
IsEntry x xs = (i : ℕ) × (get_elem? xs i ≡ some x)

module _ {ℓ κ} {A : Type ℓ} (P : A → Type κ) where
  pub All_entry : (xs : List A) (x : A) → IsEntry x xs → All P xs → P x
  All_entry [] x (i, e) h = cc
  All_entry (y ∷ ys) x (zero, e) h = let same : y ≡ x = ground arith in subst P same h.0
  All_entry (y ∷ ys) x (suc i, e) h = All_entry ys x (i, e) h.1

module _ {ℓ} {A : Type ℓ} (name : A → Result VmError (List ℕ)) (missing : VmError)
    (wanted : List ℕ) where
  find_named_sound :
      (xs : List A) (x : A)
      → find_named name missing wanted xs ≡ ok x
      → IsEntry x xs × (name x ≡ ok wanted)
  unfolding find_named
  find_named_sound [] x e = cc
  find_named_sound (y ∷ ys) x e =
      let (own, called, e₁) = >>=-eq-ok (name y) _ e in
      elim (Bool-cases (bytes_eq own wanted)) [
        | inl hit ↦
            let eq = bytes_eq→eq own wanted hit in
            let same : y ≡ x = ground arith in
            ((zero, ap some same), rw (← same) (called ∙ ap ok eq))
        | inr miss ↦
            let later : find_named name missing wanted ys ≡ ok x = ground arith in
            let ((i, at), named) = find_named_sound ys x later in ((suc i, at), named)
      ]

  find_named_complete :
      (xs : List A) (x : A)
      → All (λ y. (s : List ℕ) × (name y ≡ ok s)) xs
      → IsUnique name xs
      → IsEntry x xs
      → name x ≡ ok wanted
      → find_named name missing wanted xs ≡ ok x
  unfolding find_named
  find_named_complete [] x all unique (i, e) named = cc
  find_named_complete (y ∷ ys) x all unique (zero, e) named =
      let same : y ≡ x = ground arith in let eq = bytes_eq_refl wanted in rw (same, named, eq) refl
  find_named_complete (y ∷ ys) x all unique (suc i, e) named =
      let (own, called) = all.0 in
      let apart = All_entry _ ys x (i, e) unique.0 in
      let later = find_named_complete ys x all.1 unique.1 (i, e) named in
      elim (Bool-cases (bytes_eq own wanted)) [
        | inl hit ↦ absurd (apart (called ∙ ap ok (bytes_eq→eq own wanted hit) ∙ sym named))
        | inr miss ↦ rw (called, miss) later
      ]

program_string-table :
    (p : Program) (id : ℕ) → id < length p.strings → table_string p.strings id ≡ program_string p id
unfolding table_string validate_string_id program_string
program_string-table p id h = rw (lt→ltb id (length p.strings) h) refl

program_string_ok :
    (p : Program) (id : ℕ) → id < length p.strings → (s : List ℕ) × (program_string p id ≡ ok s)
unfolding program_string
program_string_ok p id h = rw (lt→ltb id (length p.strings) h) (index_ok p.strings id h)

module _ {ℓ} {A : Type ℓ} (name other : A → Result VmError (List ℕ)) where
  IsUnique-named :
      (xs : List A) → All (λ x. name x ≡ other x) xs → IsUnique name xs → IsUnique other xs
  IsUnique-named [] same h = tt
  IsUnique-named (x ∷ xs) same h = (
    All-zip (λ y. name y ≡ other y) {Q = λ y. name x ≢ name y} {R = λ y. other x ≢ other y}
        (λ y e d g. d (same.0 ∙ g ∙ sym e)) xs same.1 h.0,
    IsUnique-named xs same.1 h.1,
  )

-- In a program that `parse` accepts, `handler` finds exactly the handler of the event: its answer is an
-- entry of the table with that event, and every entry of the table is the answer to its own event.
pub handler_iff :
    (p : Program) (event : List ℕ) (h : Handler)
    → IsProgram p
    → (handler p event ≡ ok h) ↔ (IsEntry h p.handlers × (program_string p h.event_id ≡ ok event))
unfolding handler
handler_iff p event h (sound, linked, named) =
    let name : Handler → Result VmError (List ℕ) = λ g. program_string p g.event_id in
    let there =
      All-map _ (λ (g : Handler) b. program_string_ok p g.event_id b) p.handlers linked.handlers in
    let same =
      All-map _ (λ (g : Handler) b. program_string-table p g.event_id b) p.handlers
        linked.handlers in
    let unique = IsUnique-named _ _ p.handlers same named.handlers in
    (
      find_named_sound name handler_not_found event p.handlers h,
      λ (at, called).
          find_named_complete name handler_not_found event p.handlers h there unique at called,
    )

-- In a program that `parse` accepts, `screen` finds exactly the screen of the name: its answer is an
-- entry of the table with that name, and every entry of the table is the answer to its own name.
pub screen_iff :
    (p : Program) (name : List ℕ) (s : Screen)
    → IsProgram p
    → (screen p name ≡ ok s) ↔ (IsEntry s p.screens × (program_string p s.name_id ≡ ok name))
unfolding screen
screen_iff p wanted s (sound, linked, named) =
    let name : Screen → Result VmError (List ℕ) = λ g. program_string p g.name_id in
    let there =
      All-map _ (λ (g : Screen) b. program_string_ok p g.name_id b) p.screens linked.screens in
    let same =
      All-map _ (λ (g : Screen) b. program_string-table p g.name_id b) p.screens linked.screens in
    let unique = IsUnique-named _ _ p.screens same named.screens in
    (
      find_named_sound name invalid_operand wanted p.screens s,
      λ (at, called).
          find_named_complete name invalid_operand wanted p.screens s there unique at called,
    )
