-- ===== src/Vm/State/Section.antt =====
-- compiler/rust/crates/squidvm-core/src/state.rs and compiler/rust/crates/squidc-core/src/sqbc.rs: the
-- VM's reader on the state section of the compiler's writer.
use squid_script.Base.{
  ℕ, suc, ◌+◌, ◌-◌, ◌^◌, ◌%◌, ◌/◌, map, ◌≤◌, ◌<◌, ◌≡◌, refl, ap, ◌∙◌, subst, Bool, true, false,
  Option, none, some, List, [], ◌∷◌, ◌++◌, append_assoc, All, length, length-append, replicate, ltb,
  leb, ◌==◌, Result, ok, >>=-eq-ok, guard, ok_or, arith, Option-cases, inl, inr,
}
use squid_script.Base.Words.{to_le}
use squid_script.Vm.Values.{
  Value, null, bool_value, i32_value, string_value, sqbc, read_u16, read_i32, read_value,
}
use squid_script.Vm.State.{
  StateSlot, max_state, unused_slot, state_value_matches, is_state_type, read_flag, parse_slot,
  parse_slots, parse_state, SqbcError, missing_state_name, too_many_slots, Json, json_null,
  json_bool, json_i64, json_str, json_other, IrStateValue, state_type_tag, i32_from_i64, flag,
  encode_value, encode_slots, encode_state_section,
}
use squid_script.Vm.Values.Reads.{
  byte_at-cons, byte_at-second, read_le-second, byte_at-third, byte_at-fourth, read_u16-to_le,
}

-- The value that the compiler's constant stands for in the VM.
abbrev str_value : Option ℕ → Value
str_value none = null
str_value (some id) = string_value (sqbc id)

abbrev pub value_of : (List ℕ → Option ℕ) → Json → Value
value_of ids json_null = null
value_of ids (json_bool b) = bool_value b
value_of ids (json_i64 n) = i32_value (n % 2 ^ 32)
value_of ids (json_str s) = str_value (ids s)
value_of ids json_other = null

abbrev or_zero : Result SqbcError ℕ → ℕ
or_zero (ok n) = n
or_zero _ = 0

abbrev id_or_zero : Option ℕ → ℕ
id_or_zero none = 0
id_or_zero (some id) = id

-- The slot of a state field.
abbrev pub slot_of : (List ℕ → Option ℕ) → IrStateValue → StateSlot
slot_of ids state = record {
  name_id = id_or_zero (ids state.name);
  value_type = record {
    tag = or_zero (state_type_tag state.value_type);
    nullable = state.nullable;
  };
  default = value_of ids state.value;
}

-- The field's constant has the field's type.
abbrev pub IsTyped : (List ℕ → Option ℕ) → IrStateValue → Type 0
IsTyped ids state =
    state_value_matches (or_zero (state_type_tag state.value_type)) state.nullable
      (value_of ids state.value)
    ≡ true

read_flag-flag : (b : Bool) → read_flag (flag b) ≡ ok b
read_flag-flag true = refl
read_flag-flag false = refl

state_type_tag-is_state_type :
    (t : List ℕ) (n : ℕ) → state_type_tag t ≡ ok n → is_state_type n ≡ true
unfolding state_type_tag
state_type_tag-is_state_type t n e = ground arith

module _ (ids : List ℕ → Option ℕ)
    (ids-lt : (s : List ℕ) (id : ℕ) → ids s ≡ some id → id < 2 ^ 16) where
  read_value-encode_value :
      (json : Json) (v xs rest : List ℕ) (i : ℕ)
      → encode_value ids json ≡ ok v
      → i ≡ length xs
      → read_value (xs ++ (v ++ rest)) i ≡ ok (value_of ids json, i + length v)
  unfolding read_value encode_value i32_from_i64 read_i32 read_u16
  read_value-encode_value json_null v xs rest i e at =
      let same : v ≡ (0 ∷ []) = ground arith in rw (same, byte_at-cons xs rest i 0 at) refl
  read_value-encode_value (json_bool true) v xs rest i e at =
      let same : v ≡ (1 ∷ 1 ∷ []) = ground arith in
      rw (same, byte_at-cons xs (1 ∷ rest) i 1 at, byte_at-second xs rest i 1 1 at) refl
  read_value-encode_value (json_bool false) v xs rest i e at =
      let same : v ≡ (1 ∷ 0 ∷ []) = ground arith in
      rw (same, byte_at-cons xs (0 ∷ rest) i 1 at, byte_at-second xs rest i 1 0 at) refl
  read_value-encode_value (json_i64 n) v xs rest i e at =
      let m = n % 2 ^ 32 in
      let same : v ≡ (2 ∷ to_le 4 m) = ground arith in
      rw
        (
          same,
          byte_at-cons xs (to_le 4 m ++ rest) i 2 at,
          read_le-second 4 m xs rest i 2 (omega arith) at,
        )
        refl
  read_value-encode_value (json_str s) v xs rest i e at = elim (Option-cases (ids s)) [
    | inl missing ↦ absurd (ground arith)
    | inr (id, found) ↦
        let same : v ≡ (3 ∷ to_le 2 id) = ground arith in
        rw
          (
            same,
            found,
            byte_at-cons xs (to_le 2 id ++ rest) i 3 at,
            read_le-second 2 id xs rest i 3 (ids-lt s id found) at,
          )
          refl
  ]
  read_value-encode_value json_other v xs rest i e at = absurd (ground arith)

  parse_slot-eq :
      (id tag : ℕ) (nullable : Bool) (json : Json) (v xs rest : List ℕ) (i : ℕ)
      → i ≡ length xs
      → id < 2 ^ 16
      → is_state_type tag ≡ true
      → encode_value ids json ≡ ok v
      → state_value_matches tag nullable (value_of ids json) ≡ true
      → parse_slot (xs ++ (to_le 2 id ++ (tag ∷ flag nullable ∷ (v ++ rest)))) i
        ≡ ok (
          record {
            name_id = id;
            value_type = record { tag = tag; nullable = nullable };
            default = value_of ids json;
          },
          i + 4 + length v,
        )
  unfolding parse_slot
  parse_slot-eq id tag nullable json v xs rest i at width known coded typed =
      let more = tag ∷ flag nullable ∷ (v ++ rest) in
      let four = to_le 2 id ++ (tag ∷ flag nullable ∷ []) in
      let name = read_u16-to_le id xs more i width at in
      let type =
        byte_at-third xs (flag nullable ∷ (v ++ rest)) i (id % 256) (id / 256 % 256) tag at in
      let null_flag =
        byte_at-fourth xs (v ++ rest) i (id % 256) (id / 256 % 256) tag (flag nullable) at in
      let size = length-append xs four in
      let value = read_value-encode_value json v (xs ++ four) rest (i + 4) coded (omega arith) in
      let value' = rw (append_assoc xs four (v ++ rest)) at value in
      rw (name, type, known, null_flag, read_flag-flag nullable, value', typed) refl

  encode_slots-inv :
      (state : IrStateValue) (states : List IrStateValue) (slots : List ℕ)
      → encode_slots ids (state ∷ states) ≡ ok slots
      → (id tag : ℕ) × (v rest : List ℕ) × (ids state.name ≡ some id)
        × (state_type_tag state.value_type ≡ ok tag)
        × (encode_value ids state.value ≡ ok v)
        × (encode_slots ids states ≡ ok rest)
        × (to_le 2 id ++ (tag ∷ flag state.nullable ∷ (v ++ rest)) ≡ slots)
  unfolding encode_slots
  encode_slots-inv state states slots e =
      let (id, named, e₁) = >>=-eq-ok (ok_or (ids state.name) missing_state_name) _ e in
      let (tag, tagged, e₂) = >>=-eq-ok (state_type_tag state.value_type) _ e₁ in
      let (v, coded, e₃) = >>=-eq-ok (encode_value ids state.value) _ e₂ in
      let (rest, others, e₄) = >>=-eq-ok (encode_slots ids states) _ e₃ in
      (id, tag, v, rest, ground arith, tagged, coded, others, ground arith)

  slots_step :
      (state : IrStateValue) (states : List IrStateValue) (id tag : ℕ) (v rest xs : List ℕ) (i : ℕ)
      → i ≡ length xs
      → ids state.name ≡ some id
      → state_type_tag state.value_type ≡ ok tag
      → encode_value ids state.value ≡ ok v
      → IsTyped ids state
      → parse_slots
          (length states)
          ((xs ++ (to_le 2 id ++ (tag ∷ flag state.nullable ∷ v))) ++ rest)
          (i + 4 + length v)
        ≡ ok (map (slot_of ids) states, i + 4 + length v + length rest)
      → parse_slots
          (suc (length states))
          (xs ++ (to_le 2 id ++ (tag ∷ flag state.nullable ∷ (v ++ rest))))
          i
        ≡ ok (slot_of ids state ∷ map (slot_of ids) states, i + 4 + length v + length rest)
  unfolding parse_slots
  slots_step state states id tag v rest xs i at found tagged coded typed next =
      let front = to_le 2 id ++ (tag ∷ flag state.nullable ∷ v) in
      let typed_here : state_value_matches tag state.nullable (value_of ids state.value) ≡ true =
        rw tagged at typed in
      let first =
        parse_slot-eq id tag state.nullable state.value v xs rest i at (ids-lt state.name id found)
          (state_type_tag-is_state_type state.value_type tag tagged) coded typed_here in
      let next' = rw (append_assoc xs front rest) at next in rw (first, next', found, tagged) refl

  parse_slots-encode_slots :
      (states : List IrStateValue) (slots xs : List ℕ) (i : ℕ)
      → encode_slots ids states ≡ ok slots
      → All (IsTyped ids) states
      → i ≡ length xs
      → parse_slots (length states) (xs ++ slots) i
        ≡ ok (map (slot_of ids) states, i + length slots)
  parse_slots-encode_slots [] slots xs i e typed at =
      unfold parse_slots encode_slots in
      let same : slots ≡ [] = ground arith in
      let last : i ≡ i + 0 = omega arith in rw same (ap (λ n. ok ([], n)) last)
  parse_slots-encode_slots (state ∷ states) slots xs i e (t, typed) at =
      let (id, tag, v, rest, found, tagged, coded, others, same) =
        encode_slots-inv state states slots e in
      let front = to_le 2 id ++ (tag ∷ flag state.nullable ∷ v) in
      let size = length-append xs front in
      let size' = length-append v rest in
      let next =
        parse_slots-encode_slots states rest (xs ++ front) (i + 4 + length v) others typed
          (omega arith) in
      let total : i + 4 + length v + length rest
          ≡ i + length (to_le 2 id ++ (tag ∷ flag state.nullable ∷ (v ++ rest))) =
        omega arith in
      subst
        (λ s.
          parse_slots (suc (length states)) (xs ++ s) i
          ≡ ok (slot_of ids state ∷ map (slot_of ids) states, i + length s))
        same
        (slots_step state states id tag v rest xs i at found tagged coded t next
          ∙ ap (λ n. ok (slot_of ids state ∷ map (slot_of ids) states, n)) total)

  -- The state section that the compiler writes is read by the VM as the slots of the fields, one after
  -- another, with the array filled up; for at most 16 fields whose constants have their types, and
  -- string ids of 16 bits.
  pub parse_state-encode_state_section :
      (states : List IrStateValue) (section : List ℕ)
      → encode_state_section ids states ≡ ok section
      → All (IsTyped ids) states
      → length states ≤ max_state
      → parse_state section
        ≡ ok (
          map (slot_of ids) states ++ replicate (max_state - length states) unused_slot,
          length states,
        )
  unfolding parse_state encode_state_section
  parse_state-encode_state_section states section e typed few =
      let (u, small, e₁) = >>=-eq-ok (guard (ltb (length states) (2 ^ 16)) too_many_slots) _ e in
      let (slots, coded, e₂) = >>=-eq-ok (encode_slots ids states) _ e₁ in
      let same : to_le 2 (length states) ++ slots ≡ section = ground arith in
      let count = read_u16-to_le (length states) [] slots 0 (omega arith) refl in
      let room : leb (length states) max_state ≡ true = ground arith in
      let body =
        parse_slots-encode_slots states slots (to_le 2 (length states)) 2 coded typed refl in
      let whole : (2 + length slots == length (to_le 2 (length states) ++ slots)) ≡ true =
        ground arith in
      subst
        (λ s.
          parse_state s
          ≡ ok (
            map (slot_of ids) states ++ replicate (max_state - length states) unused_slot,
            length states,
          ))
        same (rw (count, room, body, whole) refl)
