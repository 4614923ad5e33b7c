-- ===== src/Vm/Strings.antt =====
-- compiler/rust/crates/squidvm-core/src/strings.rs: the strings that a running app makes. `string` and
-- `find` stand for the `StringTable` of the program. The references in use are a list, the pool the
-- bytes in use. A reference to a part of another string is followed on fuel.
pub mod Acyclic
pub mod Interns
mod Tests
use squid_script.Base.{
  fitting, ℕ, zero, suc, ◌+◌, ◌*◌, ◌/◌, ◌%◌, ◌^◌, Bool, true, false, not, ◌&&◌, ◌||◌, Option, none,
  some, List, [], ◌∷◌, ◌++◌, length, get_elem?, set, slice, drop, bytes_eq, is_empty, ltb, leb,
  ◌==◌, if◌then◌else◌, Result, ok, err, stuck, ◌>>=◌, ◌>>◌, guard, ok_or, and_then,
}
use squid_script.Base.Utf8.{is_utf8}
use squid_script.Vm.Values.{
  VmError, invalid_operand, invalid_utf8, too_many_strings, StringRef, sqbc, static_string, dynamic,
  Value, string_value,
}

abbrev pub max_runtime_string_bytes : ℕ
max_runtime_string_bytes = 128

abbrev pub max_service_strings : ℕ
max_service_strings = 32

abbrev pub max_service_string_bytes : ℕ
max_service_string_bytes = 512

-- `STATIC_STRINGS`, as UTF-8.
abbrev pub static_strings : List (List ℕ)
static_strings =
    (117 ∷ 110 ∷ 115 ∷ 117 ∷ 112 ∷ 112 ∷ 111 ∷ 114 ∷ 116 ∷ 101 ∷ 100 ∷ [])
    ∷ (114 ∷ 101 ∷ 97 ∷ 100 ∷ 121 ∷ [])
    ∷ (100 ∷ 105 ∷ 115 ∷ 112 ∷ 108 ∷ 97 ∷ 121 ∷ 46 ∷ 100 ∷ 101 ∷ 102 ∷ 97 ∷ 117 ∷ 108 ∷ 116 ∷ [])
    ∷ (115 ∷ 115 ∷ 100 ∷ 49 ∷ 51 ∷ 48 ∷ 54 ∷ [])
    ∷ (105 ∷ 50 ∷ 99 ∷ [])
    ∷ (109 ∷ 111 ∷ 110 ∷ 111 ∷ [])
    ∷ (77 ∷ 79 ∷ 78 ∷ 79 ∷ 49 ∷ 95 ∷ 80 ∷ 65 ∷ 67 ∷ 75 ∷ 69 ∷ 68 ∷ [])
    ∷ (115 ∷ 105 ∷ 109 ∷ [])
    ∷ (122 ∷ 101 ∷ 112 ∷ 104 ∷ 121 ∷ 114 ∷ [])
    ∷ (101 ∷ 115 ∷ 112 ∷ [])
    ∷ (97 ∷ 112 ∷ [])
    ∷ (115 ∷ 116 ∷ 97 ∷ [])
    ∷ (115 ∷ 116 ∷ 97 ∷ 114 ∷ 116 ∷ 101 ∷ 100 ∷ [])
    ∷ (115 ∷ 116 ∷ 111 ∷ 112 ∷ 112 ∷ 101 ∷ 100 ∷ [])
    ∷ (105 ∷ 100 ∷ 108 ∷ 101 ∷ [])
    ∷ (117 ∷ 110 ∷ 97 ∷ 118 ∷ 97 ∷ 105 ∷ 108 ∷ 97 ∷ 98 ∷ 108 ∷ 101 ∷ [])
    ∷ (99 ∷ 111 ∷ 110 ∷ 102 ∷ 105 ∷ 103 ∷ 117 ∷ 114 ∷ 105 ∷ 110 ∷ 103 ∷ [])
    ∷ (115 ∷ 116 ∷ 97 ∷ 114 ∷ 116 ∷ 105 ∷ 110 ∷ 103 ∷ [])
    ∷ (115 ∷ 116 ∷ 111 ∷ 112 ∷ 112 ∷ 105 ∷ 110 ∷ 103 ∷ [])
    ∷ (115 ∷ 99 ∷ 97 ∷ 110 ∷ 110 ∷ 105 ∷ 110 ∷ 103 ∷ [])
    ∷ (97 ∷ 117 ∷ 116 ∷ 104 ∷ 101 ∷ 110 ∷ 116 ∷ 105 ∷ 99 ∷ 97 ∷ 116 ∷ 105 ∷ 110 ∷ 103 ∷ [])
    ∷ (111 ∷ 112 ∷ 101 ∷ 110 ∷ [])
    ∷ (119 ∷ 101 ∷ 112 ∷ [])
    ∷ (119 ∷ 112 ∷ 97 ∷ [])
    ∷ (119 ∷ 112 ∷ 97 ∷ 50 ∷ [])
    ∷ (119 ∷ 112 ∷ 97 ∷ 51 ∷ [])
    ∷ (117 ∷ 110 ∷ 107 ∷ 110 ∷ 111 ∷ 119 ∷ 110 ∷ [])
    ∷ (119 ∷ 105 ∷ 102 ∷ 105 ∷ 32 ∷ 98 ∷ 117 ∷ 115 ∷ 121 ∷ [])
    ∷ []

-- A reference by its tag; the source of a part is encoded in 16 bits.
pub data DynamicRef : Type 0 where
  inline : (offset len : ℕ) (retained : Bool) → DynamicRef
  part : (source offset len : ℕ) (retained : Bool) → DynamicRef

pub record Interner : Type 0 where
  pub refs : List DynamicRef
  pub pool : List ℕ

abbrev pub empty_interner : Interner
empty_interner = record { refs = []; pool = [] }

unfoldable pub set_retained : DynamicRef → DynamicRef
set_retained (inline offset len retained) = inline offset len true
set_retained (part source offset len retained) = part source offset len true

-- The kind in the two high bits, the id in the others.
abbrev pub string_source : ℕ → ℕ → Result VmError ℕ
string_source kind id = if leb id 0x3fff then ok (kind * 2 ^ 14 + id) else err invalid_operand

unfoldable pub encode_string_source : StringRef → Result VmError ℕ
encode_string_source (sqbc id) = string_source 0 id
encode_string_source (static_string id) = string_source 1 id
encode_string_source (dynamic id) = string_source 2 id

unfoldable pub decode_string_source : ℕ → Result VmError StringRef
decode_string_source value =
    let kind = value / 2 ^ 14 in
    let id = value % 2 ^ 14 in
    if kind == 0
    then ok (sqbc id)
    else if kind == 1
    then (if ltb id 256 then ok (static_string id) else err invalid_operand)
    else if kind == 2
    then (if ltb id 256 then ok (dynamic id) else err invalid_operand)
    else err invalid_operand

-- `is_char_boundary`: the end, or a byte that does not continue a character.
unfoldable pub is_char_boundary : List ℕ → Bool
is_char_boundary [] = true
is_char_boundary (b ∷ bs) = not (leb 0x80 b && leb b 0xbf)

-- `text.get(start..end)` on a str.
unfoldable pub str_get : List ℕ → ℕ → ℕ → Result VmError (List ℕ)
unfolding is_char_boundary
str_get text start end =
    if leb start end
      && leb end (length text)
      && is_char_boundary (drop start text)
      && is_char_boundary (drop end text)
    then ok (slice start end text)
    else err invalid_utf8

-- `str::starts_with`
unfoldable pub starts_with : List ℕ → List ℕ → Bool
starts_with text [] = true
starts_with [] (v ∷ vs) = false
starts_with (t ∷ ts) (v ∷ vs) = t == v && starts_with ts vs

-- `text.find(value)`: where the first occurrence starts, `offset` bytes in.
unfoldable pub str_find_from : ℕ → List ℕ → List ℕ → Option ℕ
unfolding starts_with
str_find_from offset [] value = if is_empty value then some offset else none
str_find_from offset (t ∷ ts) value =
    let later = str_find_from (suc offset) ts value in
    if starts_with (t ∷ ts) value then some offset else later

unfoldable pub str_find : List ℕ → List ℕ → Option ℕ
unfolding str_find_from
str_find text value = str_find_from 0 text value

-- `position(|candidate| *candidate == value)`
unfoldable pub position_from : ℕ → List (List ℕ) → List ℕ → Option ℕ
position_from i [] value = none
position_from i (s ∷ ss) value =
    let later = position_from (suc i) ss value in if bytes_eq s value then some i else later

unfoldable pub static_string_id : List ℕ → Option ℕ
unfolding position_from
static_string_id value = position_from 0 static_strings value

-- The first of the strings that contains the value, and where.
unfoldable pub find_in_static : ℕ → List (List ℕ) → List ℕ → Option (StringRef × ℕ)
unfolding str_find
find_in_static i [] value = none
find_in_static i (s ∷ ss) value =
    let later = find_in_static (suc i) ss value in
    elim (str_find s value) [ none ↦ later | some offset ↦ some (static_string i, offset) ]

-- The str at `start..end` of the pool.
unfoldable pub pool_str : List ℕ → ℕ → ℕ → Result VmError (List ℕ)
pool_str pool start end = do
  guard (leb end (length pool)) invalid_operand
  guard (is_utf8 (slice start end pool)) invalid_utf8
  ok (slice start end pool)

-- The second loop of `find_substring`, when the first one found nothing.
unfoldable pub or_static : List ℕ → Option (StringRef × ℕ) → Option (StringRef × ℕ)
unfolding find_in_static
or_static value none = find_in_static 0 static_strings value
or_static value (some place) = some place

module _ (string : ℕ → Result VmError (List ℕ)) where
  -- `ref_str_from`, on fuel for the strings that parts are taken from.
  unfoldable pub ref_str_from : ℕ → StringRef → List DynamicRef → List ℕ → Result VmError (List ℕ)
  unfolding pool_str str_get decode_string_source
  ref_str_from zero reference refs pool = stuck
  ref_str_from (suc fuel) (sqbc id) refs pool = string id
  ref_str_from (suc fuel) (static_string id) refs pool =
      ok_or (get_elem? static_strings id) invalid_operand
  ref_str_from (suc fuel) (dynamic id) refs pool = elim (get_elem? refs id) [
    | none ↦ err invalid_operand
    | some (inline offset len retained) ↦ pool_str pool offset (offset + len)
    | some (part source offset len retained) ↦ decode_string_source source >>= λ reference.
        ref_str_from fuel reference refs pool >>= λ text. str_get text offset (offset + len)
  ]

  -- `StringInterner::get`
  unfoldable pub get : Interner → StringRef → Result VmError (List ℕ)
  unfolding ref_str_from
  get i reference = ref_str_from (suc (suc (length i.refs))) reference i.refs i.pool

  -- `StringResolver::value_str`
  unfoldable pub value_str : Interner → Value → Result VmError (List ℕ)
  unfolding get
  value_str i (string_value reference) = get i reference
  value_str i _ = err invalid_operand

  -- The loop of `find_dynamic`, at `id` with `n` references to go.
  unfoldable pub find_dynamic_from : Interner → List ℕ → ℕ → ℕ → Result VmError (Option ℕ)
  unfolding get
  find_dynamic_from i value id zero = ok none
  find_dynamic_from i value id (suc n) = do
    text ← get i (dynamic id)
    let later = find_dynamic_from i value (suc id) n
    if bytes_eq text value then ok (some id) else later

  -- The first loop of `find_substring`.
  unfoldable pub find_in_dynamic :
      Interner → List ℕ → ℕ → ℕ → Result VmError (Option (StringRef × ℕ))
  unfolding get str_find
  find_in_dynamic i value id zero = ok none
  find_in_dynamic i value id (suc n) = do
    text ← get i (dynamic id)
    let later = find_in_dynamic i value (suc id) n
    elim (str_find text value) [ none ↦ later | some offset ↦ ok (some (dynamic id, offset)) ]

  unfoldable pub find_substring : Interner → List ℕ → Result VmError (Option (StringRef × ℕ))
  unfolding find_in_dynamic or_static
  find_substring i value =
      let found = find_in_dynamic i value 0 (length i.refs) in
      if is_empty value then ok none else found >>= λ place. ok (or_static value place)

-- A new reference at the end.
abbrev pub with_ref : Interner → DynamicRef → Interner × Result VmError Value
with_ref i reference = (
  record i { refs = i.refs ++ (reference ∷ []) },
  fitting (suc (length i.refs)) max_service_strings (ok (string_value (dynamic (length i.refs)))),
)

unfoldable pub alloc_dynamic : Interner → List ℕ → Bool → Interner × Result VmError Value
alloc_dynamic i value retained =
    if leb max_service_strings (length i.refs)
    then (i, err too_many_strings)
    else if ltb max_service_string_bytes (length i.pool + length value)
    then (i, err too_many_strings)
    else let (i', made) =
        with_ref (record i { pool = i.pool ++ value })
          (inline (length i.pool) (length value) retained) in
      (i', fitting (length i.pool + length value) max_service_string_bytes made)

-- `self.next += 1` stands before the source is encoded, so its error would leave an empty reference;
-- the ids of this model's sources are below 0x3fff, where encoding has no error.
unfoldable pub alloc_slice : Interner → StringRef → ℕ → ℕ → Bool → Interner × Result VmError Value
unfolding encode_string_source
alloc_slice i source offset len retained =
    if leb max_service_strings (length i.refs)
    then (i, err too_many_strings)
    else if ltb 65535 offset || ltb 65535 len
    then (i, err invalid_operand)
    else and_then (encode_string_source source) i
        λ encoded. with_ref i (part encoded offset len retained)

-- `if retained { self.refs[id].set_retained() }`
unfoldable pub mark : Interner → ℕ → Bool → Interner
unfolding set_retained
mark i id retained = elim (get_elem? i.refs id) [
  | none ↦ i
  | some r ↦ if retained then record i { refs = set i.refs id (set_retained r) } else i
]

module _ (string : ℕ → Result VmError (List ℕ)) (find : List ℕ → Result VmError (Option ℕ)) where
  -- `intern_dynamic`, behind the searches for the whole string.
  unfoldable pub intern_new : Interner → List ℕ → Bool → Interner × Result VmError Value
  unfolding find_substring alloc_slice alloc_dynamic
  intern_new i value retained = and_then (find_substring string i value) i λ place. elim place [
    | none ↦ alloc_dynamic i value retained
    | some (source, offset) ↦ alloc_slice i source offset (length value) retained
  ]

  unfoldable pub intern_dynamic : Interner → List ℕ → Bool → Interner × Result VmError Value
  unfolding static_string_id find_dynamic_from mark intern_new
  intern_dynamic i value retained =
      if ltb max_runtime_string_bytes (length value)
      then (i, err invalid_operand)
      else and_then (find value) i λ known. elim known [
        | some id ↦ (i, ok (string_value (sqbc id)))
        | none ↦ elim (static_string_id value) [
          | some id ↦ (i, ok (string_value (static_string id)))
          | none ↦ and_then (find_dynamic_from string i value 0 (length i.refs)) i λ held.
              elim held [
                | some id ↦ (mark i id retained, ok (string_value (dynamic id)))
                | none ↦ intern_new i value retained
              ]
        ]
      ]

  -- The loop of `retain_state_values`: the values to come are read from the old interner.
  unfoldable pub retain_values :
      Interner → Interner → List Value → (Interner × List Value) × Result VmError (Unit {0})
  unfolding get intern_dynamic
  retain_values old i [] = ((i, []), ok tt)
  retain_values old i (string_value (dynamic id) ∷ values) =
      let dangling : Interner × List Value = (i, string_value (dynamic id) ∷ values) in
      and_then (get string old (dynamic id)) dangling λ text.
        let (i', made) = intern_dynamic i text true in
        and_then made (i', string_value (dynamic id) ∷ values)
          λ value.
            let ((last, rest), outcome) = retain_values old i' values in
            ((last, value ∷ rest), outcome)
  retain_values old i (value ∷ values) =
      let ((last, rest), outcome) = retain_values old i values in ((last, value ∷ rest), outcome)

  unfoldable pub retain_state_values :
      Interner → List Value → (Interner × List Value) × Result VmError (Unit {0})
  unfolding retain_values
  retain_state_values i state = retain_values i empty_interner state

unfoldable pub retain_value : Interner → Value → Interner × Result VmError Value
unfolding set_retained
retain_value i (string_value (dynamic id)) = elim (get_elem? i.refs id) [
  | none ↦ (i, err invalid_operand)
  | some r ↦ (record i { refs = set i.refs id (set_retained r) }, ok (string_value (dynamic id)))
]
retain_value i value = (i, ok value)
