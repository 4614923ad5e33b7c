-- ===== src/Vm/Strings/Acyclic.antt =====
-- compiler/rust/crates/squidvm-core/src/strings.rs: a string that is a part of another one refers to
-- one that was made before it.
use squid_script.Base.{
  ℕ, zero, suc, ◌+◌, ◌<◌, ◌≡◌, inl, inr, sym, ap, Bool, Option, none, some, Option-cases, List, [],
  ◌∷◌, ◌++◌, length, get_elem?, get_elem?-lt, get_elem?-snoc, get_elem?-set, set, slice, bytes_eq,
  leb, Result, ok, Settles, Settles-bind, Settles-if, Settles-guard, ok_or-Settles, >>=-eq-ok,
  arith,
}
use squid_script.Base.Utf8.{is_utf8}
use squid_script.Vm.Values.{
  VmError, invalid_operand, invalid_utf8, StringRef, sqbc, static_string, dynamic,
}
use squid_script.Vm.Strings.{
  static_strings, DynamicRef, inline, part, Interner, set_retained, encode_string_source,
  decode_string_source, pool_str, str_get, str_find, find_in_static, ref_str_from, get,
  find_dynamic_from, find_in_dynamic,
}

abbrev pub IsAcyclic : List DynamicRef → Type 0
IsAcyclic refs =
    (k source offset len : ℕ) (retained : Bool) (j : ℕ)
    → get_elem? refs k ≡ some (part source offset len retained)
    → decode_string_source source ≡ ok (dynamic j)
    → j < k

decode_string_source-Settles : (v : ℕ) → Settles (decode_string_source v)
unfolding decode_string_source
decode_string_source-Settles v = ground arith

str_get-Settles : (text : List ℕ) (start end : ℕ) → Settles (str_get text start end)
unfolding str_get
str_get-Settles text start end = ground arith

pool_str-Settles : (pool : List ℕ) (start end : ℕ) → Settles (pool_str pool start end)
unfolding pool_str
pool_str-Settles pool start end = Settles-guard (leb end (length pool)) invalid_operand _ (λ _.
    Settles-guard (is_utf8 (slice start end pool)) invalid_utf8 (ok (slice start end pool))
      (λ _. tt))

-- How far a reference may be followed.
abbrev rank : StringRef → ℕ
rank (dynamic id) = suc id
rank _ = 0

lower :
    (r : StringRef) (fuel id source : ℕ)
    → decode_string_source source ≡ ok r
    → ((j : ℕ) → decode_string_source source ≡ ok (dynamic j) → j < id)
    → id < fuel
    → rank r < fuel
lower (sqbc j) fuel id source e below h = omega arith
lower (static_string j) fuel id source e below h = omega arith
lower (dynamic j) fuel id source e below h = omega (arith, below j e)

abbrev pub found_at : StringRef → ℕ → Result VmError (Option (StringRef × ℕ))
found_at r offset = ok (some (r, offset))

abbrev pub found_place : Option (StringRef × ℕ) → Result VmError (Option (StringRef × ℕ))
found_place p = ok p

abbrev pub no_place : Result VmError (Option (StringRef × ℕ))
no_place = ok none

place_of : (a : StringRef) (m : ℕ) (b : StringRef) (n : ℕ) → found_at a m ≡ found_at b n → a ≡ b
place_of a m b n e = ground arith

module _ (string : ℕ → Result VmError (List ℕ)) (settles : (id : ℕ) → Settles (string id)) where
  ref_str_from-Settles :
      (fuel : ℕ) (r : StringRef) (refs : List DynamicRef) (pool : List ℕ)
      → IsAcyclic refs
      → rank r < fuel
      → Settles (ref_str_from string fuel r refs pool)
  unfolding ref_str_from
  ref_str_from-Settles zero r refs pool acyclic h = absurd (omega arith)
  ref_str_from-Settles (suc fuel) (sqbc id) refs pool acyclic h = settles id
  ref_str_from-Settles (suc fuel) (static_string id) refs pool acyclic h =
      ok_or-Settles (get_elem? static_strings id) invalid_operand
  ref_str_from-Settles (suc fuel) (dynamic id) refs pool acyclic h =
      elim (Option-cases (get_elem? refs id)) [
        | inl gone ↦ rw (gone, Settles) tt
        | inr (inline offset len retained, at) ↦
            rw (at, Settles) (pool_str-Settles pool offset (offset + len))
        | inr (part source offset len retained, at) ↦
            rw (at, Settles)
              (Settles-bind (decode_string_source source) _ (decode_string_source-Settles source)
                (λ r e.
                  Settles-bind (ref_str_from string fuel r refs pool) _
                    (ref_str_from-Settles fuel r refs pool acyclic (
                      lower r fuel id source e (λ j d. acyclic id source offset len retained j at d)
                        (omega arith)))
                    (λ text _. str_get-Settles text offset (offset + len))))
      ]

  pub get-Settles : (i : Interner) (r : StringRef) → IsAcyclic i.refs → Settles (get string i r)
  unfolding get ref_str_from
  get-Settles i (sqbc id) acyclic = settles id
  get-Settles i (static_string id) acyclic =
      ok_or-Settles (get_elem? static_strings id) invalid_operand
  get-Settles i (dynamic id) acyclic = elim (Option-cases (get_elem? i.refs id)) [
    | inl gone ↦ rw (gone, Settles) tt
    | inr (r, at) ↦
        ref_str_from-Settles (suc (suc (length i.refs))) (dynamic id) i.refs i.pool acyclic
          (omega (arith, get_elem?-lt i.refs id r at))
  ]

  pub find_dynamic_from-Settles :
      (i : Interner) (value : List ℕ) (id n : ℕ)
      → IsAcyclic i.refs
      → Settles (find_dynamic_from string i value id n)
  unfolding find_dynamic_from
  find_dynamic_from-Settles i value id zero acyclic = tt
  find_dynamic_from-Settles i value id (suc n) acyclic =
      Settles-bind (get string i (dynamic id)) _ (get-Settles i (dynamic id) acyclic) (λ text _.
        Settles-if (bytes_eq text value) (ok (some id))
          (find_dynamic_from string i value (suc id) n) tt
          (find_dynamic_from-Settles i value (suc id) n acyclic))

  -- A string that contains the value was made before.
  pub find_in_dynamic-lem :
      (i : Interner) (value : List ℕ) (id n : ℕ)
      → IsAcyclic i.refs
      → Settles (find_in_dynamic string i value id n)
        × ((r : StringRef) (offset : ℕ)
            → find_in_dynamic string i value id n ≡ ok (some (r, offset))
            → (j : ℕ) × (r ≡ dynamic j) × (j < id + n))
  unfolding find_in_dynamic
  find_in_dynamic-lem i value id zero acyclic = (tt, λ r offset e. cc)
  find_in_dynamic-lem i value id (suc n) acyclic =
      let (later, place) = find_in_dynamic-lem i value (suc id) n acyclic in
      (
        Settles-bind (get string i (dynamic id)) _ (get-Settles i (dynamic id) acyclic) λ text _.
            elim (Option-cases (str_find text value)) [
              | inl absent ↦ rw (absent, Settles) later
              | inr (at, found) ↦ rw (found, Settles) tt
            ],
        λ r offset e.
            let (text, _, e₁) = >>=-eq-ok (get string i (dynamic id)) _ e in
            elim (Option-cases (str_find text value)) [
              | inl absent ↦
                  let (j, same, below) = place r offset (rw absent at e₁) in (j, same, omega arith)
              | inr (at, found) ↦
                  let same : dynamic id ≡ r = place_of (dynamic id) at r offset (rw found at e₁) in
                  (id, sym same, omega arith)
            ],
      )

pub find_in_static-static :
    (n : ℕ) (ss : List (List ℕ)) (value : List ℕ) (r : StringRef) (offset : ℕ)
    → find_in_static n ss value ≡ some (r, offset)
    → (j : ℕ) × (r ≡ static_string j)
unfolding find_in_static
find_in_static-static n [] value r offset e = cc
find_in_static-static n (s ∷ ss) value r offset e = elim (Option-cases (str_find s value)) [
  | inl absent ↦ find_in_static-static (suc n) ss value r offset (rw (absent, find_in_static) at e)
  | inr (at, found) ↦ (
    n,
    sym (
        place_of (static_string n) at r offset
          (ap (λ (o : Option (StringRef × ℕ)). ok o) (rw (found, find_in_static) at e))),
  )
]

-- A source that a part may name: it was made before `k`.
abbrev pub IsBefore : ℕ → StringRef → Type 0
IsBefore k (dynamic j) = j < k
IsBefore k _ = Unit {0}

pub encode-decode :
    (k : ℕ) (r : StringRef) (e j : ℕ)
    → IsBefore k r
    → encode_string_source r ≡ ok e
    → decode_string_source e ≡ ok (dynamic j)
    → j < k
unfolding encode_string_source decode_string_source
encode-decode k (sqbc id) e j before h d = ground arith
encode-decode k (static_string id) e j before h d = ground arith
encode-decode k (dynamic id) e j before h d = ground arith

-- An acyclic list of references stays so with a part of an earlier string behind it.
pub IsAcyclic-append :
    (refs : List DynamicRef) (r : DynamicRef)
    → IsAcyclic refs
    → ((source offset len : ℕ) (retained : Bool) (j : ℕ)
        → r ≡ part source offset len retained
        → decode_string_source source ≡ ok (dynamic j)
        → j < length refs)
    → IsAcyclic (refs ++ (r ∷ []))
IsAcyclic-append refs r acyclic new k source offset len retained j at d =
    elim (get_elem?-snoc refs r k (part source offset len retained) at) [
      | inl old ↦ acyclic k source offset len retained j old d
      | inr (here, same) ↦ let below = new source offset len retained j same d in omega arith
    ]

same_source :
    (k id : ℕ) (refs : List DynamicRef) (r : DynamicRef) (source offset len : ℕ) (retained : Bool)
    (j : ℕ)
    → get_elem? refs id ≡ some r
    → IsAcyclic refs
    → k ≡ id
    → set_retained r ≡ part source offset len retained
    → decode_string_source source ≡ ok (dynamic j)
    → j < k
unfolding set_retained
same_source k id refs (inline o l b) source offset len retained j at acyclic here same d = cc
same_source k id refs (part s o l b) source offset len retained j at acyclic here same d =
    let sources : s ≡ source = ground arith in
    let below = acyclic id s o l b j at (rw sources d) in omega arith

pub set_retained-IsAcyclic :
    (refs : List DynamicRef) (id : ℕ) (r : DynamicRef)
    → get_elem? refs id ≡ some r
    → IsAcyclic refs
    → IsAcyclic (set refs id (set_retained r))
set_retained-IsAcyclic refs id r at acyclic k source offset len retained j e d =
    elim (get_elem?-set refs id (set_retained r) k (part source offset len retained) e) [
      | inl old ↦ acyclic k source offset len retained j old d
      | inr (here, same) ↦
          same_source k id refs r source offset len retained j at acyclic here same d
    ]
