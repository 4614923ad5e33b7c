-- ===== src/Protocol/Lookup/Total.antt =====
-- compiler/rust/crates/squid-device-protocol/src/lib.rs: the device's search in a payload on any
-- bytes, and its fuel.
use squid_script.Base.{
  ◌≡◌, true, inl, inr, Bool-cases, ℕ, zero, suc, ◌≤◌, ◌&&◌, Option, none, some, List, [], ◌∷◌,
  length, length-drop, drop, leb, ltb, ◌==◌, Result, ◌>>=◌, ok_or, map_err, Settles, Settles-bind,
  Settles-if, ok_or-Settles, map_err-Settles, arith,
}
use squid_script.Base.Words.{from_le}
use squid_script.Base.Utf8.{is_utf8}
use squid_script.Protocol.Lookup.{
  SessionError, decode, missing_field, check_utf8, check_u64, find_field_from, find_field,
  string_field, bytes_field, u64_field, chunk_offset,
}

find_field_from-Settles :
    (fuel tag type : ℕ) (payload : List ℕ)
    → length payload ≤ fuel
    → Settles (find_field_from fuel tag type payload)
unfolding find_field_from
find_field_from-Settles zero tag type [] h = tt
find_field_from-Settles (suc fuel) tag type [] h = tt
find_field_from-Settles zero tag type (b ∷ payload) h = absurd (omega arith)
find_field_from-Settles (suc fuel) tag type (a ∷ []) h = tt
find_field_from-Settles (suc fuel) tag type (a ∷ b ∷ []) h = tt
find_field_from-Settles (suc fuel) tag type (a ∷ b ∷ c ∷ []) h = tt
find_field_from-Settles (suc fuel) tag type (t ∷ ty ∷ l₀ ∷ l₁ ∷ payload) h =
    let len = from_le (l₀ ∷ l₁ ∷ []) in
    let rest =
      find_field_from-Settles fuel tag type (drop len payload)
        (omega (arith, length-drop len payload)) in
    elim (Bool-cases (ltb (length payload) len)) [
      | inl short ↦ rw (short, Settles) tt
      | inr long ↦
          let fits : leb len (length payload) ≡ true = ground (arith, long) in
          rw (long, fits) (Settles-if (t == tag && ty == type) _ _ tt rest)
    ]

find_field-Settles :
    (tag type : ℕ) (payload : List ℕ) → Settles (map_err decode (find_field tag type payload))
unfolding find_field
find_field-Settles tag type payload =
    map_err-Settles decode (find_field_from (length payload) tag type payload)
      (find_field_from-Settles (length payload) tag type payload (omega arith))

check_utf8-Settles : (o : Option (List ℕ)) → Settles (check_utf8 o)
check_utf8-Settles none = tt
check_utf8-Settles (some v) = Settles-if (is_utf8 v) _ _ tt tt

check_u64-Settles : (o : Option (List ℕ)) → Settles (check_u64 o)
check_u64-Settles none = tt
check_u64-Settles (some v) = Settles-if (length v == 8) _ _ tt tt

pub string_field-Settles : (payload : List ℕ) (tag : ℕ) → Settles (string_field payload tag)
unfolding string_field
string_field-Settles payload tag =
    Settles-bind (map_err decode (find_field tag 1 payload)) _ (find_field-Settles tag 1 payload)
      λ o _. check_utf8-Settles o

pub u64_field-Settles : (payload : List ℕ) (tag : ℕ) → Settles (u64_field payload tag)
unfolding u64_field
u64_field-Settles payload tag =
    Settles-bind (map_err decode (find_field tag 5 payload)) _ (find_field-Settles tag 5 payload)
      λ o _. check_u64-Settles o

-- A field that the request must have, and what follows.
pub required-Settles :
    {A B : Type 0} (r : Result SessionError (Option A)) (k : A → Result SessionError B)
    → Settles r
    → ((a : A) → Settles (k a))
    → Settles (r >>= λ o. ok_or o missing_field >>= k)
required-Settles r k h rest =
    Settles-bind r _ h
      λ o _. Settles-bind (ok_or o missing_field) k (ok_or-Settles o _) λ a _. rest a

pub chunk_offset-Settles : (max : ℕ) (payload : List ℕ) → Settles (chunk_offset max payload)
unfolding chunk_offset
chunk_offset-Settles max payload =
    required-Settles (u64_field payload 1) _ (u64_field-Settles payload 1)
      λ offset. Settles-if (leb offset max) _ _ tt tt

pub bytes_field-Settles : (payload : List ℕ) (tag : ℕ) → Settles (bytes_field payload tag)
unfolding bytes_field
bytes_field-Settles payload tag = find_field-Settles tag 0 payload
