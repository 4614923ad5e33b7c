-- ===== src/Protocol/Session/Strings.antt =====
-- compiler/rust/crates/squid-device-protocol/src/lib.rs: what `FixedStr` stores and gives back.
use squid_script.Base.{
  ℕ, ◌-◌, ◌≤◌, ◌<◌, ◌≡◌, refl, true, false, List, [], ◌∷◌, ◌++◌, length, length-append, take,
  take-append, replicate, leb, ok, ◌>>=◌, arith,
}
use squid_script.Base.Utf8.{is_utf8}
use squid_script.Protocol.Session.{FixedStr, empty_str, set_str, as_str}

-- The bytes in use lie in the array and are a string.
pub record IsStr (s : FixedStr) : Type 0 where
  pub in_bounds : s.len ≤ length s.bytes
  pub text : is_utf8 (take s.len s.bytes) ≡ true

pub empty_str-IsStr : (n : ℕ) → IsStr (empty_str n)
unfolding is_utf8
empty_str-IsStr n = record { in_bounds = omega arith; text = refl }

pub IsStr-as_str : (s : FixedStr) → IsStr s → as_str s ≡ ok (take s.len s.bytes)
unfolding as_str
IsStr-as_str s h =
    let inside : leb s.len (length s.bytes) ≡ true = ground arith in rw (inside, h.text)

-- A string that is not empty and shorter than the array is stored, and read back as it was.
pub as_str-set_str :
    (n : ℕ) (value : List ℕ)
    → 0 < length value
    → length value < n
    → is_utf8 value ≡ true
    → (set_str n value >>= as_str) ≡ ok value
unfolding set_str as_str
as_str-set_str n [] some_byte short utf8 = absurd (omega arith)
as_str-set_str n (b ∷ value) some_byte short utf8 =
    let fits : leb n (length (b ∷ value)) ≡ false = ground arith in
    let inside : leb (length (b ∷ value))
          (length (b ∷ value ++ replicate (n - length (b ∷ value)) 0))
        ≡ true =
      ground (arith, length-append (b ∷ value) (replicate (n - length (b ∷ value)) 0)) in
    let whole = take-append (b ∷ value) (replicate (n - length (b ∷ value)) 0) in
    rw (fits, inside, whole, utf8)

pub set_str-IsStr :
    (n : ℕ) (value : List ℕ) (s : FixedStr)
    → is_utf8 value ≡ true
    → set_str n value ≡ ok s
    → IsStr s
unfolding set_str
set_str-IsStr n value s utf8 h =
    let pad = replicate (n - length value) 0 in
    let whole = take-append value pad in
    let size = length-append value pad in
    let eq : s ≡ record { bytes = value ++ pad; len = length value } = ground arith in
    rw eq (record { in_bounds = omega arith; text = rw whole utf8 })
