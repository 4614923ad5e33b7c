-- ===== src/Vm/Values/Reads.antt =====
-- compiler/rust/crates/squidvm-core/src/bytecode.rs: the readers at a place in a section.
use squid_script.Base.{
  ℕ, suc, ◌+◌, ◌-◌, ◌^◌, ◌<◌, ◌≡◌, refl, ◌∙◌, true, List, [], ◌∷◌, ◌++◌, length, length-append,
  get_elem?, slice-append, leb, ok, arith, take-append,
}
use squid_script.Base.Words.{to_le, from_le-to_le, length-to_le}
use squid_script.Vm.Values.{byte_at, read_le, read_u16}

pub get_elem?-append :
    (xs ys : List ℕ) (k : ℕ) → get_elem? (xs ++ ys) (length xs + k) ≡ get_elem? ys k
get_elem?-append [] ys k = let same : 0 + k ≡ k = omega arith in rw same refl
get_elem?-append (x ∷ xs) ys k =
    let same : suc (length xs) + k ≡ suc (length xs + k) = omega arith in
    rw same (get_elem?-append xs ys k)

pub byte_at-append :
    (xs ys : List ℕ) (i k : ℕ) → i ≡ length xs + k → byte_at (xs ++ ys) i ≡ byte_at ys k
unfolding byte_at
byte_at-append xs ys i k e = rw (e, get_elem?-append xs ys k) refl

pub read_le-append :
    (n : ℕ) (xs ys : List ℕ) (i k : ℕ) → i ≡ length xs + k → read_le n (xs ++ ys) i ≡ read_le n ys k
unfolding read_le
read_le-append n xs ys i k e =
    let size = length-append xs ys in
    let same : leb (i + n) (length (xs ++ ys)) ≡ leb (k + n) (length ys) = ground arith in
    let last : i + n ≡ length xs + (k + n) = omega arith in
    rw (same, last, e, slice-append xs ys k (k + n)) refl

-- The number at the front of a section.
pub read_le-to_le : (n v : ℕ) (rest : List ℕ) → v < 256 ^ n → read_le n (to_le n v ++ rest) 0 ≡ ok v
unfolding read_le
read_le-to_le n v rest h =
    let size = length-append (to_le n v) rest in
    let width = length-to_le n v in
    let fits : leb (0 + n) (length (to_le n v ++ rest)) ≡ true = ground arith in
    let value = from_le-to_le n v h in
    let span : 0 + n - 0 ≡ length (to_le n v) = omega arith in
    rw (fits, span, take-append (to_le n v) rest, value) refl

pub byte_at-cons :
    (xs rest : List ℕ) (i b : ℕ) → i ≡ length xs → byte_at (xs ++ (b ∷ rest)) i ≡ ok b
unfolding byte_at
byte_at-cons xs rest i b at = byte_at-append xs (b ∷ rest) i 0 (omega arith) ∙ refl

pub byte_at-second :
    (xs rest : List ℕ) (i a b : ℕ) → i ≡ length xs → byte_at (xs ++ (a ∷ b ∷ rest)) (i + 1) ≡ ok b
unfolding byte_at
byte_at-second xs rest i a b at = byte_at-append xs (a ∷ b ∷ rest) (i + 1) 1 (omega arith) ∙ refl

-- The number behind a first byte.
pub read_le-second :
    (n v : ℕ) (xs rest : List ℕ) (i b : ℕ)
    → v < 256 ^ n
    → i ≡ length xs
    → read_le n (xs ++ (b ∷ (to_le n v ++ rest))) (i + 1) ≡ ok v
read_le-second n v xs rest i b h at =
    read_le-append n xs (b ∷ (to_le n v ++ rest)) (i + 1) 1 (omega arith)
    ∙ read_le-append n (b ∷ []) (to_le n v ++ rest) 1 0 (omega arith)
    ∙ read_le-to_le n v rest h

pub byte_at-third :
    (xs rest : List ℕ) (i a b c : ℕ)
    → i ≡ length xs
    → byte_at (xs ++ (a ∷ b ∷ c ∷ rest)) (i + 2) ≡ ok c
unfolding byte_at
byte_at-third xs rest i a b c at =
    byte_at-append xs (a ∷ b ∷ c ∷ rest) (i + 2) 2 (omega arith) ∙ refl

pub byte_at-fourth :
    (xs rest : List ℕ) (i a b c d : ℕ)
    → i ≡ length xs
    → byte_at (xs ++ (a ∷ b ∷ c ∷ d ∷ rest)) (i + 3) ≡ ok d
unfolding byte_at
byte_at-fourth xs rest i a b c d at =
    byte_at-append xs (a ∷ b ∷ c ∷ d ∷ rest) (i + 3) 3 (omega arith) ∙ refl

pub read_u16-to_le :
    (v : ℕ) (xs rest : List ℕ) (i : ℕ)
    → v < 2 ^ 16
    → i ≡ length xs
    → read_u16 (xs ++ (to_le 2 v ++ rest)) i ≡ ok v
unfolding read_u16
read_u16-to_le v xs rest i h at =
    read_le-append 2 xs (to_le 2 v ++ rest) i 0 (omega arith) ∙ read_le-to_le 2 v rest h
