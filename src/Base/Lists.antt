-- ===== src/Base/Lists.antt =====
-- Lists measured, cut and indexed by native numbers, under the library's names.
use Prim.Native.Nat.{ℕ, zero, suc, ◌+◌, ◌-◌, ◌≤◌, min}
use mathlib.Core.Path.{◌≡◌, refl, ap}
use mathlib.Core.Logic.{◌⊎◌, inl, inr}
use mathlib.Core.Bool.{Bool, true, false, ◌&&◌}
use mathlib.Core.List.{List, [], ◌∷◌, ◌++◌}
use mathlib.Core.Option.{Option, none, some}
use Prim.Native.Nat.add
use native.Mathlib.Nat.{add-zero}
use native.Mathlib.Omega.{arith}
use squid_script.Base.Tests.{◌==◌}

module _ {ℓ} {A : Type ℓ} where
  abbrev pub length : List A → ℕ
  length [] = 0
  length (x ∷ xs) = suc (length xs)

  abbrev pub get_elem? : List A → ℕ → Option A
  get_elem? [] i = none
  get_elem? (x ∷ xs) zero = some x
  get_elem? (x ∷ xs) (suc i) = get_elem? xs i

  -- A write out of bounds changes nothing.
  abbrev pub set : List A → ℕ → A → List A
  set [] i v = []
  set (x ∷ xs) zero v = v ∷ xs
  set (x ∷ xs) (suc i) v = x ∷ set xs i v

  abbrev pub take : ℕ → List A → List A
  take zero xs = []
  take (suc n) [] = []
  take (suc n) (x ∷ xs) = x ∷ take n xs

  abbrev pub drop : ℕ → List A → List A
  drop zero xs = xs
  drop (suc n) [] = []
  drop (suc n) (x ∷ xs) = drop n xs

  abbrev pub replicate : ℕ → A → List A
  replicate zero a = []
  replicate (suc n) a = a ∷ replicate n a

  abbrev pub All {κ} : (A → Type κ) → List A → Type κ
  All P [] = Unit {κ}
  All P (x ∷ xs) = P x × All P xs

  -- `xs[start..end]`, where the range is in bounds.
  abbrev pub slice : ℕ → ℕ → List A → List A
  slice start end xs = take (end - start) (drop start xs)

  abbrev pub is_empty : List A → Bool
  is_empty [] = true
  is_empty (x ∷ xs) = false

-- `bytes == other` on byte slices.
abbrev pub bytes_eq : List ℕ → List ℕ → Bool
bytes_eq [] [] = true
bytes_eq [] (y ∷ ys) = false
bytes_eq (x ∷ xs) [] = false
bytes_eq (x ∷ xs) (y ∷ ys) = x == y && bytes_eq xs ys

pub bytes_eq_refl : (xs : List ℕ) → bytes_eq xs xs ≡ true
bytes_eq_refl [] = refl
bytes_eq_refl (x ∷ xs) = ground (arith, bytes_eq_refl xs)

pub bytes_eq→eq : (xs ys : List ℕ) → bytes_eq xs ys ≡ true → xs ≡ ys
bytes_eq→eq [] [] h = refl
bytes_eq→eq [] (y ∷ ys) h = cc
bytes_eq→eq (x ∷ xs) [] h = cc
bytes_eq→eq (x ∷ xs) (y ∷ ys) h = ground (arith, bytes_eq→eq xs ys)

module _ {ℓ} {A : Type ℓ} where
  pub length-append : (xs ys : List A) → length (xs ++ ys) ≡ length xs + length ys
  length-append [] ys = omega arith
  length-append (x ∷ xs) ys = omega (arith, length-append xs ys)

  pub take-append : (xs ys : List A) → take (length xs) (xs ++ ys) ≡ xs
  take-append [] ys = refl
  take-append (x ∷ xs) ys = ap (λ t. x ∷ t) (take-append xs ys)

  pub drop-append : (xs ys : List A) → drop (length xs) (xs ++ ys) ≡ ys
  drop-append [] ys = refl
  drop-append (x ∷ xs) ys = drop-append xs ys

  pub length-take : (n : ℕ) (xs : List A) → length (take n xs) ≡ min n (length xs)
  length-take zero xs = omega arith
  length-take (suc n) [] = omega arith
  length-take (suc n) (x ∷ xs) = omega (arith, length-take n xs)

  pub length-drop : (n : ℕ) (xs : List A) → length (drop n xs) ≡ length xs - n
  length-drop zero xs = omega arith
  length-drop (suc n) [] = omega arith
  length-drop (suc n) (x ∷ xs) = omega (arith, length-drop n xs)

  pub length-replicate : (n : ℕ) (a : A) → length (replicate n a) ≡ n
  length-replicate zero a = refl
  length-replicate (suc n) a = ap suc (length-replicate n a)

  pub take_all : (xs : List A) → take (length xs) xs ≡ xs
  take_all [] = refl
  take_all (x ∷ xs) = ap (λ t. x ∷ t) (take_all xs)

  pub drop_all : (xs : List A) → drop (length xs) xs ≡ []
  drop_all [] = refl
  drop_all (x ∷ xs) = drop_all xs

  pub drop-drop : (a b : ℕ) (xs : List A) → drop a (drop b xs) ≡ drop (b + a) xs
  drop-drop a zero xs = ap (λ t. drop t xs) (omega arith)
  drop-drop zero (suc b) [] = rw add-zero
  drop-drop (suc a) (suc b) [] = rw add.suc
  drop-drop a (suc b) (x ∷ xs) = rw add.suc (drop-drop a b xs)

  pub drop_past : (n : ℕ) (xs : List A) → length xs ≤ n → drop n xs ≡ []
  drop_past zero [] h = refl
  drop_past zero (x ∷ xs) h = absurd (omega arith)
  drop_past (suc n) [] h = refl
  drop_past (suc n) (x ∷ xs) h = drop_past n xs (omega arith)

  pub drop-append_add : (xs ys : List A) (n : ℕ) → drop (length xs + n) (xs ++ ys) ≡ drop n ys
  drop-append_add [] ys n = ap (λ t. drop t ys) (omega arith)
  drop-append_add (x ∷ xs) ys n = rw add.suc (drop-append_add xs ys n)

  pub slice-append :
      (xs ys : List A) (a b : ℕ) → slice (length xs + a) (length xs + b) (xs ++ ys) ≡ slice a b ys
  slice-append xs ys a b =
      let e : length xs + b - (length xs + a) ≡ b - a = omega arith in
      rw (drop-append_add xs ys a, e)

  pub get_elem?-lt : (xs : List A) (i : ℕ) (a : A) → get_elem? xs i ≡ some a → suc i ≤ length xs
  get_elem?-lt [] i a h = cc
  get_elem?-lt (x ∷ xs) zero a h = omega arith
  get_elem?-lt (x ∷ xs) (suc i) a h = omega (arith, get_elem?-lt xs i a h)

  -- An element of a list with one more at the end is an old one, or the new one.
  pub get_elem?-snoc :
      (xs : List A) (y : A) (i : ℕ) (a : A)
      → get_elem? (xs ++ (y ∷ [])) i ≡ some a
      → (get_elem? xs i ≡ some a) ⊎ ((i ≡ length xs) × (y ≡ a))
  get_elem?-snoc [] y zero a h = inr (refl, ground arith)
  get_elem?-snoc [] y (suc i) a h = cc
  get_elem?-snoc (x ∷ xs) y zero a h = inl h
  get_elem?-snoc (x ∷ xs) y (suc i) a h = elim (get_elem?-snoc xs y i a h) [
    | inl old ↦ inl old
    | inr (here, same) ↦ inr (omega arith, same)
  ]

  -- After a write an element is an old one, or the one written.
  pub get_elem?-set :
      (xs : List A) (i : ℕ) (v : A) (k : ℕ) (a : A)
      → get_elem? (set xs i v) k ≡ some a
      → (get_elem? xs k ≡ some a) ⊎ ((k ≡ i) × (v ≡ a))
  get_elem?-set [] i v k a h = cc
  get_elem?-set (x ∷ xs) zero v zero a h = inr (refl, ground arith)
  get_elem?-set (x ∷ xs) zero v (suc k) a h = inl h
  get_elem?-set (x ∷ xs) (suc i) v zero a h = inl h
  get_elem?-set (x ∷ xs) (suc i) v (suc k) a h = elim (get_elem?-set xs i v k a h) [
    | inl old ↦ inl old
    | inr (here, same) ↦ inr (omega arith, same)
  ]

  pub length-set : (xs : List A) (i : ℕ) (v : A) → length (set xs i v) ≡ length xs
  length-set [] i v = refl
  length-set (x ∷ xs) zero v = refl
  length-set (x ∷ xs) (suc i) v = omega (arith, length-set xs i v)
