-- ===== src/Base/Results.antt =====
-- The result of fallible code: `Result<A, E>` of the source, a panic, and a model's run out of fuel.
use mathlib.Core.Path.{◌≡◌, refl}
use mathlib.Core.Bool.{Bool, true, false}
use mathlib.Core.Option.{Option, none, some}
use Prim.Native.Nat.{ℕ, zero, suc, ◌<◌}
use native.Mathlib.Omega.{arith}
use squid_script.Base.Lists.{length, take, drop}
use mathlib.Core.List.{List, [], ◌∷◌}
use squid_script.Base.Tests.{if◌then◌else◌, leb}

-- `panic` is a Rust panic. `stuck` is no Rust value: a loop ran out of the model's fuel.
pub data Result {ℓ κ} (E : Type ℓ) (A : Type κ) : Type (ℓ ⊔ κ) where
  ok : A → Result E A
  err : E → Result E A
  panic : Result E A
  stuck : Result E A

-- The `?` operator.
infixl 5 ◌>>=◌ ◌>>◌
abbrev pub ◌>>=◌ {ℓ κ μ} :
    {E : Type ℓ} {A : Type κ} {B : Type μ} → Result E A → (A → Result E B) → Result E B
stuck >>= next = stuck
panic >>= next = panic
err e >>= next = err e
ok value >>= next = next value

-- `map_err`, also the conversion that `?` makes.
abbrev pub map_err {ℓ κ μ} :
    {E : Type ℓ} {F : Type κ} {A : Type μ} → (E → F) → Result E A → Result F A
map_err f (ok a) = ok a
map_err f (err e) = err (f e)
map_err f panic = panic
map_err f stuck = stuck

-- A step that returns nothing, `step()?;`, and what follows it.
abbrev pub ◌>>◌ {ℓ κ} : {E : Type ℓ} {B : Type κ} → Result E (Unit {0}) → Result E B → Result E B
step >> later = step >>= λ done. later

abbrev pub ok_or {ℓ κ} : {E : Type ℓ} {A : Type κ} → Option A → E → Result E A
ok_or none e = err e
ok_or (some a) e = ok a

-- `expect`
abbrev pub expect {ℓ κ μ} : {E : Type ℓ} {F : Type κ} {A : Type μ} → Result E A → Result F A
expect (ok a) = ok a
expect (err e) = panic
expect panic = panic
expect stuck = stuck

pub >>=-eq-ok {ℓ κ μ} :
    {E : Type ℓ} {A : Type κ} {B : Type μ} (m : Result E A) (f : A → Result E B) {b : B}
    → (m >>= f) ≡ ok b
    → (a : A) × (m ≡ ok a) × (f a ≡ ok b)
>>=-eq-ok stuck f h = cc
>>=-eq-ok panic f h = cc
>>=-eq-ok (err e) f h = cc
>>=-eq-ok (ok value) f h = (value, refl, h)

-- `if !condition { return Err(e) }`
abbrev pub guard {ℓ} : {E : Type ℓ} → Bool → E → Result E (Unit {0})
guard false refusal = err refusal
guard true refusal = ok tt

-- The code returned, with a value or an error: it did not panic, and the fuel was enough.
abbrev pub Settles {ℓ κ} : {E : Type ℓ} {A : Type κ} → Result E A → Type 0
Settles (ok a) = Unit {0}
Settles (err e) = Unit {0}
Settles panic = ⊥
Settles stuck = ⊥

pub Settles-bind {ℓ κ μ} :
    {E : Type ℓ} {A : Type κ} {B : Type μ} (m : Result E A) (f : A → Result E B)
    → Settles m
    → ((a : A) → m ≡ ok a → Settles (f a))
    → Settles (m >>= f)
Settles-bind (ok a) f h k = k a refl
Settles-bind (err e) f h k = tt
Settles-bind panic f h k = h
Settles-bind stuck f h k = h

pub Settles-if {ℓ κ} :
    {E : Type ℓ} {A : Type κ} (b : Bool) (x y : Result E A)
    → Settles x
    → Settles y
    → Settles (if b then x else y)
Settles-if true x y hx hy = hx
Settles-if false x y hx hy = hy

pub guard-Settles {ℓ} : {E : Type ℓ} (b : Bool) (e : E) → Settles (guard b e)
guard-Settles true e = tt
guard-Settles false e = tt

-- `&xs[..n]` and `&xs[n..]` panic out of bounds.
abbrev pub front {ℓ κ} : {E : Type ℓ} {A : Type κ} → ℕ → List A → Result E (List A)
front n xs = if leb n (length xs) then ok (take n xs) else panic

abbrev pub behind {ℓ κ} : {E : Type ℓ} {A : Type κ} → ℕ → List A → Result E (List A)
behind n xs = if leb n (length xs) then ok (drop n xs) else panic

-- A write of `n` elements into an array of `capacity` panics out of bounds.
abbrev pub fitting {ℓ κ} : {E : Type ℓ} {A : Type κ} → ℕ → ℕ → Result E A → Result E A
fitting n capacity made = if leb n capacity then made else panic

-- `xs[i]` panics out of bounds.
abbrev pub index {ℓ κ} : {E : Type ℓ} {A : Type κ} → List A → ℕ → Result E A
index [] i = panic
index (x ∷ xs) zero = ok x
index (x ∷ xs) (suc i) = index xs i

pub ok_or-Settles {ℓ κ} : {E : Type ℓ} {A : Type κ} (o : Option A) (e : E) → Settles (ok_or o e)
ok_or-Settles none e = tt
ok_or-Settles (some a) e = tt

pub index-Settles {ℓ κ} :
    (E : Type ℓ) {A : Type κ} (xs : List A) (i : ℕ) → i < length xs → Settles (index {E = E} xs i)
index-Settles E [] i h = absurd (omega arith)
index-Settles E (x ∷ xs) zero h = tt
index-Settles E (x ∷ xs) (suc i) h = index-Settles E xs i (omega arith)

pub Settles-guard {ℓ κ} :
    {E : Type ℓ} {B : Type κ} (b : Bool) (e : E) (k : Result E B)
    → (b ≡ true → Settles k)
    → Settles (guard b e >> k)
Settles-guard true e k h = h refl
Settles-guard false e k h = tt

pub guard-eq-ok {ℓ} : {E : Type ℓ} (b : Bool) (e : E) {u : Unit {0}} → guard b e ≡ ok u → b ≡ true
guard-eq-ok true e h = refl
guard-eq-ok false e h = cc

-- `r?` in a method that changes `s`: an error leaves with the state as it is.
abbrev pub and_then {ℓ κ μ ν} :
    {E : Type ℓ} {A : Type κ} {B : Type μ} {S : Type ν}
    → Result E A
    → S
    → (A → S × Result E B)
    → S × Result E B
and_then (ok a) s f = f a
and_then (err e) s f = (s, err e)
and_then panic s f = (s, panic)
and_then stuck s f = (s, stuck)

-- What holds of the state before an `and_then`, and after what follows its success, holds behind it.
pub and_then_state {ℓ κ μ ν ξ} :
    {E : Type ℓ} {A : Type κ} {B : Type μ} {S : Type ν} (P : S → Type ξ) (r : Result E A) (s : S)
    (f : A → S × Result E B)
    → P s
    → ((a : A) → r ≡ ok a → P (f a).0)
    → P (and_then r s f).0
and_then_state P (ok a) s f h k = k a refl
and_then_state P (err e) s f h k = h
and_then_state P panic s f h k = h
and_then_state P stuck s f h k = h

pub and_then-Settles {ℓ κ μ ν} :
    {E : Type ℓ} {A : Type κ} {B : Type μ} {S : Type ν} (r : Result E A) (s : S)
    (f : A → S × Result E B)
    → Settles r
    → ((a : A) → r ≡ ok a → Settles (f a).1)
    → Settles (and_then r s f).1
and_then-Settles (ok a) s f h k = k a refl
and_then-Settles (err e) s f h k = tt
and_then-Settles panic s f h k = h
and_then-Settles stuck s f h k = h

pub map_err-Settles {ℓ κ μ} :
    {E : Type ℓ} {F : Type κ} {A : Type μ} (g : E → F) (r : Result E A)
    → Settles r
    → Settles (map_err g r)
map_err-Settles g (ok a) h = tt
map_err-Settles g (err e) h = tt
map_err-Settles g panic h = h
map_err-Settles g stuck h = h

-- An index in bounds has an answer.
pub index_ok {ℓ κ} :
    {E : Type ℓ} {A : Type κ} (xs : List A) (i : ℕ)
    → i < length xs
    → (a : A) × (index {E = E} xs i ≡ ok a)
index_ok [] i h = absurd (omega arith)
index_ok (x ∷ xs) zero h = (x, refl)
index_ok (x ∷ xs) (suc i) h = index_ok xs i (omega arith)
