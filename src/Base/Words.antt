-- ===== src/Base/Words.antt =====
-- Little-endian words: `to_le_bytes` and `from_le_bytes` of the unsigned integers.
use squid_script.Base.Lists.{length, All}
use Prim.Native.Nat.{ℕ, zero, suc, ◌+◌, ◌*◌, ◌/◌, ◌%◌, ◌^◌, ◌<◌}
use mathlib.Core.Path.{◌≡◌, refl}
use mathlib.Core.List.{List, [], ◌∷◌}
use native.Mathlib.Omega.{arith}

abbrev pub IsByte : ℕ → Type 0
IsByte b = b < 256

-- The `n` low bytes of `v`, lowest first.
abbrev pub to_le : ℕ → ℕ → List ℕ
to_le zero v = []
to_le (suc n) v = (v % 256) ∷ to_le n (v / 256)

abbrev pub from_le : List ℕ → ℕ
from_le [] = 0
from_le (b ∷ bs) = b + 256 * from_le bs

pub length-to_le : (n v : ℕ) → length (to_le n v) ≡ n
length-to_le zero v = refl
length-to_le (suc n) v = omega (arith, length-to_le n (v / 256))

pub from_le-to_le : (n v : ℕ) → v < 256 ^ n → from_le (to_le n v) ≡ v
from_le-to_le zero v h = omega arith
from_le-to_le (suc n) v h = omega (arith, from_le-to_le n (v / 256) (omega arith))

pub to_le-IsByte : (n v : ℕ) → All IsByte (to_le n v)
to_le-IsByte zero v = tt
to_le-IsByte (suc n) v = (omega arith, to_le-IsByte n (v / 256))
