-- ===== src/Base/Utf8.antt =====
-- `str::from_utf8`: which byte sequences are UTF-8. A `str` is the list of its bytes.
use squid_script.Base.Tests.{ltb, leb, ◌==◌, if◌then◌else◌}
use Prim.Native.Nat.{ℕ, zero, suc}
use mathlib.Core.Path.{◌≡◌, refl}
use mathlib.Core.Bool.{Bool, true, false, ◌&&◌}
use mathlib.Core.List.{List, [], ◌∷◌}

-- What a first byte asks for: how many bytes follow, and the range of the next one.
pub data Lead : Type 0 where
  lead : ℕ → ℕ → ℕ → Lead
  bad_lead : Lead

abbrev pub classify : ℕ → Lead
classify b =
    if ltb b 0x80
    then lead 0 0x80 0xbf
    else if ltb b 0xc2
    then bad_lead
    else if ltb b 0xe0
    then lead 1 0x80 0xbf
    else if b == 0xe0
    then lead 2 0xa0 0xbf
    else if b == 0xed
    then lead 2 0x80 0x9f
    else if ltb b 0xf0
    then lead 2 0x80 0xbf
    else if b == 0xf0
    then lead 3 0x90 0xbf
    else if ltb b 0xf4
    then lead 3 0x80 0xbf
    else if b == 0xf4
    then lead 3 0x80 0x8f
    else bad_lead

-- `need` bytes are still to come, the next of them between `lo` and `hi`.
unfoldable pub utf8_from : ℕ → ℕ → ℕ → List ℕ → Bool
utf8_from zero lo hi [] = true
utf8_from (suc need) lo hi [] = false
utf8_from zero lo hi (b ∷ bs) = elim (classify b) [
  | lead need lo' hi' ↦ utf8_from need lo' hi' bs
  | bad_lead ↦ false
]
utf8_from (suc need) lo hi (b ∷ bs) = leb lo b && leb b hi && utf8_from need 0x80 0xbf bs

unfoldable pub is_utf8 : List ℕ → Bool
unfolding utf8_from
is_utf8 bytes = utf8_from 0 0x80 0xbf bytes

-- "é€" and an unfinished sequence.
utf8_runs : is_utf8 (0x61 ∷ 0xc3 ∷ 0xa9 ∷ 0xe2 ∷ 0x82 ∷ 0xac ∷ []) ≡ true
unfolding is_utf8
utf8_runs = refl

utf8_cut : is_utf8 (0x61 ∷ 0xe2 ∷ 0x82 ∷ []) ≡ false
unfolding is_utf8
utf8_cut = refl
