-- ===== src/Protocol/Crc.antt =====
-- compiler/rust/crates/squid-device-protocol/src/lib.rs: the CRC-32 that a transfer session keeps
-- while its chunks arrive.
use Prim.Native.Nat.{bit_and, bit_xor}
use squid_script.Base.{ℕ, zero, suc, ◌-◌, ◌/◌, ◌%◌, ◌^◌, ◌≡◌, refl, List, [], ◌∷◌, ◌++◌}

-- One round of the inner loop; `mask` is `0u32.wrapping_sub(crc & 1)`.
crc_round : ℕ → ℕ
crc_round crc =
    let mask = (2 ^ 32 - bit_and crc 1) % 2 ^ 32 in bit_xor (crc / 2) (bit_and 0xedb88320 mask)

crc_rounds : ℕ → ℕ → ℕ
unfolding crc_round
crc_rounds zero crc = crc
crc_rounds (suc n) crc = crc_rounds n (crc_round crc)

unfoldable pub crc32_update : ℕ → List ℕ → ℕ
unfolding crc_rounds
crc32_update crc [] = crc
crc32_update crc (byte ∷ bytes) = crc32_update (crc_rounds 8 (bit_xor crc byte)) bytes

abbrev pub crc_start : ℕ
crc_start = 0xffff_ffff

-- `!crc`
abbrev pub crc_not : ℕ → ℕ
crc_not crc = 2 ^ 32 - 1 - crc

-- The CRC-32 of a whole byte sequence.
unfoldable pub crc32 : List ℕ → ℕ
unfolding crc32_update
crc32 bytes = crc_not (crc32_update crc_start bytes)

-- The running CRC over two pieces is that over the joined bytes.
pub crc32_update-append :
    (crc : ℕ) (xs ys : List ℕ) → crc32_update crc (xs ++ ys) ≡ crc32_update (crc32_update crc xs) ys
unfolding crc32_update
crc32_update-append crc [] ys = refl
crc32_update-append crc (x ∷ xs) ys = crc32_update-append (crc_rounds 8 (bit_xor crc x)) xs ys

-- The check value of CRC-32, of "123456789".
crc32_check : crc32 (0x31 ∷ 0x32 ∷ 0x33 ∷ 0x34 ∷ 0x35 ∷ 0x36 ∷ 0x37 ∷ 0x38 ∷ 0x39 ∷ []) ≡ 0xcbf43926
unfolding crc32
crc32_check = refl
