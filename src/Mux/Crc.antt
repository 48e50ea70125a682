-- ===== src/Mux/Crc.antt =====
-- `crc32` of src/mux.rs, bit by bit.
use idf_remote.Base.{ℕ, zero, suc, ◌-◌, ◌/◌, ◌%◌, ◌^◌, ◌<◌, arith, [], ◌∷◌, Bytes}
use Prim.Native.Nat.{bit_and, bit_xor}

abbrev pub u32_max : ℕ
u32_max = 0xffff_ffff

-- `(crc >> 1) ^ (0xedb88320 & 0u32.wrapping_sub(crc & 1))`
unfoldable pub crc_bit : ℕ → ℕ
crc_bit crc = bit_xor (crc / 2) (bit_and 0xedb8_8320 ((2 ^ 32 - bit_and crc 1) % 2 ^ 32))

-- The inner loop, with the rounds that are left.
unfoldable pub crc_bits : ℕ → ℕ → ℕ
unfolding crc_bit
crc_bits zero crc = crc
crc_bits (suc n) crc = crc_bits n (crc_bit crc)

unfoldable pub crc_bytes : ℕ → Bytes → ℕ
unfolding crc_bits
crc_bytes crc [] = crc
crc_bytes crc (b ∷ bs) = crc_bytes (crc_bits 8 (bit_xor crc b)) bs

-- `!crc` is the distance to the largest word.
unfoldable pub crc32 : Bytes → ℕ
unfolding crc_bytes
crc32 bytes = u32_max - crc_bytes u32_max bytes

pub crc32-lt : (bytes : Bytes) → crc32 bytes < 2 ^ 32
unfolding crc32
crc32-lt bytes = omega arith
