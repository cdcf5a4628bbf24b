-- ===== src/Packet/Words.antt =====
-- Little-endian words: what `buf_write_u16`, `buf_write_u32` and `buf_write_u64` of src/compiler.c append and
-- what `read_u16_le`, `read_u32_le` and `read_u64_le` of src/vm.c make of bytes.
use heluna_language.Common.{
  ℕ, zero, suc, ◌+◌, ◌*◌, ◌/◌, ◌%◌, ◌^◌, ◌<◌, ◌≡◌, refl, [], ◌∷◌, Bytes, length, arith, ap,
}

-- `(uint8_t)v`.
unfoldable pub u8_bytes : ℕ → Bytes
u8_bytes v = (v % 256) ∷ []

unfoldable pub u16_bytes : ℕ → Bytes
u16_bytes v = (v % 256) ∷ (v / 2 ^ 8 % 256) ∷ []

unfoldable pub u32_bytes : ℕ → Bytes
u32_bytes v = (v % 256) ∷ (v / 2 ^ 8 % 256) ∷ (v / 2 ^ 16 % 256) ∷ (v / 2 ^ 24 % 256) ∷ []

-- The loop of `buf_write_u64`, by the number of rounds left and the value shifted so far.
unfoldable pub le_bytes : ℕ → ℕ → Bytes
le_bytes zero v = []
le_bytes (suc n) v = (v % 256) ∷ le_bytes n (v / 256)

unfoldable pub u64_bytes : ℕ → Bytes
unfolding le_bytes
u64_bytes v = le_bytes 8 v

-- The loop of `read_u64_le`.
unfoldable pub le_value : Bytes → ℕ
le_value [] = 0
le_value (b ∷ bs) = b + 256 * le_value bs

-- The values of that many bytes.
abbrev pub byte_range : ℕ → ℕ
byte_range zero = 1
byte_range (suc n) = 256 * byte_range n

pub le_value-le_bytes : (n v : ℕ) → v < byte_range n → le_value (le_bytes n v) ≡ v
unfolding le_value le_bytes
le_value-le_bytes zero v h = omega arith
le_value-le_bytes (suc n) v h = omega (arith, le_value-le_bytes n (v / 256) (omega (arith, h)))

pub length-le_bytes : (n w : ℕ) → length (le_bytes n w) ≡ n
unfolding le_bytes
length-le_bytes zero w = refl
length-le_bytes (suc n) w = ap suc (length-le_bytes n (w / 256))
