-- ===== src/Persistence/Crc.antt =====
-- The width of the checksum.
use Prim.Native.Nat.{bit_xor, differ}
use native.Mathlib.Nat.{pow-suc}
use beacon_node.Base.{ℕ, zero, suc, ◌/◌, ◌%◌, ◌^◌, ◌<◌, [], ◌∷◌, arith, All}
use beacon_node.Base.Text.{Bytes, IsByte}
use beacon_node.Base.Bits.{bit_xor_last}
use beacon_node.Persistence.{crc_bit, crc_bits, crc_bytes, compute_crc32, crc_polynomial}

differ-le : (d e : ℕ) → d < 2 → e < 2 → differ d e < 2
differ-le zero e h k = k
differ-le (suc d) zero h k = h
differ-le (suc d) (suc e) h k = ground (arith, differ-le d e)

-- Two numbers of `w` bits have an exclusive or of `w` bits.
bit_xor-lt : (w x y : ℕ) → x < 2 ^ w → y < 2 ^ w → bit_xor x y < 2 ^ w
bit_xor-lt zero x y h k = ground (arith, bit_xor_last x y)
bit_xor-lt (suc w) x y h k = omega (
  arith,
  bit_xor_last x y,
  pow-suc 2 w,
  bit_xor-lt w (x / 2) (y / 2) (omega (arith, pow-suc 2 w)) (omega (arith, pow-suc 2 w)),
  differ-le (x % 2) (y % 2) (omega arith) (omega arith),
)

crc_bit-lt : (crc : ℕ) → crc < 2 ^ 32 → crc_bit crc < 2 ^ 32
unfolding crc_bit
crc_bit-lt crc h = ground (arith, bit_xor-lt 32 (crc / 2) crc_polynomial)

crc_bits-lt : (n crc : ℕ) → crc < 2 ^ 32 → crc_bits n crc < 2 ^ 32
unfolding crc_bits
crc_bits-lt zero crc h = h
crc_bits-lt (suc n) crc h = crc_bits-lt n (crc_bit crc) (crc_bit-lt crc h)

pub compute_crc32-lt : (s : Bytes) → compute_crc32 s < 2 ^ 32
unfolding compute_crc32
compute_crc32-lt s = omega arith

crc_bytes-lt : (crc : ℕ) (s : Bytes) → crc < 2 ^ 32 → All IsByte s → crc_bytes crc s < 2 ^ 32
unfolding crc_bytes
crc_bytes-lt crc [] h b = h
crc_bytes-lt crc (c ∷ s) h (hc, b) =
    crc_bytes-lt (crc_bits 8 (bit_xor crc c)) s
      (crc_bits-lt 8 (bit_xor crc c) (bit_xor-lt 32 crc c h (omega arith))) b
