-- ===== src/Crypto/Hex.antt =====
-- Hexadecimal text and bytes, both ways.
use Prim.Native.Nat.{bit_or}
use beacon_node.Base.{
  ℕ, ◌*◌, ◌/◌, ◌%◌, ◌^◌, ◌<◌, [], ◌∷◌, ◌++◌, ◌≡◌, ◌==◌, arith, refl, Option, none, some, All,
  All-append, append_assoc, length, append-nil, Bool-cases, inl, inr,
}
use beacon_node.Base.Text.{Bytes, IsByte}
use beacon_node.Base.Bits.{bit_or_shifted}
use beacon_node.Crypto.{hex_value, decode_pairs, decode_hex, hex_digit, encode_hex}

hex_value-hex_digit : (n : ℕ) → n < 16 → hex_value (hex_digit n) ≡ some n
unfolding hex_value hex_digit
hex_value-hex_digit n h = ground arith

length-encode_hex : (bs : Bytes) → length (encode_hex bs) ≡ 2 * length bs
unfolding encode_hex
length-encode_hex [] = omega arith
length-encode_hex (b ∷ bs) = omega (arith, length-encode_hex bs)

decode_pairs-encode_hex :
    (bs out : Bytes) → All IsByte bs → decode_pairs out (encode_hex bs) ≡ out ++ bs
unfolding decode_pairs encode_hex
decode_pairs-encode_hex [] out h = rw append-nil
decode_pairs-encode_hex (b ∷ bs) out (hb, h) = ground (
  arith,
  hex_value-hex_digit (b / 16),
  hex_value-hex_digit (b % 16),
  bit_or_shifted 4 (b / 16) (b % 16),
  decode_pairs-encode_hex bs (out ++ b ∷ []) h,
  append_assoc out (b ∷ []) bs,
)

-- Every byte string is decoded from its hexadecimal text.
pub decode_hex-encode_hex : (bs : Bytes) → All IsByte bs → decode_hex (encode_hex bs) ≡ bs
unfolding decode_hex
decode_hex-encode_hex bs h = ground (arith, length-encode_hex bs, decode_pairs-encode_hex bs [] h)

decode_pairs-IsByte : (out s : Bytes) → All IsByte out → All IsByte (decode_pairs out s)
unfolding decode_pairs
decode_pairs-IsByte out [] h = h
decode_pairs-IsByte out (c ∷ []) h = tt
decode_pairs-IsByte out (c ∷ d ∷ s) h =
    by_digits (hex_value c) (hex_value d) refl refl
      (λ b hb. decode_pairs-IsByte (out ++ b ∷ []) s (All-append IsByte out (b ∷ []) h (hb, tt)))
  where
    by_digits :
        (high low : Option ℕ)
        → hex_value c ≡ high
        → hex_value d ≡ low
        → ((b : ℕ) → b < 256 → All IsByte (decode_pairs (out ++ b ∷ []) s))
        → All IsByte (decode_pairs out (c ∷ d ∷ s))
    by_digits none low e f rest = rw (e, decode_pairs) tt
    by_digits (some high) none e f rest = rw (e, f, decode_pairs) tt
    by_digits (some high) (some low) e f rest =
        rw (e, f, decode_pairs) (rest (bit_or (high * 2 ^ 4) low % 256) (omega arith))

-- Whatever a text is decoded to are bytes.
decode_hex-IsByte : (s : Bytes) → All IsByte (decode_hex s)
unfolding decode_hex
decode_hex-IsByte s = elim (Bool-cases (length s % 2 == 0)) [
  | inl e ↦ rw (e, decode_hex) (decode_pairs-IsByte [] s tt)
  | inr e ↦ rw (e, decode_hex) tt
]

-- A text that is decoded and encoded is decoded to the same bytes again.
pub decode_hex-encode_hex-decode_hex :
    (s : Bytes) → decode_hex (encode_hex (decode_hex s)) ≡ decode_hex s
decode_hex-encode_hex-decode_hex s = decode_hex-encode_hex (decode_hex s) (decode_hex-IsByte s)
