-- ===== src/Framing/RoundTrip.antt =====
-- Encoding and decoding of frames, both ways.
use Prim.Native.Nat.{bit_or}
use beacon_node.Base.{ℕ, ◌+◌, ◌*◌, ◌/◌, ◌%◌, ◌^◌, ◌<◌, some, ◌≡◌, arith, length, All, ◌∷◌}
use beacon_node.Base.Text.{IsByte, Bytes}
use beacon_node.Base.Bits.{bit_or_shifted}
use beacon_node.Framing.{Frame, read_u16, read_u32, encode_frame, decode_frame}

-- A big-endian number of two and of four bytes.
be16 : (a b : ℕ) → IsByte a → IsByte b → bit_or (a * 2 ^ 8) b % 2 ^ 16 ≡ a * 2 ^ 8 + b
be16 a b ha hb = omega (arith, bit_or_shifted 8 a b (omega arith))

pub be32 :
    (a b c d : ℕ)
    → IsByte a
    → IsByte b
    → IsByte c
    → IsByte d
    → bit_or (bit_or (bit_or (a * 2 ^ 24 % 2 ^ 32) (b * 2 ^ 16 % 2 ^ 32)) (c * 2 ^ 8 % 2 ^ 32)) d
      ≡ a * 2 ^ 24 + b * 2 ^ 16 + c * 2 ^ 8 + d
be32 a b c d ha hb hc hd = ground (
  arith,
  bit_or_shifted 24 a (b * 2 ^ 16) (omega arith),
  bit_or_shifted 16 (a * 2 ^ 8 + b) (c * 2 ^ 8) (omega arith),
  bit_or_shifted 8 (a * 2 ^ 16 + b * 2 ^ 8 + c) d (omega arith),
)

-- A frame whose kind fits 16 bits and whose payload is shorter than 2 ^ 32 bytes is decoded from its
-- encoding.
pub decode_frame-encode_frame :
    (f : Frame)
    → f.kind < 2 ^ 16
    → length f.payload < 2 ^ 32
    → decode_frame (encode_frame f) ≡ some f
unfolding decode_frame encode_frame read_u16 read_u32
decode_frame-encode_frame f hk hp =
    let n = length f.payload in
    ground (
      arith,
      be16 (f.kind / 2 ^ 8) (f.kind % 256) (omega arith) (omega arith),
      be32 (n / 2 ^ 24) (n / 2 ^ 16 % 256) (n / 2 ^ 8 % 256) (n % 256) (omega arith) (omega arith)
          (omega arith) (omega arith),
    )

-- A byte string that is decoded is the encoding of the frame that it is decoded to, so no two byte
-- strings stand for one frame, and none is decoded with a byte missing or left over.
pub encode_frame-decode_frame :
    (bytes : Bytes) (f : Frame)
    → All IsByte bytes
    → decode_frame bytes ≡ some f
    → encode_frame f ≡ bytes
unfolding decode_frame encode_frame read_u16 read_u32
encode_frame-decode_frame (m ∷ n ∷ v ∷ k ∷ l ∷ a ∷ b ∷ c ∷ d ∷ p) f
      (hm, (hn, (hv, (hk, (hl, (ha, (hb, (hc, (hd, hp))))))))) h =
    ground (arith, be16 k l hk hl, be32 a b c d ha hb hc hd)
encode_frame-decode_frame bytes f hs h = ground arith
