-- ===== src/Framing.antt =====
-- src/beacon/framing.hpp and framing.cpp: the binary envelope of a payload.
-- A byte vector is a list of numbers below 256. `FrameKind` has `std::uint16_t` beneath it and the
-- decoder casts any 16-bit value to it, so a kind is a number.
pub mod RoundTrip
use Prim.Native.Nat.{bit_or}
use beacon_node.Base.{
  ℕ, zero, suc, ◌+◌, ◌*◌, ◌/◌, ◌%◌, ◌^◌, List, [], ◌∷◌, ◌++◌, Bool, not, ◌||◌, Option, none, some,
  ltb, ◌==◌, if◌then◌else◌, length, drop,
}
use beacon_node.Base.Text.{Bytes, codes}

abbrev pub FrameKind : Type 0
FrameKind = ℕ

abbrev pub control_request : FrameKind
control_request = 1

abbrev pub control_response : FrameKind
control_response = 2

abbrev pub gossip_envelope : FrameKind
gossip_envelope = 3

pub record Frame : Type 0 where
  pub kind : FrameKind
  pub payload : Bytes

abbrev pub magic0 : ℕ
magic0 = b'B'

abbrev pub magic1 : ℕ
magic1 = b'N'

abbrev pub version : ℕ
version = 1

abbrev pub header_size : ℕ
header_size = 9

-- `bytes[i]`; the program reads below the size only.
abbrev pub byte_at : Bytes → ℕ → ℕ
byte_at [] i = 0
byte_at (b ∷ bs) zero = b
byte_at (b ∷ bs) (suc i) = byte_at bs i

-- `static_cast<std::uint8_t>(x & 0xff)` is `x % 256`
unfoldable pub append_u16 : Bytes → ℕ → Bytes
append_u16 bytes value = bytes ++ value / 2 ^ 8 % 256 ∷ value % 256 ∷ []

unfoldable pub append_u32 : Bytes → ℕ → Bytes
append_u32 bytes value =
    bytes ++ value / 2 ^ 24 % 256 ∷ value / 2 ^ 16 % 256 ∷ value / 2 ^ 8 % 256 ∷ value % 256 ∷ []

unfoldable pub read_u16 : Bytes → ℕ → ℕ
read_u16 bytes offset = bit_or (byte_at bytes offset * 2 ^ 8) (byte_at bytes (offset + 1)) % 2 ^ 16

unfoldable pub read_u32 : Bytes → ℕ → ℕ
read_u32 bytes offset =
    bit_or
      (bit_or
        (bit_or (byte_at bytes offset * 2 ^ 24 % 2 ^ 32)
          (byte_at bytes (offset + 1) * 2 ^ 16 % 2 ^ 32))
        (byte_at bytes (offset + 2) * 2 ^ 8 % 2 ^ 32))
      (byte_at bytes (offset + 3))

unfoldable pub encode_frame : Frame → Bytes
unfolding append_u16 append_u32
encode_frame f =
    append_u32 (append_u16 (magic0 ∷ magic1 ∷ version ∷ []) (f.kind % 2 ^ 16))
      (length f.payload % 2 ^ 32)
    ++ f.payload

unfoldable pub decode_frame : Bytes → Option Frame
decode_frame bytes =
    if ltb (length bytes) header_size
      || (not (byte_at bytes 0 == magic0)
          || (not (byte_at bytes 1 == magic1) || not (byte_at bytes 2 == version)))
    then none
    else if not (length bytes == header_size + read_u32 bytes 5)
    then none
    else some (record { kind = read_u16 bytes 3; payload = drop header_size bytes })

unfoldable pub describe_frame_kind : FrameKind → Bytes
describe_frame_kind kind =
    if kind == control_request
    then codes "control_request"
    else if kind == control_response
    then codes "control_response"
    else if kind == gossip_envelope
    then codes "gossip_envelope"
    else codes "unknown"
