-- ===== src/Examples/Texts.antt =====
-- Frames, and the heartbeat at the port of the responder.
use beacon_node.Base.{[], ◌∷◌, ◌≡◌, refl, some, arith}
use beacon_node.Base.Text.{Bytes}
use beacon_node.Framing.{read_u16, read_u32, Frame, encode_frame, decode_frame}
use beacon_node.Framing.RoundTrip.{decode_frame-encode_frame, encode_frame-decode_frame}

abbrev small_frame : Frame
small_frame = record { kind = 3; payload = 7 ∷ 255 ∷ [] }

decode_frame-encode_frame_example : decode_frame (encode_frame small_frame) ≡ some small_frame
decode_frame-encode_frame_example =
    decode_frame-encode_frame small_frame (omega arith) (omega arith)

abbrev small_bytes : Bytes
small_bytes = 66 ∷ 78 ∷ 1 ∷ 0 ∷ 3 ∷ 0 ∷ 0 ∷ 0 ∷ 2 ∷ 7 ∷ 255 ∷ []

encode_frame-decode_frame_example : encode_frame small_frame ≡ small_bytes
encode_frame-decode_frame_example =
    encode_frame-decode_frame small_bytes small_frame (ground arith)
      (unfold decode_frame read_u16 read_u32 in refl)
