-- ===== src/ControlServer/Sessions.antt =====
-- What a connection to the control port gets, and what it does to the node.
use beacon_node.Base.{
  ℕ, ◌+◌, ◌≤◌, ◌<◌, ◌^◌, ◌%◌, ◌/◌, [], ◌∷◌, ◌++◌, true, false, ◌&&◌, ◌≡◌, refl, Option, some, arith,
  leb, length, take-append, length-append,
}
use beacon_node.Base.Text.{Bytes}
use beacon_node.Tokens.Words.{IsLine}
use beacon_node.Framing.RoundTrip.{be32}
use beacon_node.Framing.{Frame, encode_frame, read_u32, header_size}
use beacon_node.Identity.{IdentityService}
use beacon_node.Registry.{AgentRegistry}
use beacon_node.Control.{handle_line}
use beacon_node.ControlProtobuf.Requests.{handle_control_frame}
use beacon_node.ControlServer.{
  Server, is_binary_frame_header, read_line, read_frame, replied, serve_frame, serve_line,
  serve_session,
}

read_line-append : (line rest : Bytes) → IsLine line → read_line (line ++ b'\n' ∷ rest) ≡ some line
unfolding read_line
read_line-append [] rest h = refl
read_line-append (c ∷ line) rest (hc, h) = ground (arith, hc, read_line-append line rest h)

-- A line is not a binary frame: fewer than nine bytes were peeked, or the magic bytes do not stand first.
abbrev pub IsText : ℕ → Bytes → Type 0
IsText peeked sent = (leb header_size peeked && is_binary_frame_header sent) ≡ false

-- A client that sends a text line, with anything behind the line feed, gets the answer that
-- `handle_line` makes of the line before the line feed, and the node changes as that call changes it.
pub serve_session-line :
    (server : Server) (g : AgentRegistry) (identity : Option IdentityService) (peeked : ℕ)
    (line rest : Bytes)
    → IsLine line
    → IsText peeked (line ++ b'\n' ∷ rest)
    → serve_session server g identity peeked (line ++ b'\n' ∷ rest)
      ≡ replied (handle_line server.env server.protocol g identity line)
unfolding serve_session serve_line
serve_session-line server g identity peeked line rest h text =
    rw (text, serve_session) (rw (read_line-append line rest h, serve_line) refl)

read_u32-encode_frame :
    (f : Frame) (rest : Bytes)
    → length f.payload < 2 ^ 32
    → read_u32 (encode_frame f ++ rest) 5 ≡ length f.payload
unfolding read_u32 encode_frame
read_u32-encode_frame f rest h =
    let n = length f.payload in
    ground (
      arith,
      be32 (n / 2 ^ 24) (n / 2 ^ 16 % 256) (n / 2 ^ 8 % 256) (n % 256) (omega arith) (omega arith)
          (omega arith) (omega arith),
    )

length-encode_frame : (f : Frame) → length (encode_frame f) ≡ header_size + length f.payload
unfolding encode_frame
length-encode_frame f = omega arith

read_frame-append :
    (f : Frame) (rest : Bytes)
    → length f.payload < 2 ^ 32
    → read_frame (encode_frame f ++ rest) ≡ some (encode_frame f)
unfolding read_frame
read_frame-append f rest h = ground (
  arith,
  read_u32-encode_frame f rest h,
  length-encode_frame f,
  length-append (encode_frame f) rest,
  take-append (encode_frame f) rest,
)

magic_first : (f : Frame) (rest : Bytes) → is_binary_frame_header (encode_frame f ++ rest) ≡ true
unfolding is_binary_frame_header encode_frame
magic_first f rest = refl

-- Where the build has protobuf and the nine bytes of the header have arrived at the peek, a client that
-- sends a frame, with anything behind it, gets the answer that `handle_control_frame` makes of exactly the
-- frame's bytes, and the node changes as that call changes it.
pub serve_session-encode_frame :
    (server : Server) (g : AgentRegistry) (identity : Option IdentityService) (peeked : ℕ)
    (f : Frame) (rest : Bytes)
    → server.protobuf_enabled ≡ true
    → header_size ≤ peeked
    → length f.payload < 2 ^ 32
    → serve_session server g identity peeked (encode_frame f ++ rest)
      ≡ replied (
          handle_control_frame server.env server.moved server.codec server.protocol g identity
            (encode_frame f))
unfolding serve_session serve_frame
serve_session-encode_frame server g identity peeked f rest enabled arrived h =
    rw (magic_first f rest, le_leb arrived, enabled, serve_session)
      (rw (read_frame-append f rest h, serve_frame) refl)
  where
    le_leb : header_size ≤ peeked → leb header_size peeked ≡ true
    le_leb le = ground arith
