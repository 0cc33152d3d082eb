-- ===== src/ControlServer/Cases.antt =====
-- The ways through a session of src/beacon_net/control_server.cpp.
use beacon_node.Base.{ℕ, ◌&&◌, ◌≡◌, inl, inr, refl, Option, none, some, leb, Bool-cases, List, []}
use beacon_node.Base.Text.{Bytes}
use beacon_node.Types.{AgentRecord}
use beacon_node.Framing.{header_size}
use beacon_node.Identity.{IdentityService}
use beacon_node.Registry.{AgentRegistry}
use beacon_node.Control.{HandleResult, handle_line}
use beacon_node.ControlProtobuf.Requests.{handle_control_frame}
use beacon_node.ControlServer.{
  Server, Session, is_binary_frame_header, read_line, read_frame, serve_frame, serve_line,
  serve_session,
}

module _ (P : AgentRegistry → Option IdentityService → List AgentRecord → Type 0) (server : Server)
    (g : AgentRegistry) (identity : Option IdentityService) where
  -- A predicate at what a call leaves.
  abbrev At : HandleResult → Type 0
  At h = P (HandleResult.registry h) (HandleResult.identity h) (HandleResult.notified h)

  abbrev AtEnd : Session → Type 0
  AtEnd s = P (Session.registry s) (Session.identity s) (Session.notified s)

  -- What holds of the state before, and of the state after each line and each frame, holds after a
  -- session.
  pub session_keeps :
      (peeked : ℕ) (sent : Bytes)
      → P g identity []
      → ((line : Bytes) → At (handle_line server.env server.protocol g identity line))
      → ((bytes : Bytes)
          → At (
              handle_control_frame server.env server.moved server.codec server.protocol g identity
                bytes))
      → AtEnd (serve_session server g identity peeked sent)
  unfolding serve_session serve_frame serve_line
  session_keeps peeked sent before lines frames =
      elim (Bool-cases (leb header_size peeked && is_binary_frame_header sent)) [
        | inr e ↦ rw (e, serve_session) (with_line (read_line sent) refl)
        | inl e ↦ elim (Bool-cases server.protobuf_enabled) [
          | inl on ↦ rw (e, on, serve_session) (with_frame (read_frame sent) refl)
          | inr off ↦ rw (e, off, serve_session) before
        ]
      ]
    where
      with_line :
          (line : Option Bytes) → read_line sent ≡ line → AtEnd (serve_line server g identity sent)
      with_line none e = rw (e, serve_line) before
      with_line (some line) e = rw (e, serve_line) (lines line)

      with_frame :
          (frame : Option Bytes)
          → read_frame sent ≡ frame
          → AtEnd (serve_frame server g identity sent)
      with_frame none e = rw (e, serve_frame) before
      with_frame (some bytes) e = rw (e, serve_frame) (frames bytes)
