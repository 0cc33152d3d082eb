-- ===== src/Node/Service.antt =====
-- The pointer to the identity service after the handlers of the control port.
use beacon_node.Base.{ℕ, some, arith}
use beacon_node.Base.Text.{Bytes}
use beacon_node.Types.{AgentRecord}
use beacon_node.Identity.{IdentityService}
use beacon_node.Registry.{AgentRegistry}
use beacon_node.Control.{
  Env, ControlProtocol, submit, register_identity, handle_heartbeat, perform, handle_line,
}
use beacon_node.Control.Command.{ControlAction, ControlCommand, parse_command}
use beacon_node.ControlProtobuf.{ControlRequest}
use beacon_node.ControlProtobuf.Requests.{pin_identity, submit_record, handle_request}
use beacon_node.ControlProtobuf.Cases.{frame_keeps}
use beacon_node.ControlServer.{Server, serve_session}
use beacon_node.ControlServer.Cases.{session_keeps}
use beacon_node.Node.Handlers.{HasService}

module _ (env : Env) (p : ControlProtocol) (g : AgentRegistry) (s : IdentityService) where
  register_identity-HasService : (r : AgentRecord) → HasService (register_identity env (some s) r)
  unfolding register_identity
  register_identity-HasService r = ground arith

  perform-HasService :
      (action : ControlAction) (c : ControlCommand)
      → HasService (perform env p g (some s) action c).identity
  unfolding perform submit handle_heartbeat
  perform-HasService ControlAction.register c =
      ground (arith, register_identity-HasService c.registration)
  perform-HasService ControlAction.merge c =
      ground (arith, register_identity-HasService c.registration)
  perform-HasService _ c = tt

  handle_line-HasService : (line : Bytes) → HasService (handle_line env p g (some s) line).identity
  unfolding handle_line
  handle_line-HasService line =
      let c = parse_command env.now p.lifecycle line in
      ground (arith, perform-HasService (ControlCommand.action c) c)

  handle_request-HasService :
      (moved : AgentRecord → AgentRecord) (request : ControlRequest)
      → HasService (handle_request env moved p g (some s) request).identity
  unfolding handle_request submit_record pin_identity
  handle_request-HasService moved request = ground arith

pub serve_session-HasService :
    (server : Server) (g : AgentRegistry) (s : IdentityService) (peeked : ℕ) (sent : Bytes)
    → HasService (serve_session server g (some s) peeked sent).identity
serve_session-HasService server g s peeked sent =
    session_keeps (λ h i l. HasService i) server g (some s) peeked sent tt
      (handle_line-HasService server.env server.protocol g s)
      (λ bytes.
        frame_keeps server.env server.moved server.protocol g (some s) (λ h i l. HasService i)
          server.codec bytes tt
          (handle_request-HasService server.env server.protocol g s server.moved))
