-- ===== src/ControlProtobuf/Cases.antt =====
-- The ways through the handlers of src/beacon/control_protobuf.cpp.
use beacon_node.Base.{◌≡◌, inl, inr, Option, none, some, refl, Bool-cases, not, ◌==◌, List, []}
use beacon_node.Base.Text.{Bytes}
use beacon_node.Types.{AgentRecord}
use beacon_node.Framing.{Frame, decode_frame, control_request}
use beacon_node.Identity.{IdentityService}
use beacon_node.Registry.{AgentRegistry}
use beacon_node.Control.{ControlProtocol, Env}
use beacon_node.ControlProtobuf.{ControlCodec, ControlRequest}
use beacon_node.ControlProtobuf.Requests.{
  handle_request, handle_control_request_payload, handle_control_frame,
}

module _ (env : Env) (moved : AgentRecord → AgentRecord) (p : ControlProtocol) (g : AgentRegistry)
    (identity : Option IdentityService) where
  -- What holds of the state before, and of the state after each request, holds after a payload.
  pub payload_keeps :
      (P : AgentRegistry → Option IdentityService → List AgentRecord → Type 0)
      (codec : ControlCodec) (payload : Bytes)
      → P g identity []
      → ((request : ControlRequest)
          → P
              (handle_request env moved p g identity request).registry
              (handle_request env moved p g identity request).identity
              (handle_request env moved p g identity request).notified)
      → P
          (handle_control_request_payload env moved codec p g identity payload).registry
          (handle_control_request_payload env moved codec p g identity payload).identity
          (handle_control_request_payload env moved codec p g identity payload).notified
  unfolding handle_control_request_payload
  payload_keeps P codec payload before after = with_request (ControlCodec.parse codec payload) refl
    where
      with_request :
          (parsed : Option ControlRequest)
          → ControlCodec.parse codec payload ≡ parsed
          → P
              (handle_control_request_payload env moved codec p g identity payload).registry
              (handle_control_request_payload env moved codec p g identity payload).identity
              (handle_control_request_payload env moved codec p g identity payload).notified
      with_request none h = rw (h, handle_control_request_payload) before
      with_request (some request) h = rw (h, handle_control_request_payload) (after request)

  pub frame_keeps :
      (P : AgentRegistry → Option IdentityService → List AgentRecord → Type 0)
      (codec : ControlCodec) (frame_bytes : Bytes)
      → P g identity []
      → ((request : ControlRequest)
          → P
              (handle_request env moved p g identity request).registry
              (handle_request env moved p g identity request).identity
              (handle_request env moved p g identity request).notified)
      → P
          (handle_control_frame env moved codec p g identity frame_bytes).registry
          (handle_control_frame env moved codec p g identity frame_bytes).identity
          (handle_control_frame env moved codec p g identity frame_bytes).notified
  unfolding handle_control_frame
  frame_keeps P codec frame_bytes before after = with_frame (decode_frame frame_bytes) refl
    where
      with_frame :
          (decoded : Option Frame)
          → decode_frame frame_bytes ≡ decoded
          → P
              (handle_control_frame env moved codec p g identity frame_bytes).registry
              (handle_control_frame env moved codec p g identity frame_bytes).identity
              (handle_control_frame env moved codec p g identity frame_bytes).notified
      with_frame none h = rw (h, handle_control_frame) before
      with_frame (some f) h = elim (Bool-cases (not (f.kind == control_request))) [
        | inl e ↦ rw (h, e, handle_control_frame) before
        | inr e ↦ rw (h, e, handle_control_frame) (payload_keeps P codec f.payload before after)
      ]
