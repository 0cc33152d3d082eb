-- ===== src/ControlProtobuf/Requests.antt =====
-- The handlers of src/beacon/control_protobuf.cpp. `moved` is what a move leaves of a record, which the C++
-- library does not fix.
use beacon_node.Base.{
  ◌+◌, List, [], ◌++◌, true, false, not, ◌||◌, Option, none, some, if◌then◌else◌, is_empty, map,
  ◌==◌,
}
use beacon_node.Base.Text.{Bytes, codes}
use beacon_node.Config.{TrustConfig}
use beacon_node.Types.{AgentRecord, RegistryStats}
use beacon_node.Numbers.{to_string}
use beacon_node.Crypto.{verify_agent_signature}
use beacon_node.Framing.{Frame, encode_frame, decode_frame, control_request, control_response}
use beacon_node.Identity.{IdentityService, verify_and_register}
use beacon_node.Registry.{
  AgentRegistry, UpsertResult, upsert, refresh_heartbeat, list, entries_after_revision, stats,
}
use beacon_node.Control.{Env, ControlProtocol, HandleResult, answer, signature_error}
use beacon_node.ControlProtobuf.{
  ControlRequest, register_agent, sync_merge, heartbeat, list_agents, sync_pull, stats_request,
  no_body, ControlResponse, ControlCodec, from_proto, to_proto, set_status,
}

pub record RequestResult : Type 0 where
  pub registry : AgentRegistry
  pub identity : Option IdentityService
  pub response : ControlResponse
  pub notified : List AgentRecord

abbrev pub reply : AgentRegistry → Option IdentityService → ControlResponse → RequestResult
reply g identity response = record {
  registry = g;
  identity = identity;
  response = response;
  notified = [];
}

-- `if (protocol.identity_service()) protocol.identity_service()->verify_and_register(record);`
unfoldable pub pin_identity : Env → Option IdentityService → AgentRecord → Option IdentityService
pin_identity env none r = none
pin_identity env (some s) r = some (verify_and_register env.fresh env.sodium s r).0

-- The branches of `register_agent` and `sync_merge`, which differ in the message of success. The record
-- is moved into `upsert`, and what is left of it goes to the identity service.
unfoldable pub submit_record :
    Env
    → (AgentRecord → AgentRecord)
    → TrustConfig
    → AgentRegistry
    → Option IdentityService
    → AgentRecord
    → Bytes
    → RequestResult
unfolding pin_identity
submit_record env moved trust g identity r message =
    if is_empty r.agent_id || (is_empty r.node_id || is_empty r.endpoint)
    then reply g identity (set_status false (codes "agent_id_node_id_and_endpoint_required"))
    else elim (signature_error trust (verify_agent_signature env.sodium r)) [
      | some e ↦ reply g identity (set_status false e)
      | none ↦
          let done = upsert g r in
          if UpsertResult.accepted done
          then record {
            registry = UpsertResult.registry done;
            identity = pin_identity env identity (moved r);
            response = set_status true message;
            notified = UpsertResult.notified done;
          }
          else record {
            registry = UpsertResult.registry done;
            identity = identity;
            response = set_status false (codes "stale_revision");
            notified = UpsertResult.notified done;
          }
    ]

unfoldable pub handle_request :
    Env
    → (AgentRecord → AgentRecord)
    → ControlProtocol
    → AgentRegistry
    → Option IdentityService
    → ControlRequest
    → RequestResult
unfolding submit_record to_proto
handle_request env moved p g identity (register_agent proto) =
    submit_record env moved p.trust g identity (from_proto env.now p.lifecycle proto)
      (codes "registered")
handle_request env moved p g identity (sync_merge proto) =
    submit_record env moved p.trust g identity (from_proto env.now p.lifecycle proto)
      (codes "merged")
handle_request env moved p g identity (heartbeat agent_id revision) =
    let done = refresh_heartbeat g agent_id (env.now + p.lifecycle.heartbeat_ttl) revision in
    reply done.0 identity (
      if done.1
      then set_status true (codes "heartbeat")
      else set_status false (codes "unknown_or_stale_agent"))
handle_request env moved p g identity list_agents =
    reply g identity (record (set_status true (codes "list")) { agents = map to_proto (list g) })
handle_request env moved p g identity (sync_pull after_revision limit) =
    reply g identity (record (set_status true (codes "sync_pull")) {
      agents = map to_proto (entries_after_revision env.sorter g after_revision limit);
    })
handle_request env moved p g identity stats_request = reply g identity (
    set_status true (
      codes "active_agents="
      ++ (to_string (RegistryStats.active_agents (stats g))
          ++ (codes " highest_revision=" ++ to_string (RegistryStats.highest_revision (stats g))))))
handle_request env moved p g identity no_body =
    reply g identity (set_status false (codes "empty_control_request"))

-- The serialized response, or nothing where it is not serialized.
abbrev pub serialized : ControlCodec → ControlResponse → Bytes
serialized codec response = elim (ControlCodec.serialize codec response) [
  | none ↦ []
  | some bytes ↦ bytes
]

unfoldable pub handle_control_request_payload :
    Env
    → (AgentRecord → AgentRecord)
    → ControlCodec
    → ControlProtocol
    → AgentRegistry
    → Option IdentityService
    → Bytes
    → HandleResult
unfolding handle_request
handle_control_request_payload env moved codec p g identity payload =
    elim (ControlCodec.parse codec payload) [
      | none ↦
          answer g identity
            (serialized codec (set_status false (codes "invalid_protobuf_control_request")))
      | some request ↦
          let done = handle_request env moved p g identity request in
          record {
            registry = RequestResult.registry done;
            identity = RequestResult.identity done;
            response = serialized codec (RequestResult.response done);
            notified = RequestResult.notified done;
          }
    ]

abbrev pub response_frame : Bytes → Bytes
response_frame payload = encode_frame (record { kind = control_response; payload = payload })

-- The answer to a frame that is not a request: nothing at all where it is not serialized.
abbrev pub invalid_frame : ControlCodec → Bytes
invalid_frame codec =
    elim (ControlCodec.serialize codec (set_status false (codes "invalid_control_frame"))) [
      | none ↦ []
      | some bytes ↦ response_frame bytes
    ]

unfoldable pub handle_control_frame :
    Env
    → (AgentRecord → AgentRecord)
    → ControlCodec
    → ControlProtocol
    → AgentRegistry
    → Option IdentityService
    → Bytes
    → HandleResult
unfolding handle_control_request_payload
handle_control_frame env moved codec p g identity frame_bytes = elim (decode_frame frame_bytes) [
  | none ↦ answer g identity (invalid_frame codec)
  | some frame ↦
      if not (Frame.kind frame == control_request)
      then answer g identity (invalid_frame codec)
      else let done =
          handle_control_request_payload env moved codec p g identity (Frame.payload frame) in
        record done { response = response_frame (HandleResult.response done) }
]
