-- ===== src/Examples/ControlProtobuf.antt =====
-- Framed requests to a node with two agents.
use beacon_node.Base.{[], ◌∷◌, ◌≡◌, refl, Option, none, some, find_if, arith}
use beacon_node.Base.Text.{Bytes, codes, str_eq}
use beacon_node.Types.{AgentRecord}
use beacon_node.Crypto.{encode_hex}
use beacon_node.Registry.{find, has_id}
use beacon_node.Control.Trust.{IsTrusted}
use beacon_node.ControlProtobuf.{
  AgentRegistration, ControlRequest, register_agent, ControlResponse, ControlCodec, from_proto,
  to_proto,
}
use beacon_node.ControlProtobuf.Requests.{handle_control_frame}
use beacon_node.ControlProtobuf.Dispatch.{handle_control_frame-IsTrusted}
use beacon_node.ControlProtobuf.Fields.{from_proto-to_proto}
use beacon_node.Examples.Data.{agent, two_agents, zeros, no_keys}
use beacon_node.Examples.Control.{env, strict}

abbrev registration : Bytes → AgentRegistration
registration agent_id = record {
  agent_id = agent_id;
  node_id = codes "n1";
  endpoint = codes "tcp://h:1";
  metadata = [];
  revision = 9;
  public_key = zeros 32;
  signature = zeros 64;
}

-- A payload is the id of an agent that registers, and a response is its message.
abbrev parse_registration : Bytes → Option ControlRequest
parse_registration [] = none
parse_registration (c ∷ s) = some (register_agent (registration (c ∷ s)))

abbrev pub plain_codec : ControlCodec
plain_codec = record {
  parse = parse_registration;
  serialize = λ (r : ControlResponse). some r.message;
}

-- A move that leaves the strings empty.
abbrev pub emptied : AgentRecord → AgentRecord
emptied r = agent [] (AgentRecord.revision r) (AgentRecord.expires_at r)

abbrev pub request_frame : Bytes
request_frame = 66 ∷ 78 ∷ 1 ∷ 0 ∷ 1 ∷ 0 ∷ 0 ∷ 0 ∷ 1 ∷ 99 ∷ []

handle_control_frame-IsTrusted_example : IsTrusted env (codes "c") none (
    find
      (handle_control_frame env emptied plain_codec strict two_agents
        (some no_keys)
        request_frame).registry
      (codes "c"))
unfolding find find_if has_id str_eq
handle_control_frame-IsTrusted_example =
    handle_control_frame-IsTrusted env emptied strict two_agents (some no_keys) refl plain_codec
      request_frame (codes "c")

abbrev hex_agent : AgentRecord
hex_agent = record (agent (codes "a") 3 100) {
  public_key_hex = encode_hex (1 ∷ 255 ∷ []);
  signature_hex = encode_hex (2 ∷ []);
}

from_proto-to_proto_example :
    from_proto 1000 strict.lifecycle (to_proto hex_agent) ≡ record hex_agent { expires_at = 31000 }
from_proto-to_proto_example =
    from_proto-to_proto 1000 strict.lifecycle hex_agent (1 ∷ 255 ∷ []) (2 ∷ []) (ground arith)
      (ground arith) refl refl (tt, tt)
