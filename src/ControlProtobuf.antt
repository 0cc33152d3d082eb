-- ===== src/ControlProtobuf.antt =====
-- src/beacon/control_protobuf.hpp and control_protobuf.cpp: the framed protocol of the control port.
--
-- The code that protobuf generates is a parameter (`ControlCodec`) over the messages of
-- proto/beaconnode/v1/registry.proto; of those only the fields that the program reads or writes are kept.
-- This file has the messages and their conversion; ControlProtobuf/Requests has the handlers.
pub mod Requests
pub mod Cases
pub mod Dispatch
pub mod Fields
use beacon_node.Base.{
  ℕ, ◌+◌, List, [], ◌∷◌, ◌++◌, Bool, true, false, not, ◌||◌, Option, none, some, if◌then◌else◌,
  is_empty, map, ◌==◌,
}
use beacon_node.Base.Text.{Bytes, codes}
use beacon_node.Metadata
use beacon_node.Metadata.{Metadata}
use beacon_node.Config.{LifecycleConfig, TrustConfig}
use beacon_node.Types.{AgentRecord, RegistryStats, TimePoint, new_record}
use beacon_node.Numbers.{to_string}
use beacon_node.Crypto.{encode_hex, decode_hex, verify_agent_signature}
use beacon_node.Framing.{Frame, encode_frame, decode_frame, control_request, control_response}
use beacon_node.Identity.{IdentityService, verify_and_register}
use beacon_node.Registry.{
  AgentRegistry, UpsertResult, upsert, refresh_heartbeat, list, entries_after_revision, stats,
}
use beacon_node.Control.{Env, ControlProtocol, HandleResult, answer, signature_error}

pub record AgentRegistration : Type 0 where
  pub agent_id : Bytes
  pub node_id : Bytes
  pub endpoint : Bytes
  pub metadata : List (Bytes × Bytes)
  pub revision : ℕ
  pub public_key : Bytes
  pub signature : Bytes

-- The body of a request; `no_body` is a request with none of them.
pub data ControlRequest : Type 0 where
  register_agent : AgentRegistration → ControlRequest
  sync_merge : AgentRegistration → ControlRequest
  heartbeat : Bytes → ℕ → ControlRequest
  list_agents : ControlRequest
  sync_pull : ℕ → ℕ → ControlRequest
  stats_request : ControlRequest
  no_body : ControlRequest

-- `agents` are those of the snapshot.
pub record ControlResponse : Type 0 where
  pub ok : Bool
  pub message : Bytes
  pub agents : List AgentRegistration

-- `ParseFromArray` and `SerializeToString`
pub record ControlCodec : Type 0 where
  pub parse : Bytes → Option ControlRequest
  pub serialize : ControlResponse → Option Bytes

-- `record.metadata[key] = value` for each entry
unfoldable pub add_entries : Metadata → List (Bytes × Bytes) → Metadata
add_entries m [] = m
add_entries m ((key, value) ∷ entries) = add_entries (Metadata.set key value m) entries

unfoldable pub from_proto : TimePoint → LifecycleConfig → AgentRegistration → AgentRecord
unfolding add_entries
from_proto now lifecycle proto = record {
  agent_id = proto.agent_id;
  node_id = proto.node_id;
  endpoint = proto.endpoint;
  metadata = add_entries [] proto.metadata;
  revision = proto.revision;
  expires_at = now + lifecycle.heartbeat_ttl;
  public_key_hex = encode_hex proto.public_key;
  signature_hex = encode_hex proto.signature;
}

unfoldable pub to_proto : AgentRecord → AgentRegistration
to_proto r = record {
  agent_id = r.agent_id;
  node_id = r.node_id;
  endpoint = r.endpoint;
  metadata = r.metadata;
  revision = r.revision;
  public_key = decode_hex r.public_key_hex;
  signature = decode_hex r.signature_hex;
}

abbrev pub set_status : Bool → Bytes → ControlResponse
set_status ok message = record { ok = ok; message = message; agents = [] }
