-- ===== src/Control.antt =====
-- src/beacon/control_protocol.hpp and control_protocol.cpp: the line protocol of the control port.
--
-- A call takes the registry and the identity service (a pointer that may be null) and returns them with
-- the response and the records handed to the registry's callback. What a call takes from outside the
-- program stands in `Env`: the memory of the allocator, libsodium, the sort, and the clock, whose reading
-- does not change during a call.
pub mod Command
pub mod Safety
pub mod Trust
pub mod Heartbeats
pub mod Fields
pub mod RoundTrip
use beacon_node.Base.{
  ℕ, ◌+◌, List, [], ◌∷◌, ◌++◌, Bool, true, false, not, ◌&&◌, ◌||◌, Option, none, some,
  if◌then◌else◌, is_empty,
}
use beacon_node.Base.Text.{Bytes, codes, str_eq}
use beacon_node.Metadata.{Metadata}
use beacon_node.Config.{LifecycleConfig, TrustConfig}
use beacon_node.Types.{AgentRecord, RegistryStats, TimePoint}
use beacon_node.Numbers.{to_string}
use beacon_node.Sorting.{Sorter}
use beacon_node.Crypto.{
  Sodium, SignatureStatus, valid, missing, invalid, unsupported, verify_agent_signature,
  signature_status_message,
}
use beacon_node.SecureBuffer.{Allocator}
use beacon_node.Identity.{IdentityService, is_valid, verify_and_register}
use beacon_node.Registry.{
  AgentRegistry, UpsertResult, upsert, refresh_heartbeat, list, entries_after_revision, stats,
}
use Command.{ControlAction, ControlCommand, parse_command}

pub record ControlProtocol : Type 0 where
  pub lifecycle : LifecycleConfig
  pub trust : TrustConfig

pub record Env : Type 0 where
  pub fresh : Allocator
  pub sodium : Option Sodium
  pub sorter : Sorter
  pub now : TimePoint

pub record HandleResult : Type 0 where
  pub registry : AgentRegistry
  pub identity : Option IdentityService
  pub response : Bytes
  pub notified : List AgentRecord

-- A response that changes nothing.
abbrev pub answer : AgentRegistry → Option IdentityService → Bytes → HandleResult
answer g identity response = record {
  registry = g;
  identity = identity;
  response = response;
  notified = [];
}

unfoldable pub register_identity :
    Env → Option IdentityService → AgentRecord → Option IdentityService
register_identity env none r = none
register_identity env (some s) r =
    if is_empty r.public_key_hex
    then some s
    else some (verify_and_register env.fresh env.sodium s r).0

abbrev pub is_invalid : SignatureStatus → Bool
is_invalid invalid = true
is_invalid valid = false
is_invalid missing = false
is_invalid unsupported = false

-- The message of the two early returns on a signature that the trust settings do not admit.
unfoldable pub signature_error : TrustConfig → SignatureStatus → Option Bytes
signature_error trust status =
    if trust.require_signatures && not (is_valid status)
    then some (signature_status_message status)
    else if not trust.require_signatures && is_invalid status
    then some (codes "invalid_signature")
    else none

-- The branches of REGISTER and MERGE, which differ in the message of success.
unfoldable pub submit :
    Env → TrustConfig → AgentRegistry → Option IdentityService → AgentRecord → Bytes → HandleResult
submit env trust g identity r message =
    elim (signature_error trust (verify_agent_signature env.sodium r)) [
      | some e ↦ answer g identity (codes "ERR message=" ++ (e ++ codes "\n"))
      | none ↦
          let done = upsert g r in
          if UpsertResult.accepted done
          then record {
            registry = UpsertResult.registry done;
            identity = register_identity env identity r;
            response = codes "OK message=" ++ (message ++ codes "\n");
            notified = UpsertResult.notified done;
          }
          else record {
            registry = UpsertResult.registry done;
            identity = identity;
            response = codes "ERR message=stale_revision\n";
            notified = UpsertResult.notified done;
          }
    ]

-- `line += " metadata." + key + "=" + value` for each entry
unfoldable pub metadata_fields : Metadata → Bytes
metadata_fields [] = []
metadata_fields ((key, value) ∷ m) =
    codes " metadata." ++ (key ++ (codes "=" ++ (value ++ metadata_fields m)))

-- `if (!value.empty()) line += name + value`
abbrev pub optional_field : Bytes → Bytes → Bytes
optional_field name [] = []
optional_field name (c ∷ value) = name ++ (c ∷ value)

-- What `encode_agent_line` writes behind "AGENT", without the line feed.
unfoldable pub agent_fields : AgentRecord → Bytes
unfolding metadata_fields
agent_fields r =
    codes " agent_id="
    ++ (r.agent_id
        ++ (codes " node_id="
            ++ (r.node_id
                ++ (codes " endpoint="
                    ++ (r.endpoint
                        ++ (codes " revision="
                            ++ (to_string r.revision
                                ++ (optional_field (codes " public_key=") r.public_key_hex
                                    ++ (optional_field (codes " signature=") r.signature_hex
                                        ++ metadata_fields r.metadata)))))))))

unfoldable pub encode_agent_line : AgentRecord → Bytes
unfolding agent_fields
encode_agent_line r = codes "AGENT" ++ (agent_fields r ++ codes "\n")

unfoldable pub agent_lines : List AgentRecord → Bytes
unfolding encode_agent_line
agent_lines [] = []
agent_lines (r ∷ rs) = encode_agent_line r ++ agent_lines rs

unfoldable pub stats_response : RegistryStats → Bytes
stats_response s =
    codes "OK active_agents="
    ++ (to_string s.active_agents
        ++ (codes " highest_revision=" ++ (to_string s.highest_revision ++ codes "\n")))

abbrev pub list_response : Bytes → List AgentRecord → Bytes
list_response first rs = first ++ (agent_lines rs ++ codes "END\n")

unfoldable pub handle_heartbeat :
    Env → LifecycleConfig → AgentRegistry → Option IdentityService → ControlCommand → HandleResult
handle_heartbeat env lifecycle g identity command =
    let done =
      refresh_heartbeat g command.agent_id (env.now + lifecycle.heartbeat_ttl)
        command.registration.revision in
    answer done.0 identity (
      if done.1
      then codes "OK message=heartbeat\n"
      else codes "ERR message=unknown_or_stale_agent\n")

-- The branches of `handle_line` behind the test on `command.error`.
unfoldable pub perform :
    Env
    → ControlProtocol
    → AgentRegistry
    → Option IdentityService
    → ControlAction
    → ControlCommand
    → HandleResult
unfolding submit handle_heartbeat
perform env p g identity ControlAction.register command =
    submit env p.trust g identity command.registration (codes "registered")
perform env p g identity ControlAction.merge command =
    submit env p.trust g identity command.registration (codes "merged")
perform env p g identity ControlAction.heartbeat command =
    handle_heartbeat env p.lifecycle g identity command
perform env p g identity ControlAction.stats command = answer g identity (stats_response (stats g))
perform env p g identity ControlAction.list command =
    answer g identity (list_response (codes "OK message=list\n") (list g))
perform env p g identity ControlAction.sync_pull command = answer g identity (
    list_response (codes "OK message=sync_pull\n")
      (entries_after_revision env.sorter g command.after_revision command.limit))
perform env p g identity ControlAction.unknown command =
    answer g identity (codes "ERR message=unhandled_command\n")

unfoldable pub handle_line :
    Env → ControlProtocol → AgentRegistry → Option IdentityService → Bytes → HandleResult
unfolding perform
handle_line env p g identity line =
    let command = parse_command env.now p.lifecycle line in
    if not (is_empty (ControlCommand.error command))
    then answer g identity (codes "ERR message=" ++ (ControlCommand.error command ++ codes "\n"))
    else perform env p g identity (ControlCommand.action command) command
