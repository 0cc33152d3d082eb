-- ===== src/Control/Command.antt =====
-- `ControlProtocol::parse_command` of src/beacon/control_protocol.cpp.
use beacon_node.Base.{
  ℕ, ◌+◌, List, [], ◌∷◌, Bool, true, false, not, ◌&&◌, ◌||◌, none, some, if◌then◌else◌, is_empty,
  drop,
}
use beacon_node.Base.Text.{Bytes, codes, str_eq}
use beacon_node.Metadata
use beacon_node.Config.{LifecycleConfig}
use beacon_node.Types.{AgentRecord, TimePoint, new_record}
use beacon_node.Numbers.{Parsed, parse_number, u64_bound}
use beacon_node.Tokens.{split_tokens, after_equals, before_equals, get_value, starts_with}

pub data ControlAction : Type 0 where
  register heartbeat list stats merge sync_pull unknown : ControlAction

pub record ControlCommand : Type 0 where
  pub action : ControlAction
  pub registration : AgentRecord
  pub agent_id : Bytes
  pub error : Bytes
  pub after_revision : ℕ
  pub limit : ℕ

abbrev pub new_command : TimePoint → ControlCommand
new_command now = record {
  action = ControlAction.unknown;
  registration = new_record now;
  agent_id = [];
  error = [];
  after_revision = 0;
  limit = 256;
}

-- The action that the first token names, with the expiry of a registration.
abbrev pub with_expiry : TimePoint → ControlCommand → ControlAction → ControlCommand
with_expiry expires_at command action =
    let r = ControlCommand.registration command in
    record command { action = action; registration = record r { expires_at = expires_at } }

unfoldable pub start_command : TimePoint → LifecycleConfig → Bytes → ControlCommand
start_command now lifecycle verb =
    let command = new_command now in
    if str_eq verb (codes "REGISTER")
    then with_expiry (now + lifecycle.heartbeat_ttl) command ControlAction.register
    else if str_eq verb (codes "MERGE")
    then with_expiry (now + lifecycle.heartbeat_ttl) command ControlAction.merge
    else if str_eq verb (codes "HEARTBEAT")
    then record command { action = ControlAction.heartbeat }
    else if str_eq verb (codes "LIST")
    then record command { action = ControlAction.list }
    else if str_eq verb (codes "STATS")
    then record command { action = ControlAction.stats }
    else if str_eq verb (codes "SYNC_PULL")
    then record command { action = ControlAction.sync_pull }
    else record command { error = codes "unknown command" }

-- `registration.metadata[token.substr(9, equals - 9)] = token.substr(equals + 1)`, where the token holds
-- a '='.
unfoldable pub add_metadata : Bytes → AgentRecord → AgentRecord
add_metadata token r = elim (after_equals token) [
  | none ↦ r
  | some value ↦ record r {
    metadata = Metadata.set (drop 9 (before_equals token)) value r.metadata;
  }
]

-- A field that holds a number: the command with the number, or with the error.
abbrev pub number_field : Bytes → Bytes → ControlCommand → (ℕ → ControlCommand) → ControlCommand
number_field message token command store =
    let parsed = parse_number u64_bound 0 (get_value token) in
    if Parsed.succeeded parsed
    then store (Parsed.variable parsed)
    else record command { error = message }

-- One round of the loop over the tokens.
unfoldable pub apply_token : ControlCommand → Bytes → ControlCommand
unfolding add_metadata
apply_token command token =
    let r = ControlCommand.registration command in
    if starts_with token (codes "agent_id=")
    then record command {
      agent_id = get_value token;
      registration = record r { agent_id = get_value token };
    }
    else if starts_with token (codes "node_id=")
    then record command { registration = record r { node_id = get_value token } }
    else if starts_with token (codes "endpoint=")
    then record command { registration = record r { endpoint = get_value token } }
    else if starts_with token (codes "revision=")
    then number_field (codes "invalid revision") token command
        (λ n. record command { registration = record r { revision = n } })
    else if starts_with token (codes "after_revision=")
    then number_field (codes "invalid after_revision") token command
        (λ n. record command { after_revision = n })
    else if starts_with token (codes "limit=")
    then number_field (codes "invalid limit") token command (λ n. record command { limit = n })
    else if starts_with token (codes "public_key=")
    then record command { registration = record r { public_key_hex = get_value token } }
    else if starts_with token (codes "signature=")
    then record command { registration = record r { signature_hex = get_value token } }
    else if starts_with token (codes "metadata.")
    then record command { registration = add_metadata token r }
    else command

-- The loop, which an error ends.
unfoldable pub apply_tokens : ControlCommand → List Bytes → ControlCommand
apply_tokens command [] = command
apply_tokens command (token ∷ tokens) =
    let next = apply_token command token in
    let rest = apply_tokens next tokens in
    if is_empty (ControlCommand.error next) then rest else next

abbrev pub is_submission : ControlAction → Bool
is_submission ControlAction.register = true
is_submission ControlAction.merge = true
is_submission _ = false

abbrev pub names_agent : ControlAction → Bool
names_agent ControlAction.heartbeat = true
names_agent action = is_submission action

-- The tests behind the loop.
unfoldable pub check_required : ControlCommand → ControlCommand
check_required command =
    if names_agent command.action && is_empty command.agent_id
    then record command { error = codes "agent_id is required" }
    else if is_submission command.action
        && (is_empty command.registration.node_id || is_empty command.registration.endpoint)
    then record command { error = codes "node_id and endpoint are required" }
    else command

unfoldable pub parse_tokens : TimePoint → LifecycleConfig → List Bytes → ControlCommand
unfolding start_command check_required
parse_tokens now lifecycle [] = record (new_command now) { error = codes "empty command" }
parse_tokens now lifecycle (verb ∷ tokens) =
    let first = start_command now lifecycle verb in
    if not (is_empty (ControlCommand.error first))
    then first
    else let last = apply_tokens first tokens in
      if not (is_empty (ControlCommand.error last)) then last else check_required last

unfoldable pub parse_command : TimePoint → LifecycleConfig → Bytes → ControlCommand
unfolding parse_tokens
parse_command now lifecycle line = parse_tokens now lifecycle (split_tokens line)
