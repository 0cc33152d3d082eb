-- ===== src/Sync/Lines.antt =====
-- The commands of src/beacon/registry_sync.cpp as src/beacon/control_protocol.cpp parses them.
use beacon_node.Base.{◌+◌, [], ◌∷◌, ◌++◌, ◌≡◌, refl, arith, ◌∙◌, ap}
use beacon_node.Base.Text.{Bytes, codes, str_eq}
use beacon_node.Config.{LifecycleConfig}
use beacon_node.Types.{AgentRecord, TimePoint}
use beacon_node.Tokens.{split_tokens}
use beacon_node.Tokens.Joined.{spaced, IsToken, split_tokens-spaced}
use beacon_node.Control.{encode_agent_line, agent_fields}
use beacon_node.Control.Command.{
  ControlAction, ControlCommand, new_command, start_command, check_required, parse_tokens,
  parse_command,
}
use beacon_node.Control.Fields.{agent_tokens, agent_fields-spaced, agent_tokens-IsToken, FitsLine}
use beacon_node.Control.RoundTrip.{apply_tokens-agent_tokens}
use beacon_node.Sync.{pop_newline, encode_merge_command}

pop_newline-append : (s : Bytes) → pop_newline (s ++ b'\n' ∷ []) ≡ s
unfolding pop_newline
pop_newline-append [] = refl
pop_newline-append (c ∷ []) = refl
pop_newline-append (c ∷ d ∷ s) = ap (λ t. c ∷ t) (pop_newline-append (d ∷ s))

pub encode_merge_command-spaced :
    (r : AgentRecord) → encode_merge_command r ≡ codes "MERGE" ++ spaced (agent_tokens r)
unfolding encode_merge_command encode_agent_line
encode_merge_command-spaced r =
    pop_newline-append (codes "MERGE" ++ agent_fields r)
    ∙ ap (λ s. codes "MERGE" ++ s) (agent_fields-spaced r)

-- The command that a record makes for the node that receives it.
abbrev pub merge_of : TimePoint → LifecycleConfig → AgentRecord → ControlCommand
merge_of now lifecycle r = record (new_command now) {
  action = ControlAction.merge;
  registration = record r { expires_at = now + lifecycle.heartbeat_ttl };
  agent_id = r.agent_id;
}

parse_tokens-agent_tokens :
    (now : TimePoint) (lifecycle : LifecycleConfig) (r : AgentRecord)
    → FitsLine r
    → parse_tokens now lifecycle (codes "MERGE" ∷ agent_tokens r) ≡ merge_of now lifecycle r
unfolding parse_tokens start_command check_required str_eq
parse_tokens-agent_tokens now lifecycle r f = ground (
  arith,
  apply_tokens-agent_tokens now (now + lifecycle.heartbeat_ttl) ControlAction.merge r f,
  f.agent_id.1,
  f.node_id.1,
  f.endpoint.1,
)

-- A record that fits a line is parsed from its MERGE command with every field, and with the expiry that
-- the receiving node gives it.
pub parse_command-encode_merge_command :
    (now : TimePoint) (lifecycle : LifecycleConfig) (r : AgentRecord)
    → FitsLine r
    → parse_command now lifecycle (encode_merge_command r) ≡ merge_of now lifecycle r
unfolding parse_command
parse_command-encode_merge_command now lifecycle r f =
    ap (λ s. parse_tokens now lifecycle (split_tokens s)) (encode_merge_command-spaced r)
    ∙ ap (parse_tokens now lifecycle) (
        split_tokens-spaced (codes "MERGE") (agent_tokens r) merge_token (agent_tokens-IsToken r f))
    ∙ parse_tokens-agent_tokens now lifecycle r f
  where
    merge_token : IsToken (codes "MERGE")
    merge_token = ((refl, (refl, (refl, (refl, (refl, tt))))), refl)
