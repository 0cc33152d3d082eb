-- ===== src/Examples/Control.antt =====
-- Lines on the control port of a node with two agents.
use beacon_node.Base.{List, ◌∷◌, false, [], ◌≡◌, true, refl, none, some, find_if, arith}
use beacon_node.Base.Text.{Bytes, codes, str_eq}
use beacon_node.Config.{default_config}
use beacon_node.Registry.{has_id, upsert, find}
use beacon_node.Merge.Invariant.{Advances}
use beacon_node.Control.{Env, ControlProtocol, handle_line}
use beacon_node.Control.Command.{parse_command, apply_tokens, apply_token}
use beacon_node.Tokens.{split_tokens, starts_with, get_value}
use beacon_node.Numbers.{parse_number}
use beacon_node.Control.Fields.{FitsLine}
use beacon_node.Control.Safety.{handle_line-Advances}
use beacon_node.Control.Trust.{IsTrusted, handle_line-IsTrusted}
use beacon_node.Control.Heartbeats.{after_lines, heartbeat_blocks}
use beacon_node.Examples.Data.{agent, signed, two_agents, zeros, first_byte_sodium, no_keys}
use beacon_node.Examples.Sort.{insertion_sorter}

abbrev pub env : Env
env = record {
  fresh = zeros;
  sodium = some first_byte_sodium;
  sorter = insertion_sorter;
  now = 1000;
}

abbrev pub strict : ControlProtocol
strict = record {
  lifecycle = default_config.lifecycle;
  trust = record default_config.trust { require_signatures = true };
}

abbrev line : Bytes
line = codes "REGISTER agent_id=c node_id=n1 endpoint=tcp://h:1 revision=9"

handle_line-Advances_example : Advances (some (agent (codes "b") 5 200)) (
    find
      (handle_line env strict two_agents none (codes "HEARTBEAT agent_id=b revision=7")).registry
      (codes "b"))
unfolding find find_if has_id str_eq
handle_line-Advances_example =
    handle_line-Advances env strict two_agents none (codes "HEARTBEAT agent_id=b revision=7")
      (codes "b")

handle_line-IsTrusted_example :
    IsTrusted env
      (codes "c")
      none
      (find (handle_line env strict two_agents (some no_keys) line).registry (codes "c"))
unfolding find find_if has_id str_eq
handle_line-IsTrusted_example =
    handle_line-IsTrusted env strict two_agents (some no_keys) refl line (codes "c")

-- A heartbeat with a huge revision, and lines that follow it.
abbrev huge : Bytes
huge = codes "HEARTBEAT agent_id=b revision=1000000"

abbrev following : List (Env × Bytes)
following = (env, line) ∷ (env, codes "HEARTBEAT agent_id=b revision=7") ∷ []

heartbeat_blocks_example :
    let h = handle_line env strict two_agents none huge in
    (h.response ≡ codes "OK message=heartbeat\n")
    × (find h.registry (codes "b") ≡ some (agent (codes "b") 1000000 31000))
    × ((upsert
          (after_lines strict h.registry h.identity following)
          (signed (agent (codes "b") 6 0))).accepted
        ≡ false)
unfolding find find_if has_id str_eq parse_command split_tokens apply_tokens apply_token starts_with
    parse_number get_value
heartbeat_blocks_example =
    heartbeat_blocks env strict two_agents none huge (agent (codes "b") 5 200)
      (signed (agent (codes "b") 6 0)) following refl refl refl (omega arith) refl (omega arith)

pub agent_c-FitsLine : FitsLine (signed (agent (codes "c") 9 0))
agent_c-FitsLine = record {
  agent_id = (ground arith, refl);
  node_id = (ground arith, refl);
  endpoint = (ground arith, refl);
  revision = omega arith;
  public_key = ground arith;
  signature = ground arith;
  entries = (ground arith, tt);
  ordered = (tt, tt);
}
