-- ===== src/Node/Ticks.antt =====
-- The rounds of the main loop of src/beacon_engine/main.cpp as runs of steps.
use beacon_node.Base.{◌≡◌, refl, some}
use beacon_node.Base.Text.{Bytes, codes, str_eq}
use beacon_node.Config.{GossipConfig}
use beacon_node.Tokens.{split_tokens, scan_tokens}
use beacon_node.Identity.{IdentityService}
use beacon_node.Reputation.{ReputationEngine}
use beacon_node.Registry.{AgentRegistry, purge_expired}
use beacon_node.Control.{Env, ControlProtocol, handle_line, perform}
use beacon_node.Control.Command.{
  parse_command, parse_tokens, start_command, check_required, apply_tokens,
}
use beacon_node.Engine.Restart.{tick}
use beacon_node.Node.{Node, Reach, here, next, expire}

pub stats_line :
    (env : Env) (p : ControlProtocol) (g : AgentRegistry) (identity : IdentityService)
    → (handle_line env p g (some identity) (codes "STATS")).registry ≡ g
unfolding handle_line parse_command parse_tokens start_command check_required apply_tokens
    split_tokens scan_tokens perform str_eq
stats_line env p g identity = refl

-- What a tick does to a node is a step: the purge of the records that have expired.
pub tick-Reach :
    (env : Env) (p : ControlProtocol) (gossip : GossipConfig) (reputation : ReputationEngine)
    (node_id : Bytes) (n : Node)
    → Reach env.fresh env.sodium n
        (record n { registry = (tick env p gossip reputation node_id n.registry n.identity).0 })
unfolding tick
tick-Reach env p gossip reputation node_id n =
    rw (stats_line env p (purge_expired n.registry env.now).0 n.identity)
      (next here (expire env.now))
