-- ===== src/Examples/Restarts.antt =====
-- The first tick of a node that starts again, at two logs.
use beacon_node.Base.{
  ℕ, ◌+◌, ◌≤◌, List, [], ◌∷◌, ◌≡◌, refl, inl, inr, Option, none, some, arith, find_if, filter, map,
  length, All,
}
use beacon_node.Base.Text.{Bytes, codes, str_eq}
use beacon_node.Config.{default_config}
use beacon_node.Types.{AgentRecord}
use beacon_node.Identity.{new_identity_service}
use beacon_node.Registry.{AgentRegistry, has_id, find, one_year}
use beacon_node.Reputation.{ReputationEngine, new_engine}
use beacon_node.Engine.Restart.{entry_of, record_of, start_registry, tick}
use beacon_node.Persistence.{Codec, RegistryEntry}
use beacon_node.Persistence.Wal.{IsSaved}
use beacon_node.Node.Replay.{log_of}
use beacon_node.Node.FirstTick.{tick-start_registry_forgets, tick-start_registry_returns}
use beacon_node.Examples.Data.{agent}
use beacon_node.Examples.Control.{env, strict}

-- An entry is written as its revision and its agent id.
abbrev parse_short : Bytes → Option RegistryEntry
parse_short [] = none
parse_short (t ∷ agent_id) = some (entry_of (agent agent_id t 0))

abbrev pub short : Codec
short = record {
  serialize = λ (e : RegistryEntry). some (RegistryEntry.timestamp e ∷ RegistryEntry.agent_id e);
  parse = parse_short;
}

-- An agent that registered three times, first with revision 0, and one that registered once.
abbrev log_of_two : List AgentRecord
log_of_two =
    agent (codes "a") 0 50
    ∷ agent (codes "a") 3 100
    ∷ agent (codes "b") 5 200
    ∷ agent (codes "a") 4 300
    ∷ []

abbrev short_saved :
    (agent_id : Bytes) (t : ℕ) → length agent_id ≤ 1 → IsSaved short (entry_of (agent agent_id t 0))
unfolding entry_of
short_saved agent_id t le = record {
  serialized = t ∷ agent_id;
  serialize_some = refl;
  parse_some = refl;
  serialized_le = omega (arith, le);
}

log_of_two_saved : All (IsSaved short) (map entry_of log_of_two)
unfolding entry_of
log_of_two_saved = (
  short_saved (codes "a") 0 (omega arith),
  (
    short_saved (codes "a") 3 (omega arith),
    (short_saved (codes "b") 5 (omega arith), (short_saved (codes "a") 4 (omega arith), tt)),
  ),
)

abbrev reputation : ReputationEngine
reputation = new_engine default_config.trust

tick-start_registry_forgets_example :
    (g : AgentRegistry) × (start_registry short 500 (log_of short log_of_two) ≡ some g)
    × (find
          (tick env strict default_config.gossip reputation (codes "n1") g new_identity_service).0
          (codes "a")
        ≡ none)
unfolding find_if has_id str_eq filter
tick-start_registry_forgets_example =
    tick-start_registry_forgets short env strict default_config.gossip reputation (codes "n1")
      new_identity_service 500 log_of_two log_of_two_saved (codes "a") (agent (codes "a") 3 100)
      (agent (codes "a") 4 300) (omega arith) refl (inr (inr (inr (inl refl)))) refl (omega arith)

tick-start_registry_returns_example :
    (g : AgentRegistry) × (start_registry short 500 (log_of short log_of_two) ≡ some g)
    × (find
          (tick env strict default_config.gossip reputation (codes "n1") g new_identity_service).0
          (codes "b")
        ≡ some (record (record_of 500 (entry_of (agent (codes "b") 5 200))) {
          expires_at = 500 + one_year;
        }))
unfolding find_if has_id str_eq filter
tick-start_registry_returns_example =
    tick-start_registry_returns short env strict default_config.gossip reputation (codes "n1")
      new_identity_service 500 log_of_two log_of_two_saved (codes "b") (agent (codes "b") 5 200)
      (omega arith) refl (inl refl, (inl refl, (inr (omega arith), (inl refl, tt))))
