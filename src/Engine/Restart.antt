-- ===== src/Engine/Restart.antt =====
-- What the callback of src/beacon_engine/main.cpp writes to the log, and what a start makes of it.
use beacon_node.Base.{ℕ, List, Bool, true, Option, none, some, if◌then◌else◌, is_empty, map, length}
use beacon_node.Base.Text.{Bytes, codes}
use beacon_node.Types.{AgentRecord, RegistryStats, TimePoint, new_record}
use beacon_node.Config.{GossipConfig}
use beacon_node.Crypto.{encode_hex, decode_hex}
use beacon_node.Registry.{
  AgentRegistry, new_registry, load_from_persistence, set_upsert_callback, purge_expired, stats,
  list,
}
use beacon_node.Identity.{IdentityService, trusted_agents}
use beacon_node.Reputation.{ReputationEngine, accepts_peer}
use beacon_node.Gossip.{select_push_entries}
use beacon_node.Control.{Env, ControlProtocol, HandleResult, handle_line}
use beacon_node.Persistence.{RegistryEntry, Codec, PersistenceService}
use beacon_node.Persistence.Recovery.{recovered, recover}

-- The entry that the callback fills in. It has no place for the metadata.
unfoldable pub entry_of : AgentRecord → RegistryEntry
entry_of r = record {
  agent_id = r.agent_id;
  capability = r.node_id;
  endpoint = r.endpoint;
  timestamp = r.revision;
  public_key = decode_hex r.public_key_hex;
  signature = decode_hex r.signature_hex;
}

-- One round of the loop over the recovered entries, at the time `now`.
unfoldable pub record_of : TimePoint → RegistryEntry → AgentRecord
record_of now entry = record (new_record now) {
  agent_id = entry.agent_id;
  node_id = entry.capability;
  endpoint = entry.endpoint;
  revision = entry.timestamp;
  public_key_hex = encode_hex entry.public_key;
  signature_hex = encode_hex entry.signature;
}

-- The registry before the callback is set.
unfoldable pub restore : TimePoint → List RegistryEntry → AgentRegistry
unfolding record_of
restore now entries =
    if is_empty entries
    then new_registry
    else load_from_persistence now new_registry (map (record_of now) entries)

-- The registry that the main loop starts with; none where `recover` throws.
unfoldable pub start_registry : Codec → TimePoint → PersistenceService → Option AgentRegistry
unfolding restore
start_registry codec now p = elim (recover codec p) [
  | recovered entries ↦ some (set_upsert_callback (restore now entries) true)
  | _ ↦ none
]

-- What a tick prints.
pub record Tick : Type 0 where
  pub purged : ℕ
  pub registry_stats : RegistryStats
  pub push_entries : ℕ
  pub stats_line : Bytes
  pub accepts_self : Bool
  pub trusted : ℕ

-- A round of the main loop.
unfoldable pub tick :
    Env
    → ControlProtocol
    → GossipConfig
    → ReputationEngine
    → Bytes
    → AgentRegistry
    → IdentityService
    → AgentRegistry × Tick
tick env p gossip reputation node_id g identity =
    let (kept, purged) = purge_expired g env.now in
    let handled = handle_line env p kept (some identity) (codes "STATS") in
    (
      HandleResult.registry handled,
      record {
        purged = purged;
        registry_stats = stats kept;
        push_entries = length (select_push_entries env.sorter gossip (list kept));
        stats_line = HandleResult.response handled;
        accepts_self = accepts_peer reputation node_id;
        trusted = trusted_agents identity;
      },
    )
