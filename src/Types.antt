-- ===== src/Types.antt =====
-- src/beacon/types.hpp: the agent record and the registry's statistics.
-- A `TimePoint` is a number of milliseconds since the clock's epoch. `metadata` is the sequence of
-- entries of the `std::map`, in the order of its keys (Metadata).
use beacon_node.Base.{ℕ, []}
use beacon_node.Base.Text.{Bytes}
use beacon_node.Metadata.{Metadata}

abbrev pub TimePoint : Type 0
TimePoint = ℕ

pub record AgentRecord : Type 0 where
  pub agent_id : Bytes
  pub node_id : Bytes
  pub endpoint : Bytes
  pub metadata : Metadata
  pub revision : ℕ
  pub expires_at : TimePoint
  pub public_key_hex : Bytes
  pub signature_hex : Bytes

-- `AgentRecord record;` at the time `now`
abbrev pub new_record : TimePoint → AgentRecord
new_record now = record {
  agent_id = [];
  node_id = [];
  endpoint = [];
  metadata = [];
  revision = 0;
  expires_at = now;
  public_key_hex = [];
  signature_hex = [];
}

pub record RegistryStats : Type 0 where
  pub active_agents : ℕ
  pub highest_revision : ℕ
