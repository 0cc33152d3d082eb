-- ===== src/Merge/Convergence.antt =====
-- Records of src/beacon/agent_registry.cpp that arrive in different orders.
use beacon_node.Base.{◌≡◌, ◌≢◌, ◌⊎◌, Option, none, some, arith, ltb}
use beacon_node.Base.Text.{Bytes, str_eq_iff, str_eq_self}
use beacon_node.Types.{AgentRecord}
use beacon_node.Registry.{AgentRegistry, upsert, find, refuses}
use beacon_node.Registry.Refinement.{merged, find-upsert}

-- Records of one agent under one key never refuse one another for the key.
refuses_same_key :
    (e r : AgentRecord)
    → e.public_key_hex ≡ r.public_key_hex
    → refuses e r ≡ ltb r.revision e.revision
unfolding refuses
refuses_same_key e r h =
    ground (arith, str_eq_iff e.public_key_hex r.public_key_hex, str_eq_self r.public_key_hex)

-- The record that stands under the key has the given public key.
abbrev pub HasKey : Option AgentRecord → Bytes → Type 0
HasKey none k = Unit
HasKey (some e) k = e.public_key_hex ≡ k

merged_comm :
    (o : Option AgentRecord) (a b : AgentRecord)
    → a.revision ≢ b.revision
    → a.public_key_hex ≡ b.public_key_hex
    → HasKey o a.public_key_hex
    → merged (merged o a) b ≡ merged (merged o b) a
merged_comm none a b ne same h = ground (arith, refuses_same_key a b, refuses_same_key b a)
merged_comm (some e) a b ne same h =
    ground (
      arith,
      refuses_same_key a b,
      refuses_same_key b a,
      refuses_same_key e a,
      refuses_same_key e b,
    )

-- Two records may be upserted in either order if they are of different agents, or of one agent with
-- different revisions under one public key, which is also the key of the record that stands there: every
-- key is then bound to the same record.
pub upsert_comm :
    (g : AgentRegistry) (a b : AgentRecord) (k : Bytes)
    → (a.agent_id ≢ b.agent_id)
      ⊎ ((a.revision ≢ b.revision)
          × (a.public_key_hex ≡ b.public_key_hex)
          × HasKey (find g a.agent_id) a.public_key_hex)
    → find (upsert (upsert g a).registry b).registry k
      ≡ find (upsert (upsert g b).registry a).registry k
upsert_comm g a b k h = ground (
  arith,
  find-upsert g a k,
  find-upsert g b k,
  find-upsert g a b.agent_id,
  find-upsert g b a.agent_id,
  find-upsert (upsert g a).registry b k,
  find-upsert (upsert g b).registry a k,
  str_eq_iff a.agent_id b.agent_id,
  str_eq_iff b.agent_id a.agent_id,
  str_eq_iff a.agent_id k,
  str_eq_iff b.agent_id k,
  merged_comm (find g a.agent_id) a b,
)

-- Of two records of one agent with one revision and one public key the later one stands, so that two
-- nodes that receive them in different orders keep different records.
pub upsert_tie :
    (g : AgentRegistry) (a b : AgentRecord)
    → a.agent_id ≡ b.agent_id
    → a.revision ≡ b.revision
    → a.public_key_hex ≡ b.public_key_hex
    → find g a.agent_id ≡ none
    → (find (upsert (upsert g a).registry b).registry a.agent_id ≡ some b)
      × (find (upsert (upsert g b).registry a).registry a.agent_id ≡ some a)
upsert_tie g a b same rev key new = ground (
  arith,
  find-upsert g a a.agent_id,
  find-upsert g b a.agent_id,
  find-upsert g a b.agent_id,
  find-upsert g b b.agent_id,
  find-upsert (upsert g a).registry b a.agent_id,
  find-upsert (upsert g b).registry a a.agent_id,
  str_eq_self a.agent_id,
  str_eq_iff a.agent_id b.agent_id,
  refuses_same_key a b,
  refuses_same_key b a,
)
