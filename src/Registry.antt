-- ===== src/Registry.antt =====
-- src/beacon/agent_registry.hpp and agent_registry.cpp: the registry of agent records.
--
-- Every method takes the mutex for its whole access to `records_`, so a method is one step on the
-- state. `on_upsert_` is called after the mutex is released: `upsert` returns the calls it makes, in
-- their order. Each loop over the vector is a recursion on the list.
pub mod Lookup
pub mod Rearranged
pub mod Distinct
pub mod Invariant
pub mod Refinement
pub mod Selection
pub mod Statistics
pub mod Loading
use beacon_node.Base.{
  ℕ, ◌+◌, ◌-◌, ◌*◌, max, List, [], ◌∷◌, ◌++◌, Bool, true, false, not, ◌&&◌, ◌||◌, Option, none,
  some, ltb, leb, if◌then◌else◌, length, take, is_empty, find_if, modify_first, filter,
}
use beacon_node.Base.Text.{Bytes, str_eq}
use beacon_node.Types.{AgentRecord, RegistryStats, TimePoint}
use beacon_node.Sorting.{Sorter}

-- `has_callback` says whether `on_upsert_` holds a function.
pub record AgentRegistry : Type 0 where
  pub records : List AgentRecord
  pub has_callback : Bool

abbrev pub new_registry : AgentRegistry
new_registry = record { records = []; has_callback = false }

-- `candidate.agent_id == agent_id`
unfoldable pub has_id : Bytes → AgentRecord → Bool
has_id agent_id candidate = str_eq candidate.agent_id agent_id

-- The registry after a call, the call's result, and the records handed to `on_upsert_`.
pub record UpsertResult : Type 0 where
  pub registry : AgentRegistry
  pub accepted : Bool
  pub notified : List AgentRecord

-- The two early returns of `upsert`: a stale revision, and another public key.
unfoldable pub refuses : AgentRecord → AgentRecord → Bool
refuses existing r =
    if ltb r.revision existing.revision
    then true
    else not (is_empty existing.public_key_hex)
      && (not (is_empty r.public_key_hex) && not (str_eq existing.public_key_hex r.public_key_hex))

notify : AgentRegistry → AgentRecord → List AgentRecord
notify g r = if g.has_callback then r ∷ [] else []

unfoldable pub upsert : AgentRegistry → AgentRecord → UpsertResult
unfolding notify
upsert g r = elim (find_if (has_id r.agent_id) g.records) [
  | none ↦ record {
    registry = record g { records = g.records ++ r ∷ [] };
    accepted = true;
    notified = notify g r;
  }
  | some existing ↦
      if refuses existing r
      then record { registry = g; accepted = false; notified = [] }
      else record {
        registry = record g { records = modify_first (has_id r.agent_id) (λ _. r) g.records };
        accepted = true;
        notified = notify g r;
      }
]

unfoldable pub refresh_heartbeat : AgentRegistry → Bytes → TimePoint → ℕ → AgentRegistry × Bool
refresh_heartbeat g agent_id expires_at revision = elim (find_if (has_id agent_id) g.records) [
  | none ↦ (g, false)
  | some existing ↦ if ltb revision existing.revision then (g, false) else (
    record g {
      records =
          modify_first (has_id agent_id)
            (λ (x : AgentRecord). record x { expires_at = expires_at; revision = revision })
            g.records;
    },
    true,
  )
]

unfoldable pub find : AgentRegistry → Bytes → Option AgentRecord
find g agent_id = find_if (has_id agent_id) g.records

unfoldable pub list : AgentRegistry → List AgentRecord
list g = g.records

-- `record.revision > revision`, and the comparator of the sort
abbrev pub is_after : ℕ → AgentRecord → Bool
is_after revision r = ltb revision r.revision

abbrev pub older_first : AgentRecord → AgentRecord → Bool
older_first left right = ltb left.revision right.revision

-- `if (limit > 0 && selected.size() > limit) selected.resize(limit);`
unfoldable pub cap_selected : ℕ → List AgentRecord → List AgentRecord
cap_selected limit selected =
    if ltb 0 limit && ltb limit (length selected) then take limit selected else selected

unfoldable pub entries_after_revision : Sorter → AgentRegistry → ℕ → ℕ → List AgentRecord
entries_after_revision s g revision limit =
    cap_selected limit (Sorter.sort s older_first (filter (is_after revision) g.records))

-- The records that `remove_if` keeps are those with `!(record.expires_at <= now)`.
unfoldable pub purge_expired : AgentRegistry → TimePoint → AgentRegistry × ℕ
purge_expired g now =
    let kept = filter (λ (r : AgentRecord). not (leb r.expires_at now)) g.records in
    (record g { records = kept }, length g.records - length kept)

unfoldable pub set_upsert_callback : AgentRegistry → Bool → AgentRegistry
set_upsert_callback g callable = record g { has_callback = callable }

-- One round of the loop of `load_from_persistence`. The write to `existing->expires_at` comes first
-- and `*existing = record` then overwrites the whole record.
unfoldable pub load_record : TimePoint → List AgentRecord → AgentRecord → List AgentRecord
load_record far_future records r = elim (find_if (has_id r.agent_id) records) [
  | none ↦ records ++ record r { expires_at = far_future } ∷ []
  | some existing ↦
      if ltb existing.revision r.revision
      then modify_first (has_id r.agent_id) (λ _. r)
          (modify_first (has_id r.agent_id)
            (λ (x : AgentRecord). record x { expires_at = far_future }) records)
      else records
]

unfoldable pub load_records : TimePoint → List AgentRecord → List AgentRecord → List AgentRecord
load_records far_future records [] = records
load_records far_future records (r ∷ rs) =
    load_records far_future (load_record far_future records r) rs

-- `std::chrono::hours(24 * 365)` in milliseconds
abbrev pub one_year : ℕ
one_year = 24 * 365 * 3600 * 1000

unfoldable pub load_from_persistence : TimePoint → AgentRegistry → List AgentRecord → AgentRegistry
load_from_persistence now g rs = record g { records = load_records (now + one_year) g.records rs }

unfoldable pub highest_revision : ℕ → List AgentRecord → ℕ
highest_revision acc [] = acc
highest_revision acc (r ∷ rs) = highest_revision (max acc r.revision) rs

unfoldable pub stats : AgentRegistry → RegistryStats
stats g = record {
  active_agents = length g.records;
  highest_revision = highest_revision 0 g.records;
}
