-- ===== src/Registry/Invariant.antt =====
-- The operations of src/beacon/agent_registry.cpp and the invariant of the registry.
use beacon_node.Base.{ℕ, List, [], ◌∷◌, arith, not, leb}
use beacon_node.Base.Text.{Bytes, str_eq_self}
use beacon_node.Types.{AgentRecord, TimePoint}
use beacon_node.Registry.{
  AgentRegistry, upsert, refresh_heartbeat, purge_expired, load_record, load_records,
  load_from_persistence, new_registry,
}
use beacon_node.Registry.Distinct.{
  Distinct, IsValid, Distinct-append_one, Distinct-modify_first, Distinct-filter,
}

pub new_registry-IsValid : IsValid new_registry
new_registry-IsValid = record { distinct = tt }

-- `upsert` keeps the agent ids of the registry distinct, on every branch.
pub upsert-IsValid :
    (g : AgentRegistry) (r : AgentRecord) → IsValid g → IsValid (upsert g r).registry
unfolding upsert
upsert-IsValid g r v = ground (
  arith,
  Distinct-append_one g.records r,
  Distinct-modify_first r.agent_id (λ _. r) g.records (λ x h. str_eq_self r.agent_id),
)

pub refresh_heartbeat-IsValid :
    (g : AgentRegistry) (agent_id : Bytes) (expires_at : TimePoint) (revision : ℕ)
    → IsValid g
    → IsValid (refresh_heartbeat g agent_id expires_at revision).0
unfolding refresh_heartbeat
refresh_heartbeat-IsValid g i e n v = ground (
  arith,
  Distinct-modify_first i (λ (x : AgentRecord). record x { expires_at = e; revision = n }) g.records
      (λ x h. h),
)

pub purge_expired-IsValid :
    (g : AgentRegistry) (now : TimePoint) → IsValid g → IsValid (purge_expired g now).0
unfolding purge_expired
purge_expired-IsValid g now v = record {
  distinct = Distinct-filter (λ (r : AgentRecord). not (leb r.expires_at now)) g.records v.distinct;
}

load_record-Distinct :
    (t : TimePoint) (xs : List AgentRecord) (r : AgentRecord)
    → Distinct xs
    → Distinct (load_record t xs r)
unfolding load_record
load_record-Distinct t xs r d =
    let late = λ (x : AgentRecord). record x { expires_at = t } in
    ground (
      arith,
      Distinct-append_one xs (record r { expires_at = t }),
      Distinct-modify_first r.agent_id late xs (λ x h. h),
      Distinct-modify_first r.agent_id (λ _. r) _ (λ x h. str_eq_self r.agent_id)
          (Distinct-modify_first r.agent_id late xs (λ x h. h) d),
    )

load_records-Distinct :
    (t : TimePoint) (rs xs : List AgentRecord) → Distinct xs → Distinct (load_records t xs rs)
unfolding load_records
load_records-Distinct t [] xs d = d
load_records-Distinct t (r ∷ rs) xs d =
    load_records-Distinct t rs (load_record t xs r) (load_record-Distinct t xs r d)

pub load_from_persistence-IsValid :
    (now : TimePoint) (g : AgentRegistry) (rs : List AgentRecord)
    → IsValid g
    → IsValid (load_from_persistence now g rs)
unfolding load_from_persistence
load_from_persistence-IsValid now g rs v = record {
  distinct = load_records-Distinct _ rs g.records v.distinct;
}
