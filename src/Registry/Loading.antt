-- ===== src/Registry/Loading.antt =====
-- Loading recovered records, and the purge that follows it in the engine's loop.
use beacon_node.Base.{
  List, [], ◌∷◌, Option, none, some, ◌≡◌, ◌≤◌, ◌<◌, ◌+◌, refl, arith, if◌then◌else◌, ap, ◌∙◌,
}
use beacon_node.Base.Text.{Bytes, str_eq, str_eq_self, str_eq_iff}
use beacon_node.Types.{AgentRecord, TimePoint}
use beacon_node.Registry.{
  AgentRegistry, find, purge_expired, load_records, load_from_persistence, one_year, load_record,
}
use beacon_node.Registry.Lookup.{lookup}
use beacon_node.Registry.Distinct.{IsValid}
use beacon_node.Registry.Invariant.{load_from_persistence-IsValid}
use beacon_node.Registry.Refinement.{loaded, lookup-load_record, find-purge_expired}

-- The record under a key after all of `rs` are loaded, one after the other.
abbrev pub loaded_all :
    TimePoint → Bytes → Option AgentRecord → List AgentRecord → Option AgentRecord
loaded_all t k o [] = o
loaded_all t k o (r ∷ rs) = loaded_all t k (if str_eq r.agent_id k then loaded t o r else o) rs

lookup-load_records :
    (t : TimePoint) (k : Bytes) (rs xs : List AgentRecord)
    → lookup k (load_records t xs rs) ≡ loaded_all t k (lookup k xs) rs
unfolding load_records
lookup-load_records t k [] xs = refl
lookup-load_records t k (r ∷ rs) xs =
    lookup-load_records t k rs (load_record t xs r)
    ∙ ap (λ o. loaded_all t k o rs)
        (ground (arith, lookup-load_record t xs r k, str_eq_iff r.agent_id k))

-- After a load, every key is bound to what the loaded records of that key make, in their order, of the
-- record that stood there: the first of a new key is taken with an expiry one year ahead, and each
-- later one replaces it exactly if its revision is greater.
pub find-load_from_persistence :
    (now : TimePoint) (g : AgentRegistry) (rs : List AgentRecord) (k : Bytes)
    → find (load_from_persistence now g rs) k ≡ loaded_all (now + one_year) k (find g k) rs
unfolding load_from_persistence find
find-load_from_persistence now g rs k = lookup-load_records (now + one_year) k rs g.records

-- A record whose id is new to the registry survives a purge at any time within a year of the load.
pub loaded_once_survives :
    (now later : TimePoint) (g : AgentRegistry) (r : AgentRecord)
    → IsValid g
    → find g r.agent_id ≡ none
    → later < now + one_year
    → find (purge_expired (load_from_persistence now g (r ∷ [])) later).0 r.agent_id
      ≡ some (record r { expires_at = now + one_year })
loaded_once_survives now later g r v new h = ground (
  arith,
  str_eq_self r.agent_id,
  find-load_from_persistence now g (r ∷ []) r.agent_id,
  find-purge_expired (load_from_persistence now g (r ∷ [])) later r.agent_id
      (load_from_persistence-IsValid now g (r ∷ []) v),
)

-- A loaded record that replaces an older one of its id keeps its own expiry, so that a purge at that
-- time or later removes the agent.
pub loaded_newer_purged :
    (now later : TimePoint) (g : AgentRegistry) (r existing : AgentRecord)
    → IsValid g
    → find g r.agent_id ≡ some existing
    → existing.revision < r.revision
    → r.expires_at ≤ later
    → find (purge_expired (load_from_persistence now g (r ∷ [])) later).0 r.agent_id ≡ none
loaded_newer_purged now later g r e v old newer h = ground (
  arith,
  str_eq_self r.agent_id,
  find-load_from_persistence now g (r ∷ []) r.agent_id,
  find-purge_expired (load_from_persistence now g (r ∷ [])) later r.agent_id
      (load_from_persistence-IsValid now g (r ∷ []) v),
)
