-- ===== src/Registry/Refinement.antt =====
-- The registry as a map from agent ids to records: what each operation does to the answer of `find`
-- under every key.
use beacon_node.Base.{
  ℕ, List, [], ◌∷◌, Option, none, some, ◌≡◌, arith, not, leb, ltb, if◌then◌else◌, ◌+◌, length,
  length-filter, modify_first,
}
use beacon_node.Base.Text.{Bytes, str_eq, str_eq_self, str_eq_iff}
use beacon_node.Types.{AgentRecord, TimePoint}
use beacon_node.Registry.{
  AgentRegistry, has_id, refuses, upsert, find, refresh_heartbeat, purge_expired, load_record,
}
use beacon_node.Registry.Lookup.{
  lookup, lookup-append, lookup_one, lookup-modify_first, keep_if, map_option,
}
use beacon_node.Registry.Distinct.{IsValid, lookup-filter}

-- What an upsert makes of the record that stands under the id of `r`.
abbrev pub merged : Option AgentRecord → AgentRecord → Option AgentRecord
merged none r = some r
merged (some existing) r = if refuses existing r then some existing else some r

-- After `upsert g r`, the id of `r` is bound to `r`, unless the record that stood there refuses it and
-- stays; every other id is bound as before.
pub find-upsert :
    (g : AgentRegistry) (r : AgentRecord) (k : Bytes)
    → find (upsert g r).registry k
      ≡ (if str_eq r.agent_id k then merged (find g r.agent_id) r else find g k)
unfolding upsert find
find-upsert g r k = ground (
  arith,
  lookup-append k g.records (r ∷ []),
  lookup_one k r,
  str_eq_iff r.agent_id k,
  lookup-modify_first r.agent_id k (λ _. r) g.records (λ x h. str_eq_self r.agent_id),
)

-- What a heartbeat makes of the record that stands under its id.
abbrev pub refreshed : TimePoint → ℕ → AgentRecord → AgentRecord
refreshed expires_at revision x =
    if ltb revision x.revision then x else record x { expires_at = expires_at; revision = revision }

-- After a heartbeat, the record of its id has the new expiry and revision, unless its revision is greater;
-- every other id is bound as before.
pub find-refresh_heartbeat :
    (g : AgentRegistry) (i : Bytes) (expires_at : TimePoint) (revision : ℕ) (k : Bytes)
    → find (refresh_heartbeat g i expires_at revision).0 k
      ≡ (if str_eq i k then map_option (refreshed expires_at revision) (find g i) else find g k)
unfolding refresh_heartbeat find
find-refresh_heartbeat g i e n k = ground (
  arith,
  str_eq_iff i k,
  lookup-modify_first i k (λ (x : AgentRecord). record x { expires_at = e; revision = n }) g.records
      (λ x h. h),
)

-- In a valid registry, after a purge an id is bound exactly if its record expires later than `now`,
-- and then to the record it was bound to before.
pub find-purge_expired :
    (g : AgentRegistry) (now : TimePoint) (k : Bytes)
    → IsValid g
    → find (purge_expired g now).0 k ≡ keep_if (λ x. ltb now x.expires_at) (find g k)
unfolding purge_expired find
find-purge_expired g now k v =
    ground (
      arith,
      lookup-filter k (λ (x : AgentRecord). not (leb x.expires_at now)) g.records v.distinct,
    )

-- The number that `purge_expired` returns is the number of records that it removed.
pub purge_expired_count :
    (g : AgentRegistry) (now : TimePoint)
    → (purge_expired g now).1 + length (purge_expired g now).0.records ≡ length g.records
unfolding purge_expired
purge_expired_count g now =
    omega (arith, length-filter (λ (x : AgentRecord). not (leb x.expires_at now)) g.records)

-- What one loaded record makes of the record that stands under its id.
abbrev pub loaded : TimePoint → Option AgentRecord → AgentRecord → Option AgentRecord
loaded far_future none r = some (record r { expires_at = far_future })
loaded far_future (some existing) r =
    if ltb existing.revision r.revision then some r else some existing

pub lookup-load_record :
    (t : TimePoint) (xs : List AgentRecord) (r : AgentRecord) (k : Bytes)
    → lookup k (load_record t xs r)
      ≡ (if str_eq r.agent_id k then loaded t (lookup r.agent_id xs) r else lookup k xs)
unfolding load_record
lookup-load_record t xs r k =
    let late = λ (x : AgentRecord). record x { expires_at = t } in
    ground (
      arith,
      lookup-append k xs (record r { expires_at = t } ∷ []),
      lookup_one k (record r { expires_at = t }),
      str_eq_iff r.agent_id k,
      str_eq_self r.agent_id,
      lookup-modify_first r.agent_id k (λ _. r) (modify_first (has_id r.agent_id) late xs)
          (λ x h. str_eq_self r.agent_id),
      lookup-modify_first r.agent_id k late xs (λ x h. h),
      lookup-modify_first r.agent_id r.agent_id late xs (λ x h. h),
    )

-- `refresh_heartbeat` accepts exactly a revision that is not below the agent's.
pub refresh_heartbeat_accepts :
    (g : AgentRegistry) (i : Bytes) (expires_at : TimePoint) (revision : ℕ) (existing : AgentRecord)
    → find g i ≡ some existing
    → (refresh_heartbeat g i expires_at revision).1 ≡ leb existing.revision revision
unfolding refresh_heartbeat find
refresh_heartbeat_accepts g i e n x h = ground arith
