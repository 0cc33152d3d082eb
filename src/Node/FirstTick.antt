-- ===== src/Node/FirstTick.antt =====
-- The first round of the main loop of src/beacon_engine/main.cpp after a start from a log.
use beacon_node.Base.{
  ◌+◌, ◌<◌, ◌≤◌, ◌≡◌, List, ◌∙◌, ap, sym, subst, arith, All, Option, none, some, map, ltb, [], ◌∷◌,
  filter, All-filter_of, Bool-cases, inl, inr,
}
use beacon_node.Base.Text.{Bytes}
use beacon_node.Types.{AgentRecord, TimePoint}
use beacon_node.Config.{GossipConfig}
use beacon_node.Identity.{IdentityService}
use beacon_node.Registry.{AgentRegistry, find, one_year, purge_expired, set_upsert_callback}
use beacon_node.Registry.Lookup.{lookup, keep_if}
use beacon_node.Registry.Refinement.{find-purge_expired}
use beacon_node.Registry.Loading.{loaded_all}
use beacon_node.Reputation.{ReputationEngine}
use beacon_node.Control.{Env, ControlProtocol}
use beacon_node.Engine.Restart.{entry_of, record_of, start_registry, tick}
use beacon_node.Node.Durability.{Among, restored, find-restore}
use beacon_node.Persistence.{Codec}
use beacon_node.Persistence.Wal.{IsSaved}
use beacon_node.Node.Replay.{log_of, positive, started, start_registry-log_of}
use beacon_node.Node.Restart.{started-Inv}
use beacon_node.Node.Ticks.{stats_line}
use beacon_node.Node.Restored.{ExpiresAt, IsNewest, loaded_all-first, loaded_all-back}

dropped :
    (now later : TimePoint) (o : Option AgentRecord)
    → ExpiresAt now o
    → now ≤ later
    → keep_if (λ (x : AgentRecord). ltb later x.expires_at) o ≡ none
dropped now later none h le = absurd h
dropped now later (some x) h le = ground (arith, h, le)

kept_until :
    (later : TimePoint) (o : Option AgentRecord) (x : AgentRecord)
    → o ≡ some x
    → later < x.expires_at
    → keep_if (λ (y : AgentRecord). ltb later y.expires_at) o ≡ some x
kept_until later o x e lt = ground (arith, e, lt)

module _ (z : AgentRecord) where
  -- A record that is newer than another one is not dropped.
  Among-positive :
      (written : List AgentRecord) → Among written z → 0 < z.revision → Among (positive written) z
  unfolding filter
  Among-positive [] h lt = h
  Among-positive (y ∷ ys) (inl e) lt = ground (arith, e, lt)
  Among-positive (y ∷ ys) (inr h) lt = elim (Bool-cases (ltb 0 y.revision)) [
    | inl kept ↦ rw (kept, filter) (inr (Among-positive ys h lt))
    | inr zero ↦ rw (zero, filter) (Among-positive ys h lt)
  ]

module _ (codec : Codec) (env : Env) (p : ControlProtocol) (gossip : GossipConfig)
    (reputation : ReputationEngine) (node_id : Bytes) (identity : IdentityService) (now : TimePoint)
    (written : List AgentRecord) (saved : All (IsSaved codec) (map entry_of written))
    (k : Bytes) where
  found :
      find (started now written) k
      ≡ loaded_all (now + one_year) k none (restored now (positive written))
  unfolding set_upsert_callback find
  found = find-restore now (map entry_of (positive written)) k

  -- The tick purges what has expired.
  find-tick :
      find (tick env p gossip reputation node_id (started now written) identity).0 k
      ≡ keep_if (λ (x : AgentRecord). ltb env.now x.expires_at) (find (started now written) k)
  unfolding tick
  find-tick =
      let g = started now written in
      ap (λ r. find r k) (stats_line env p (purge_expired g env.now).0 identity)
      ∙ find-purge_expired g env.now k (started-Inv now written).valid

  -- A start from a log whose entries are saved succeeds, and the first tick after it removes every agent of
  -- which the log holds a record that is newer than the first one with a revision above 0, with which the
  -- start begins: what an agent that renewed its registration had is gone once the node has started again.
  pub tick-start_registry_forgets :
      (first z : AgentRecord)
      → now ≤ env.now
      → lookup k (positive written) ≡ some first
      → Among written z
      → z.agent_id ≡ k
      → first.revision < z.revision
      → (g : AgentRegistry) × (start_registry codec now (log_of codec written) ≡ some g)
        × (find (tick env p gossip reputation node_id g identity).0 k ≡ none)
  tick-start_registry_forgets first z le f h e lt = (
    started now written,
    start_registry-log_of codec now written saved,
    find-tick
        ∙ dropped now env.now (find (started now written) k)
            (subst (ExpiresAt now) (sym found) (
              loaded_all-first (now + one_year) now k first z (positive written) f
                (Among-positive z written h (omega (arith, lt))) e lt))
            le,
  )

  -- A start from a log whose entries are saved succeeds, and every other agent of which the log holds a record
  -- with a revision above 0 is there after the first tick, if that is less than a year after the start,
  -- whether or not it had expired and was removed before: it has the first such record, without the
  -- metadata, and expires a year after the start.
  pub tick-start_registry_returns :
      (first : AgentRecord)
      → env.now < now + one_year
      → lookup k (positive written) ≡ some first
      → All (IsNewest k first) written
      → (g : AgentRegistry) × (start_registry codec now (log_of codec written) ≡ some g)
        × (find (tick env p gossip reputation node_id g identity).0 k
            ≡ some (record (record_of now (entry_of first)) { expires_at = now + one_year }))
  tick-start_registry_returns first lt f h = (
    started now written,
    start_registry-log_of codec now written saved,
    find-tick
        ∙ kept_until env.now (find (started now written) k)
            (record (record_of now (entry_of first)) { expires_at = now + one_year })
            (found
              ∙ loaded_all-back (now + one_year) now k first (positive written) f (
                  All-filter_of (IsNewest k first) (λ (r : AgentRecord). ltb 0 r.revision) written
                    h))
            lt,
  )
