-- ===== src/Node/Replay.antt =====
-- What a start of src/beacon_engine/main.cpp makes of the log that an earlier run has written.
use beacon_node.Base.{
  ◌≤◌, ◌≡◌, List, [], ◌∷◌, refl, ap, arith, All, some, none, true, filter, map, ltb,
}
use beacon_node.Types.{AgentRecord, TimePoint}
use beacon_node.Registry.{AgentRegistry, set_upsert_callback}
use beacon_node.Persistence.{Codec, PersistenceService}
use beacon_node.Persistence.Snapshot.{append_entries, opened, recover-append_entries}
use beacon_node.Persistence.Wal.{IsSaved, newer_than}
use beacon_node.Engine.Restart.{entry_of, restore, start_registry}

-- The log of a node, whose entries are appended to the file that the first start makes.
abbrev pub log_of : Codec → List AgentRecord → PersistenceService
log_of codec written = append_entries codec (opened none none []) (map entry_of written)

-- The records that `recover` does not drop: without a snapshot it drops the entries with timestamp 0.
abbrev pub positive : List AgentRecord → List AgentRecord
positive written = filter (λ (r : AgentRecord). ltb 0 r.revision) written

pub filter_entries :
    (written : List AgentRecord)
    → filter (newer_than 0) (map entry_of written) ≡ map entry_of (positive written)
unfolding filter newer_than entry_of
filter_entries [] = refl
filter_entries (r ∷ rs) = ground (arith, filter_entries rs)

pub positive-All :
    (written : List AgentRecord) → All (λ r. 1 ≤ r.revision) written → positive written ≡ written
unfolding filter
positive-All [] h = refl
positive-All (r ∷ rs) (hr, h) = ground (arith, hr, positive-All rs h)

-- The registry after a start from the log of these records.
abbrev pub started : TimePoint → List AgentRecord → AgentRegistry
started now written = set_upsert_callback (restore now (map entry_of (positive written))) true

-- A start reads the log back.
pub start_registry-log_of :
    (codec : Codec) (now : TimePoint) (written : List AgentRecord)
    → All (IsSaved codec) (map entry_of written)
    → start_registry codec now (log_of codec written) ≡ some (started now written)
unfolding start_registry
start_registry-log_of codec now written saved =
    rw (recover-append_entries codec (map entry_of written) saved, start_registry)
      (ap (λ l. some (set_upsert_callback (restore now l) true)) (filter_entries written))
