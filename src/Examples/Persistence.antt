-- ===== src/Examples/Persistence.antt =====
-- A log and a snapshot of entries that are written as their timestamp and their agent id.
use beacon_node.Base.{
  ℕ, ◌%◌, [], ◌∷◌, ◌++◌, ◌≡◌, ◌≢◌, refl, Option, none, some, arith, take, filter, false,
}
use beacon_node.Base.Text.{Bytes, codes}
use beacon_node.Persistence.{Codec, RegistryEntry, snapshot_blocks, block, create_snapshot}
use beacon_node.Persistence.Recovery.{recovered, out_of_fuel, recover, replay_wal}
use beacon_node.Persistence.Blocks.{length-block}
use beacon_node.Persistence.Wal.{IsSaved, newer_than}
use beacon_node.Persistence.Replay.{replay_wal_crash}
use beacon_node.Persistence.Snapshot.{
  append_entries, newest_of, opened, all_work, recover-create_snapshot, create_snapshot_loses,
}
use beacon_node.Persistence.Termination.{recover_returns}

abbrev entry : Bytes → ℕ → RegistryEntry
entry agent_id timestamp = record {
  agent_id = agent_id;
  capability = [];
  endpoint = [];
  timestamp = timestamp;
  public_key = [];
  signature = [];
}

abbrev parse_plain : Bytes → Option RegistryEntry
parse_plain [] = none
parse_plain (t ∷ agent_id) = some (entry agent_id t)

abbrev pub plain : Codec
plain = record {
  serialize =
      λ (e : RegistryEntry). some (RegistryEntry.timestamp e % 256 ∷ RegistryEntry.agent_id e);
  parse = parse_plain;
}

saved_a : IsSaved plain (entry (codes "a") 3)
saved_a = record {
  serialized = 3 ∷ codes "a";
  serialize_some = refl;
  parse_some = refl;
  serialized_le = omega arith;
}

abbrev saved_b : IsSaved plain (entry (codes "b") 5)
saved_b = record {
  serialized = 5 ∷ codes "b";
  serialize_some = refl;
  parse_some = refl;
  serialized_le = omega arith;
}

saved_c : IsSaved plain (entry (codes "c") 0)
saved_c = record {
  serialized = 0 ∷ codes "c";
  serialize_some = refl;
  parse_some = refl;
  serialized_le = omega arith;
}

recover-create_snapshot_example :
    recover plain (
      append_entries plain
        (create_snapshot plain all_work (opened none none []) (entry (codes "a") 3 ∷ []))
        (entry (codes "b") 5 ∷ entry (codes "c") 0 ∷ []))
    ≡ recovered (entry (codes "a") 3 ∷ entry (codes "b") 5 ∷ [])
unfolding filter newer_than newest_of
recover-create_snapshot_example =
    recover-create_snapshot plain (opened none none []) (entry (codes "a") 3 ∷ [])
      (entry (codes "b") 5 ∷ entry (codes "c") 0 ∷ []) (omega arith) (saved_a, tt)
      (saved_b, (saved_c, tt))

replay_wal_crash_example :
    replay_wal plain
      (some (snapshot_blocks plain (entry (codes "a") 3 ∷ []) ++ take 9 (block (5 ∷ codes "b"))))
      []
      0
    ≡ recovered (entry (codes "a") 3 ∷ [])
unfolding filter newer_than
replay_wal_crash_example =
    replay_wal_crash plain 0 9 (entry (codes "a") 3 ∷ []) [] (entry (codes "b") 5) saved_b
      (saved_a, tt) (omega (arith, length-block (5 ∷ codes "b") (omega arith)))

recover_returns_example :
    recover plain (opened (some (1 ∷ 2 ∷ [])) none (7 ∷ 0 ∷ 0 ∷ 0 ∷ 1 ∷ [])) ≢ out_of_fuel
recover_returns_example =
    recover_returns plain (opened (some (1 ∷ 2 ∷ [])) none (7 ∷ 0 ∷ 0 ∷ 0 ∷ 1 ∷ []))

create_snapshot_loses_example :
    recover plain (
      create_snapshot plain
        (record all_work { rename_works = false })
        (opened none none (block (3 ∷ codes "a")))
        (entry (codes "a") 3 ∷ []))
    ≡ recovered []
unfolding opened
create_snapshot_loses_example =
    create_snapshot_loses plain (opened none none (block (3 ∷ codes "a")))
      (entry (codes "a") 3 ∷ []) refl
