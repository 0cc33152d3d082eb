-- ===== src/Examples/PersistenceTests.antt =====
-- tests/cpp/persistence_tests.cpp, run on the model. An entry is written as its timestamp and its agent
-- id. The tests read the files through new services, which open the log again; every call of the file
-- system works.
use beacon_node.Base.{
  ℕ, ◌*◌, ◌+◌, List, [], ◌∷◌, ◌++◌, ◌≡◌, Bool, true, false, not, ◌&&◌, Option, none, some, refl,
  zero, suc,
}
use beacon_node.Base.Text.{Bytes, codes, str_eq}
use beacon_node.Persistence.{
  Disk, RegistryEntry, PersistenceService, block, append_entry, create_snapshot, snapshot_file,
  open_wal, write_u32, contents, le_value, compute_crc32, snapshot_blocks,
}
use beacon_node.Persistence.Recovery.{
  Recovery, recovered, too_many_records, entry_too_large, trailing_bytes, out_of_fuel, recover,
  read_snapshot,
}
use beacon_node.Persistence.Snapshot.{all_work}
use beacon_node.Examples.Persistence.{plain}

abbrev make_entry : Bytes → ℕ → RegistryEntry
make_entry agent_id timestamp = record {
  agent_id = agent_id;
  capability = codes "n";
  endpoint = codes "e:1";
  timestamp = timestamp;
  public_key = [];
  signature = [];
}

abbrev empty_disk : Disk
empty_disk = record { wal = none; snapshot = none; temporary = none }

-- A service on the disk, whose log can be opened.
service : Disk → PersistenceService
service disk = open_wal true disk

abbrev throws : Recovery → Bool
throws (recovered entries) = false
throws (too_many_records n) = true
throws (entry_too_large n) = true
throws trailing_bytes = true
throws out_of_fuel = false

abbrev has_ids : List RegistryEntry → List Bytes → Bool
has_ids [] [] = true
has_ids [] (s ∷ ids) = false
has_ids (e ∷ entries) [] = false
has_ids (e ∷ entries) (s ∷ ids) =
    let rest = has_ids entries ids in str_eq (RegistryEntry.agent_id e) s && rest

-- Whether exactly the agents of these ids are recovered, in this order.
abbrev recovers : Recovery → List Bytes → Bool
recovers (recovered entries) ids = has_ids entries ids
recovers (too_many_records n) ids = false
recovers (entry_too_large n) ids = false
recovers trailing_bytes ids = false
recovers out_of_fuel ids = false

test_append_and_recover : Bool
unfolding service
test_append_and_recover =
    let written =
      append_entry plain
        (append_entry plain (service empty_disk) (make_entry (codes "agent-1") 100))
        (make_entry (codes "agent-2") 200) in
    recovers (recover plain (service (PersistenceService.disk written)))
      (codes "agent-1" ∷ codes "agent-2" ∷ [])

test_append_and_recover_passes : test_append_and_recover ≡ true
unfolding test_append_and_recover recover open_wal append_entry block le_value compute_crc32 str_eq
test_append_and_recover_passes = refl

abbrev exists : Option Bytes → Bool
exists none = false
exists (some s) = true

test_snapshot_atomic_write : Bool
unfolding service
test_snapshot_atomic_write =
    let entry = make_entry (codes "agent-1") 100 in
    let disk = PersistenceService.disk (
      create_snapshot plain all_work (append_entry plain (service empty_disk) entry)
        (entry ∷ [])) in
    exists (Disk.snapshot disk)
    && (not (exists (Disk.temporary disk))
        && recovers (recover plain (service disk)) (codes "agent-1" ∷ []))

test_snapshot_atomic_write_passes : test_snapshot_atomic_write ≡ true
unfolding test_snapshot_atomic_write create_snapshot recover le_value snapshot_file read_snapshot
    snapshot_blocks block compute_crc32 str_eq
test_snapshot_atomic_write_passes = refl

-- A new service that has made a snapshot of one entry.
snapshot_disk : Disk
unfolding service
snapshot_disk =
    PersistenceService.disk
      (create_snapshot plain all_work (service empty_disk) (make_entry (codes "agent-1") 100 ∷ []))

-- The byte at the position is overwritten.
abbrev overwrite : ℕ → ℕ → Bytes → Bytes
overwrite n b [] = b ∷ []
overwrite zero b (c ∷ s) = b ∷ s
overwrite (suc n) b (c ∷ s) = c ∷ overwrite n b s

test_snapshot_crc_detects_corruption : Bool
unfolding snapshot_disk
test_snapshot_crc_detects_corruption =
    let corrupted = record snapshot_disk {
      snapshot = some (overwrite (4 + 4 + 4 + 5) 255 (contents (Disk.snapshot snapshot_disk)));
    } in
    recovers (recover plain (service corrupted)) []

test_snapshot_crc_detects_corruption_passes : test_snapshot_crc_detects_corruption ≡ true
unfolding test_snapshot_crc_detects_corruption recover open_wal le_value create_snapshot
    snapshot_file read_snapshot snapshot_blocks block compute_crc32
test_snapshot_crc_detects_corruption_passes = refl

-- Whether `recover` throws on a disk with this snapshot and no log.
rejects : Bytes → Bool
unfolding service
rejects snapshot = throws (recover plain (service (record empty_disk { snapshot = some snapshot })))

test_rejects_oversized_entry : Bool
unfolding rejects
test_rejects_oversized_entry =
    rejects (write_u32 1 ++ (write_u32 (11 * 1024 * 1024) ++ write_u32 0))

test_rejects_oversized_entry_passes : test_rejects_oversized_entry ≡ true
unfolding test_rejects_oversized_entry recover open_wal le_value write_u32 read_snapshot
test_rejects_oversized_entry_passes = refl

test_rejects_excessive_records : Bool
unfolding rejects
test_rejects_excessive_records = rejects (write_u32 2000000)

test_rejects_excessive_records_passes : test_rejects_excessive_records ≡ true
unfolding test_rejects_excessive_records recover open_wal le_value write_u32
test_rejects_excessive_records_passes = refl

test_rejects_trailing_bytes : Bool
unfolding snapshot_disk service
test_rejects_trailing_bytes =
    let snapshot = contents (Disk.snapshot snapshot_disk) ++ codes "EXTRA_BYTES" in
    throws (recover plain (service (record snapshot_disk { snapshot = some snapshot })))

test_rejects_trailing_bytes_passes : test_rejects_trailing_bytes ≡ true
unfolding test_rejects_trailing_bytes recover open_wal le_value create_snapshot snapshot_file
    read_snapshot snapshot_blocks block compute_crc32
test_rejects_trailing_bytes_passes = refl
