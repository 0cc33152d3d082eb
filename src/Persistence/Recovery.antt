-- ===== src/Persistence/Recovery.antt =====
-- `PersistenceService::recover` of src/beacon_net/persistence_service.cpp.
use beacon_node.Base.{
  ℕ, zero, suc, ◌*◌, max, List, [], ◌∷◌, ◌++◌, true, false, not, Option, none, some, ltb, leb, ◌==◌,
  if◌then◌else◌, length, take, drop,
}
use beacon_node.Base.Text.{Bytes}
use beacon_node.Persistence.{
  RegistryEntry, Codec, compute_crc32, le_value, read_bytes, PersistenceService,
}

abbrev pub max_entry_size : ℕ
max_entry_size = 10 * 1024 * 1024

abbrev pub max_snapshot_records : ℕ
max_snapshot_records = 1000000

-- What `recover` returns or throws; `out_of_fuel` is not a result of the program (Termination).
pub data Recovery : Type 0 where
  recovered : List RegistryEntry → Recovery
  too_many_records : ℕ → Recovery
  entry_too_large : ℕ → Recovery
  trailing_bytes : Recovery
  out_of_fuel : Recovery

-- The loop over the records of a snapshot: what it recovered, the greatest timestamp, and what is left
-- of the file; or the size that it refuses.
pub data SnapshotRead : Type 0 where
  finished : List RegistryEntry → ℕ → Bytes → SnapshotRead
  refused : ℕ → SnapshotRead

-- A record with the right checksum that parses.
abbrev pub checked_entry : Codec → ℕ → Bytes → Option RegistryEntry
checked_entry codec stored_crc buffer =
    if not (compute_crc32 buffer == stored_crc) then none else Codec.parse codec buffer

unfoldable pub read_snapshot : Codec → ℕ → Bytes → List RegistryEntry → ℕ → SnapshotRead
unfolding read_bytes
read_snapshot codec zero s records newest = finished records newest s
read_snapshot codec (suc n) s records newest = elim (read_bytes 4 s) [
  | none ↦ finished records newest []
  | some (size_bytes, s₁) ↦ elim (ltb max_entry_size (le_value size_bytes)) [
    | true ↦ refused (le_value size_bytes)
    | false ↦ elim (read_bytes 4 s₁) [
      | none ↦ finished records newest []
      | some (crc_bytes, s₂) ↦ elim (read_bytes (le_value size_bytes) s₂) [
        | none ↦ finished records newest []
        | some (buffer, s₃) ↦ elim (checked_entry codec (le_value crc_bytes) buffer) [
          | none ↦ read_snapshot codec n s₃ records newest
          | some entry ↦
              read_snapshot codec n s₃ (records ++ entry ∷ [])
                (max newest (RegistryEntry.timestamp entry))
        ]
      ]
    ]
  ]
]

-- The loop over the log. Each round that goes on has read eight bytes, so the length of the log bounds
-- the rounds. A size above the limit ends the round before the text is read.
unfoldable pub read_wal : Codec → ℕ → ℕ → Bytes → List RegistryEntry → Option (List RegistryEntry)
unfolding read_bytes
read_wal codec newest zero s records = none
read_wal codec newest (suc fuel) s records = elim (read_bytes 4 s) [
  | none ↦ some records
  | some (size_bytes, s₁) ↦ elim (read_bytes 4 s₁) [
    | none ↦ some records
    | some (crc_bytes, s₂) ↦ elim (ltb max_entry_size (le_value size_bytes)) [
      | true ↦ read_wal codec newest fuel s₂ records
      | false ↦ elim (read_bytes (le_value size_bytes) s₂) [
        | none ↦ some records
        | some (buffer, s₃) ↦ elim (checked_entry codec (le_value crc_bytes) buffer) [
          | none ↦ read_wal codec newest fuel s₃ records
          | some entry ↦ elim (leb (RegistryEntry.timestamp entry) newest) [
            | true ↦ read_wal codec newest fuel s₃ records
            | false ↦ read_wal codec newest fuel s₃ (records ++ entry ∷ [])
          ]
        ]
      ]
    ]
  ]
]

-- The part of `recover` behind the snapshot.
unfoldable pub replay_wal : Codec → Option Bytes → List RegistryEntry → ℕ → Recovery
unfolding read_wal
replay_wal codec none records newest = recovered records
replay_wal codec (some s) records newest = elim (read_wal codec newest (suc (length s)) s records) [
  | none ↦ out_of_fuel
  | some all ↦ recovered all
]

unfoldable pub after_snapshot : Codec → Option Bytes → SnapshotRead → Recovery
unfolding replay_wal
after_snapshot codec wal (refused size) = entry_too_large size
after_snapshot codec wal (finished records newest []) = replay_wal codec wal records newest
after_snapshot codec wal (finished records newest (b ∷ rest)) = trailing_bytes

unfoldable pub recover_from : Codec → Option Bytes → Option Bytes → Recovery
unfolding after_snapshot
recover_from codec wal none = replay_wal codec wal [] 0
recover_from codec wal (some s) =
    let total = le_value (take 4 s) in
    if ltb max_snapshot_records total
    then too_many_records total
    else after_snapshot codec wal (read_snapshot codec total (drop 4 s) [] 0)

unfoldable pub recover : Codec → PersistenceService → Recovery
unfolding recover_from
recover codec p = recover_from codec p.disk.wal p.disk.snapshot
