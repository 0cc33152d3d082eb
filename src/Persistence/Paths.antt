-- ===== src/Persistence/Paths.antt =====
-- The paths of src/beacon_net/persistence_service.cpp, and its constructor.
use beacon_node.Base.{Bool, Option, none, some}
use beacon_node.Base.Text.{Bytes, codes}
use beacon_node.SecurePath.{PathSystem}
use beacon_node.SecurePath
use beacon_node.Persistence.{Disk, PersistenceService, open_wal}

pub record PersistenceConfig : Type 0 where
  pub base_dir : Bytes
  pub wal_path : Bytes
  pub snapshot_path : Bytes

abbrev pub default_persistence : PersistenceConfig
default_persistence = record {
  base_dir = codes ".";
  wal_path = codes "registry.wal";
  snapshot_path = codes "registry.bin";
}

-- The copy of `resolve_secure_path` in this source, which is the same text.
abbrev pub resolve_path : PathSystem → Bytes → Bytes → Option Bytes
resolve_path = SecurePath.resolve_secure_path

-- `PersistenceService(config)`; none where it throws. `opens` says whether the log can be opened.
unfoldable pub new_persistence_service :
    PathSystem → PersistenceConfig → Bool → Disk → Option PersistenceService
new_persistence_service paths config opens disk =
    elim (resolve_path paths config.base_dir config.wal_path) [
      | none ↦ none
      | some path ↦ some (open_wal opens disk)
    ]

-- The paths of the snapshot and the log that `recover` resolves; none where it throws.
unfoldable pub recovery_paths : PathSystem → PersistenceConfig → Option (Bytes × Bytes)
recovery_paths paths config = elim (resolve_path paths config.base_dir config.snapshot_path) [
  | none ↦ none
  | some snapshot_path ↦ elim (resolve_path paths config.base_dir config.wal_path) [
    | none ↦ none
    | some wal_path ↦ some (snapshot_path, wal_path)
  ]
]
