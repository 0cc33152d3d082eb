-- ===== src/Persistence/Termination.antt =====
-- The rounds of `PersistenceService::recover`.
use beacon_node.Base.{
  ℕ, zero, suc, ◌<◌, List, ◌≢◌, arith, none, length, take, drop, length-drop, Option, some, [], ◌∷◌,
}
use beacon_node.Base.Text.{Bytes}
use beacon_node.Persistence.{le_value, read_bytes, Codec, RegistryEntry, PersistenceService}
use beacon_node.Persistence.Recovery.{
  read_wal, recover, recover_from, after_snapshot, replay_wal, out_of_fuel, read_snapshot,
  SnapshotRead, finished, refused,
}

read_wal_returns :
    (codec : Codec) (newest fuel : ℕ) (s : Bytes) (records : List RegistryEntry)
    → length s < fuel
    → read_wal codec newest fuel s records ≢ none
unfolding read_wal read_bytes
read_wal_returns codec newest zero s records h = absurd (omega arith)
read_wal_returns codec newest (suc fuel) s records h =
    let s₂ = drop 4 (drop 4 s) in
    let size = le_value (take 4 s) in
    grind (
      arith,
      read_wal_returns codec newest fuel,
      length-drop 4 s,
      length-drop 4 (drop 4 s),
      length-drop size s₂,
    )

replay_wal_returns :
    (codec : Codec) (wal : Option Bytes) (records : List RegistryEntry) (newest : ℕ)
    → replay_wal codec wal records newest ≢ out_of_fuel
unfolding replay_wal
replay_wal_returns codec none records newest h = ground arith
replay_wal_returns codec (some s) records newest h =
    ground (arith, read_wal_returns codec newest (suc (length s)) s records)

after_snapshot_returns :
    (codec : Codec) (wal : Option Bytes) (read : SnapshotRead)
    → after_snapshot codec wal read ≢ out_of_fuel
unfolding after_snapshot
after_snapshot_returns codec wal (refused size) h = ground arith
after_snapshot_returns codec wal (finished records newest []) h =
    replay_wal_returns codec wal records newest h
after_snapshot_returns codec wal (finished records newest (b ∷ rest)) h = ground arith

recover_from_returns :
    (codec : Codec) (wal snapshot : Option Bytes) → recover_from codec wal snapshot ≢ out_of_fuel
unfolding recover_from
recover_from_returns codec wal none h = replay_wal_returns codec wal [] 0 h
recover_from_returns codec wal (some s) h =
    let total = le_value (take 4 s) in
    ground (arith, after_snapshot_returns codec wal (read_snapshot codec total (drop 4 s) [] 0))

-- Whatever the files hold, `recover` returns a list or throws one of its exceptions: the rounds that the
-- model gives the replay of the log are enough.
pub recover_returns : (codec : Codec) (p : PersistenceService) → recover codec p ≢ out_of_fuel
unfolding recover
recover_returns codec p h = recover_from_returns codec p.disk.wal p.disk.snapshot h
