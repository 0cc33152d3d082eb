-- ===== src/Persistence/Snapshot.antt =====
-- What `recover` returns for what `create_snapshot` and `append_entry` have written.
use beacon_node.Base.{
  ℕ, suc, ◌≤◌, max, List, [], ◌∷◌, ◌++◌, true, false, ◌≡◌, refl, arith, Option, none, some, length,
  ap, ◌∙◌, append_assoc, append-nil, sym, All, filter,
}
use beacon_node.Base.Text.{Bytes}
use beacon_node.Persistence.{
  write_u32, block, compute_crc32, Codec, RegistryEntry, Disk, FileSystem, PersistenceService,
  snapshot_blocks, snapshot_file, append_entry, create_snapshot, rename_snapshot, truncate_wal,
  open_wal,
}
use beacon_node.Persistence.Recovery.{
  recovered, finished, max_snapshot_records, read_wal, read_snapshot, replay_wal, after_snapshot,
  recover_from, recover,
}
use beacon_node.Persistence.Blocks.{le_value-write_u32, read_bytes-append, read_u32}
use beacon_node.Persistence.Wal.{
  IsSaved, newer_than, snapshot_blocks-cons, block-append, checked_entry_saved,
}
use beacon_node.Persistence.Replay.{replay_wal-snapshot_blocks, take_four, drop_four}

-- Calls of `append_entry`, the first of the list first.
unfoldable pub append_entries : Codec → PersistenceService → List RegistryEntry → PersistenceService
append_entries codec p [] = p
append_entries codec p (entry ∷ entries) = append_entries codec (append_entry codec p entry) entries

-- The greatest timestamp of a list and a number.
unfoldable pub newest_of : ℕ → List RegistryEntry → ℕ
newest_of newest [] = newest
newest_of newest (entry ∷ entries) = newest_of (max newest (RegistryEntry.timestamp entry)) entries

-- A service whose log is open.
unfoldable pub opened : Option Bytes → Option Bytes → Bytes → PersistenceService
opened snapshot temporary log = record {
  disk = record { wal = some log; snapshot = snapshot; temporary = temporary };
  is_open = true;
}

snapshot_blocks-first :
    (codec : Codec) (entry : RegistryEntry) (entries : List RegistryEntry)
    → snapshot_blocks codec (entry ∷ entries)
      ≡ snapshot_blocks codec (entry ∷ []) ++ snapshot_blocks codec entries
unfolding snapshot_blocks
snapshot_blocks-first codec entry entries = with_serialize (Codec.serialize codec entry) refl
  where
    with_serialize :
        (written : Option Bytes)
        → Codec.serialize codec entry ≡ written
        → snapshot_blocks codec (entry ∷ entries)
          ≡ snapshot_blocks codec (entry ∷ []) ++ snapshot_blocks codec entries
    with_serialize none h = ground (arith, h)
    with_serialize (some s) h =
        ground (arith, h, append_assoc (block s) [] (snapshot_blocks codec entries))

append_entry-opened :
    (codec : Codec) (snapshot temporary : Option Bytes) (log : Bytes) (entry : RegistryEntry)
    → append_entry codec (opened snapshot temporary log) entry
      ≡ opened snapshot temporary (log ++ snapshot_blocks codec (entry ∷ []))
unfolding append_entry opened snapshot_blocks
append_entry-opened codec snapshot temporary log entry =
    with_serialize (Codec.serialize codec entry) refl
  where
    with_serialize :
        (written : Option Bytes)
        → Codec.serialize codec entry ≡ written
        → append_entry codec (opened snapshot temporary log) entry
          ≡ opened snapshot temporary (log ++ snapshot_blocks codec (entry ∷ []))
    with_serialize none h = ground (arith, h, append-nil log)
    with_serialize (some s) h = ground (arith, h, append-nil (block s))

append_entries-opened :
    (codec : Codec) (snapshot temporary : Option Bytes) (log : Bytes) (entries : List RegistryEntry)
    → append_entries codec (opened snapshot temporary log) entries
      ≡ opened snapshot temporary (log ++ snapshot_blocks codec entries)
unfolding append_entries append_entry opened snapshot_blocks
append_entries-opened codec snapshot temporary log [] =
    ap (opened snapshot temporary) (sym (append-nil log))
append_entries-opened codec snapshot temporary log (entry ∷ entries) =
    let blocks = snapshot_blocks codec in
    ap (λ t. append_entries codec t entries)
      (append_entry-opened codec snapshot temporary log entry)
    ∙ append_entries-opened codec snapshot temporary (log ++ blocks (entry ∷ [])) entries
    ∙ ap (opened snapshot temporary) (
        append_assoc log (blocks (entry ∷ [])) (blocks entries)
        ∙ ap (λ t. log ++ t) (sym (snapshot_blocks-first codec entry entries)))

read_snapshot-block :
    (codec : Codec) (n : ℕ) (entry : RegistryEntry) (rest : Bytes) (records : List RegistryEntry)
    (newest : ℕ) (saved : IsSaved codec entry)
    → read_snapshot codec (suc n) (block saved.serialized ++ rest) records newest
      ≡ read_snapshot codec n rest
          (records ++ entry ∷ [])
          (max newest (RegistryEntry.timestamp entry))
unfolding read_snapshot
read_snapshot-block codec n entry rest records newest saved =
    let s = saved.serialized in
    ground (
      arith,
      block-append s rest saved.serialized_le,
      read_u32 (length s) (write_u32 (compute_crc32 s) ++ (s ++ rest)),
      read_u32 (compute_crc32 s) (s ++ rest),
      read_bytes-append (length s) s rest refl,
      le_value-write_u32 (length s),
      checked_entry_saved codec entry saved,
      saved.serialized_le,
    )

read_snapshot-snapshot_blocks :
    (codec : Codec) (entries records : List RegistryEntry) (newest : ℕ)
    → All (IsSaved codec) entries
    → read_snapshot codec (length entries) (snapshot_blocks codec entries) records newest
      ≡ finished (records ++ entries) (newest_of newest entries) []
unfolding read_snapshot snapshot_blocks newest_of
read_snapshot-snapshot_blocks codec [] records newest all =
    ap (λ t. finished t newest []) (sym (append-nil records))
read_snapshot-snapshot_blocks codec (entry ∷ entries) records newest (saved, all) =
    let newer = max newest (RegistryEntry.timestamp entry) in
    ap (λ t. read_snapshot codec (suc (length entries)) t records newest)
      (snapshot_blocks-cons codec entry entries saved)
    ∙ read_snapshot-block codec (length entries) entry (snapshot_blocks codec entries) records
        newest saved
    ∙ read_snapshot-snapshot_blocks codec entries (records ++ entry ∷ []) newer all
    ∙ ap (λ t. finished t (newest_of newer entries) []) (append_assoc records (entry ∷ []) entries)

-- Recovery from a snapshot of saved entries and a log of saved entries.
recover-opened :
    (codec : Codec) (temporary : Option Bytes) (entries later : List RegistryEntry)
    → length entries ≤ max_snapshot_records
    → All (IsSaved codec) entries
    → All (IsSaved codec) later
    → recover codec
        (opened (some (snapshot_file codec entries)) temporary (snapshot_blocks codec later))
      ≡ recovered (entries ++ filter (newer_than (newest_of 0 entries)) later)
unfolding recover recover_from after_snapshot snapshot_file opened
recover-opened codec temporary entries later le saved logged = ground (
  arith,
  take_four (length entries) (snapshot_blocks codec entries),
  drop_four (length entries) (snapshot_blocks codec entries),
  le_value-write_u32 (length entries),
  read_snapshot-snapshot_blocks codec entries [] 0 saved,
  replay_wal-snapshot_blocks codec (newest_of 0 entries) later entries logged,
)

abbrev pub all_work : FileSystem
all_work = record {
  temporary_opens = true;
  rename_works = true;
  wal_truncates = true;
  wal_opens = true;
}

create_snapshot-opened :
    (codec : Codec) (p : PersistenceService) (entries : List RegistryEntry)
    → create_snapshot codec all_work p entries ≡ opened (some (snapshot_file codec entries)) none []
unfolding create_snapshot opened rename_snapshot truncate_wal open_wal
create_snapshot-opened codec p entries = refl

-- A snapshot of at most a million saved entries whose file operations work, then saved entries that are
-- appended: `recover` returns the entries of the snapshot, in order, then those of the appended ones, in
-- order, whose timestamp is beyond the greatest timestamp of the snapshot.
pub recover-create_snapshot :
    (codec : Codec) (p : PersistenceService) (entries later : List RegistryEntry)
    → length entries ≤ max_snapshot_records
    → All (IsSaved codec) entries
    → All (IsSaved codec) later
    → recover codec (append_entries codec (create_snapshot codec all_work p entries) later)
      ≡ recovered (entries ++ filter (newer_than (newest_of 0 entries)) later)
recover-create_snapshot codec p entries later le saved logged =
    ap (λ t. recover codec (append_entries codec t later)) (create_snapshot-opened codec p entries)
    ∙ ap (recover codec)
        (append_entries-opened codec (some (snapshot_file codec entries)) none [] later)
    ∙ recover-opened codec none entries later le saved logged

-- Without a snapshot, `recover` returns the saved entries that were appended to an empty log, in order,
-- less those with timestamp 0.
pub recover-append_entries :
    (codec : Codec) (entries : List RegistryEntry)
    → All (IsSaved codec) entries
    → recover codec (append_entries codec (opened none none []) entries)
      ≡ recovered (filter (newer_than 0) entries)
unfolding recover recover_from opened
recover-append_entries codec entries saved =
    ap (recover codec) (append_entries-opened codec none none [] entries)
    ∙ replay_wal-snapshot_blocks codec 0 entries [] saved

-- If the snapshot can be neither finished nor found, the log is emptied all the same: nothing of what
-- was snapshotted or logged is recovered.
pub create_snapshot_loses :
    (codec : Codec) (p : PersistenceService) (entries : List RegistryEntry)
    → Disk.snapshot p.disk ≡ none
    → recover codec (create_snapshot codec (record all_work { rename_works = false }) p entries)
      ≡ recovered []
unfolding create_snapshot rename_snapshot truncate_wal open_wal recover recover_from replay_wal
    read_wal
create_snapshot_loses codec p entries none_there = ground (arith, none_there)
