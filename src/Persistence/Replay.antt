-- ===== src/Persistence/Replay.antt =====
-- The replay of a whole log, and of one whose last block a crash has cut short.
use beacon_node.Base.{
  ℕ, suc, ◌+◌, ◌-◌, ◌<◌, ◌≤◌, List, [], ◌++◌, ◌≡◌, refl, arith, some, length, take, drop,
  length-append, ap, ◌∙◌, append-nil, sym, All, filter,
}
use beacon_node.Base.Text.{Bytes}
use beacon_node.Persistence.{write_u32, block, compute_crc32, Codec, RegistryEntry, snapshot_blocks}
use beacon_node.Persistence.Recovery.{max_entry_size, read_wal, replay_wal, recovered}
use beacon_node.Persistence.Blocks.{
  le_value-write_u32, read_bytes-take, block_small, length-block, length-write_u32,
}
use beacon_node.Persistence.Wal.{
  IsSaved, newer_than, read_wal-snapshot_blocks, length-snapshot_blocks,
}

pub take_four : (n : ℕ) (rest : Bytes) → take 4 (write_u32 n ++ rest) ≡ write_u32 n
unfolding write_u32
take_four n rest = refl

pub drop_four : (n : ℕ) (rest : Bytes) → drop 4 (write_u32 n ++ rest) ≡ rest
unfolding write_u32
drop_four n rest = refl

-- A block of which only the first `m` bytes are there.
read_wal-torn :
    (codec : Codec) (newest fuel m : ℕ) (s : Bytes) (records : List RegistryEntry)
    → length s ≤ max_entry_size
    → m < length s + 8
    → read_wal codec newest
        (suc fuel)
        (take m (write_u32 (length s) ++ (write_u32 (compute_crc32 s) ++ s)))
        records
      ≡ some records
unfolding read_wal
read_wal-torn codec newest fuel m s records le lt =
    let tail = write_u32 (compute_crc32 s) ++ s in
    ground (
      arith,
      read_bytes-take 4 m (write_u32 (length s) ++ tail),
      read_bytes-take 4 (m - 4) tail,
      read_bytes-take (length s) (m - 4 - 4) s,
      take_four (length s) tail,
      drop_four (length s) tail,
      take_four (compute_crc32 s) s,
      drop_four (compute_crc32 s) s,
      length-append (write_u32 (length s)) tail,
      length-append (write_u32 (compute_crc32 s)) s,
      length-write_u32 (length s),
      length-write_u32 (compute_crc32 s),
      le_value-write_u32 (length s),
    )

-- A read that has something left at the end of the whole blocks.
pub read_wal-blocks_end :
    (codec : Codec) (newest : ℕ) (entries : List RegistryEntry) (rest : Bytes)
    (records : List RegistryEntry)
    → All (IsSaved codec) entries
    → ((fuel : ℕ) (found : List RegistryEntry)
        → read_wal codec newest (suc fuel) rest found ≡ some found)
    → read_wal codec newest
        (suc (length (snapshot_blocks codec entries ++ rest)))
        (snapshot_blocks codec entries ++ rest)
        records
      ≡ some (records ++ filter (newer_than newest) entries)
read_wal-blocks_end codec newest entries rest records all ends =
    let s = snapshot_blocks codec entries ++ rest in
    let spare = length s - length entries in
    let enough : suc (length s) ≡ length entries + suc spare = omega (
      arith,
      length-append (snapshot_blocks codec entries) rest,
      length-snapshot_blocks codec entries all,
    ) in
    ap (λ t. read_wal codec newest t s records) enough
    ∙ read_wal-snapshot_blocks codec newest (suc spare) entries rest records all
    ∙ ends spare (records ++ filter (newer_than newest) entries)

read_wal-empty :
    (codec : Codec) (newest fuel : ℕ) (records : List RegistryEntry)
    → read_wal codec newest (suc fuel) [] records ≡ some records
unfolding read_wal
read_wal-empty codec newest fuel records = refl

-- Replaying a log of saved entries adds, in order, those with a timestamp beyond the greatest one of the
-- snapshot.
pub replay_wal-snapshot_blocks :
    (codec : Codec) (newest : ℕ) (entries records : List RegistryEntry)
    → All (IsSaved codec) entries
    → replay_wal codec (some (snapshot_blocks codec entries)) records newest
      ≡ recovered (records ++ filter (newer_than newest) entries)
unfolding replay_wal
replay_wal-snapshot_blocks codec newest entries records all =
    let whole = sym (append-nil (snapshot_blocks codec entries)) in
    ap (λ t. replay_wal codec (some t) records newest) whole
    ∙ ground (
      arith,
      read_wal-blocks_end codec newest entries [] records all (read_wal-empty codec newest),
    )

-- A crash while an entry is appended leaves the first `m` bytes of its block: the replay is then that of
-- the entries before it.
pub replay_wal_crash :
    (codec : Codec) (newest m : ℕ) (entries records : List RegistryEntry) (entry : RegistryEntry)
    (saved : IsSaved codec entry)
    → All (IsSaved codec) entries
    → m < length (block saved.serialized)
    → replay_wal codec
        (some (snapshot_blocks codec entries ++ take m (block saved.serialized)))
        records
        newest
      ≡ recovered (records ++ filter (newer_than newest) entries)
unfolding replay_wal
replay_wal_crash codec newest m entries records entry saved all lt = ground (
  arith,
  read_wal-blocks_end codec newest entries (take m (block saved.serialized)) records all
      (λ fuel found.
        ap (λ t. read_wal codec newest (suc fuel) (take m t) found)
          (block_small saved.serialized (omega (arith, saved.serialized_le)))
        ∙ read_wal-torn codec newest fuel m saved.serialized found saved.serialized_le
            (omega (arith, length-block saved.serialized (omega (arith, saved.serialized_le))))),
)
