-- ===== src/Persistence/Wal.antt =====
-- The replay loop of src/beacon_net/persistence_service.cpp on whole blocks.
use beacon_node.Base.{
  ℕ, suc, ◌+◌, ◌≤◌, List, [], ◌∷◌, ◌++◌, Bool, not, ◌≡◌, refl, arith, some, leb, length,
  length-append, ap, ◌∙◌, append_assoc, append-nil, sym, All, filter,
}
use beacon_node.Base.Text.{Bytes}
use beacon_node.Persistence.{
  write_u32, le_value, block, compute_crc32, Codec, RegistryEntry, snapshot_blocks,
}
use beacon_node.Persistence.Recovery.{max_entry_size, read_wal, checked_entry}
use beacon_node.Persistence.Crc.{compute_crc32-lt}
use beacon_node.Persistence.Blocks.{
  le_value-write_u32, read_bytes-append, read_u32, block_small, length-block,
}

-- What is written of an entry is read back as that entry, and is within the limit.
pub record IsSaved (codec : Codec) (entry : RegistryEntry) : Type 0 where
  pub serialized : Bytes
  pub serialize_some : Codec.serialize codec entry ≡ some serialized
  pub parse_some : Codec.parse codec serialized ≡ some entry
  pub serialized_le : length serialized ≤ max_entry_size

unfoldable pub newer_than : ℕ → RegistryEntry → Bool
newer_than newest entry = not (leb (RegistryEntry.timestamp entry) newest)

pub block-append :
    (s rest : Bytes)
    → length s ≤ max_entry_size
    → block s ++ rest ≡ write_u32 (length s) ++ (write_u32 (compute_crc32 s) ++ (s ++ rest))
unfolding write_u32
block-append s rest h = ap (λ t. t ++ rest) (block_small s (omega arith))

pub checked_entry_saved :
    (codec : Codec) (entry : RegistryEntry) (saved : IsSaved codec entry)
    → checked_entry codec (le_value (write_u32 (compute_crc32 saved.serialized))) saved.serialized
      ≡ some entry
checked_entry_saved codec entry saved = ground (
  arith,
  le_value-write_u32 (compute_crc32 saved.serialized),
  compute_crc32-lt saved.serialized,
  saved.parse_some,
)

-- A round of the loop on a whole block.
read_wal-block :
    (codec : Codec) (newest fuel : ℕ) (entry : RegistryEntry) (rest : Bytes)
    (records : List RegistryEntry) (saved : IsSaved codec entry)
    → read_wal codec newest (suc fuel) (block saved.serialized ++ rest) records
      ≡ read_wal codec newest fuel rest (records ++ filter (newer_than newest) (entry ∷ []))
unfolding read_wal filter newer_than
read_wal-block codec newest fuel entry rest records saved =
    let s = saved.serialized in
    ground (
      arith,
      block-append s rest saved.serialized_le,
      read_u32 (length s) (write_u32 (compute_crc32 s) ++ (s ++ rest)),
      read_u32 (compute_crc32 s) (s ++ rest),
      read_bytes-append (length s) s rest refl,
      le_value-write_u32 (length s),
      checked_entry_saved codec entry saved,
      saved.serialized_le,
      append-nil records,
    )

pub snapshot_blocks-cons :
    (codec : Codec) (entry : RegistryEntry) (entries : List RegistryEntry)
    (saved : IsSaved codec entry)
    → snapshot_blocks codec (entry ∷ entries)
      ≡ block saved.serialized ++ snapshot_blocks codec entries
unfolding snapshot_blocks
snapshot_blocks-cons codec entry entries saved = ground (arith, saved.serialize_some)

filter-cons :
    (p : RegistryEntry → Bool) (entry : RegistryEntry) (records entries : List RegistryEntry)
    → (records ++ filter p (entry ∷ [])) ++ filter p entries ≡ records ++ filter p (entry ∷ entries)
unfolding filter
filter-cons p entry records entries =
    append_assoc records (filter p (entry ∷ [])) (filter p entries)
    ∙ ap (λ t. records ++ t) (ground arith)

zero-add : (a : ℕ) → 0 + a ≡ a
zero-add a = omega arith

suc-add : (a b : ℕ) → suc a + b ≡ suc (a + b)
suc-add a b = omega arith

-- The loop on whole blocks with any text behind them.
pub read_wal-snapshot_blocks :
    (codec : Codec) (newest fuel : ℕ) (entries : List RegistryEntry) (rest : Bytes)
    (records : List RegistryEntry)
    → All (IsSaved codec) entries
    → read_wal codec newest (length entries + fuel) (snapshot_blocks codec entries ++ rest) records
      ≡ read_wal codec newest fuel rest (records ++ filter (newer_than newest) entries)
unfolding snapshot_blocks filter
read_wal-snapshot_blocks codec newest fuel [] rest records all =
    ap (λ t. read_wal codec newest t rest records) (zero-add fuel)
    ∙ ap (λ t. read_wal codec newest fuel rest t) (sym (append-nil records))
read_wal-snapshot_blocks codec newest fuel (entry ∷ entries) rest records (saved, all) =
    let more = snapshot_blocks codec entries ++ rest in
    let found = records ++ filter (newer_than newest) (entry ∷ []) in
    ap (λ t. read_wal codec newest t (snapshot_blocks codec (entry ∷ entries) ++ rest) records)
      (suc-add (length entries) fuel)
    ∙ ap (λ t. read_wal codec newest (suc (length entries + fuel)) t records)
        (ap (λ t. t ++ rest) (snapshot_blocks-cons codec entry entries saved)
          ∙ append_assoc (block saved.serialized) (snapshot_blocks codec entries) rest)
    ∙ read_wal-block codec newest (length entries + fuel) entry more records saved
    ∙ read_wal-snapshot_blocks codec newest fuel entries rest found all
    ∙ ap (λ t. read_wal codec newest fuel rest t)
        (filter-cons (newer_than newest) entry records entries)

pub length-snapshot_blocks :
    (codec : Codec) (entries : List RegistryEntry)
    → All (IsSaved codec) entries
    → length entries ≤ length (snapshot_blocks codec entries)
length-snapshot_blocks codec [] all = omega arith
length-snapshot_blocks codec (entry ∷ entries) (saved, all) = omega (
  arith,
  ap length (snapshot_blocks-cons codec entry entries saved),
  length-append (block saved.serialized) (snapshot_blocks codec entries),
  length-block saved.serialized (omega (arith, saved.serialized_le)),
  length-snapshot_blocks codec entries all,
)
