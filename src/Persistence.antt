-- ===== src/Persistence.antt =====
-- src/beacon_net/persistence_service.hpp and persistence_service.cpp: the write-ahead log and the snapshot
-- of the registry, and their recovery.
--
-- The code that protobuf generates is a parameter (`Codec`). The three files that the service touches
-- are byte strings; `none` is a file that is not there. A 32-bit number is written as the host holds it,
-- lowest byte first. Whether a file can be opened or renamed is an argument (`FileSystem`); paths are
-- resolved once and for all, and writes to an open file succeed. The mutex is held throughout each method.
pub mod Crc
pub mod Blocks
pub mod Recovery
pub mod Paths
pub mod Wal
pub mod Replay
pub mod Snapshot
pub mod Termination
use Prim.Native.Nat.{bit_xor}
use beacon_node.Base.{
  ℕ, zero, suc, ◌+◌, ◌-◌, ◌*◌, ◌/◌, ◌%◌, ◌^◌, max, List, [], ◌∷◌, ◌++◌, Bool, true, false, not,
  Option, none, some, ltb, leb, ◌==◌, if◌then◌else◌, length, take, drop,
}
use beacon_node.Base.Text.{Bytes}

-- proto/beaconnode/v1/gossip.proto
pub record RegistryEntry : Type 0 where
  pub agent_id : Bytes
  pub capability : Bytes
  pub endpoint : Bytes
  pub timestamp : ℕ
  pub public_key : Bytes
  pub signature : Bytes

-- `SerializeToString` and `ParseFromString`
pub record Codec : Type 0 where
  pub serialize : RegistryEntry → Option Bytes
  pub parse : Bytes → Option RegistryEntry

abbrev crc_polynomial : ℕ
crc_polynomial = 0xEDB88320

-- One of the eight rounds on a byte.
unfoldable pub crc_bit : ℕ → ℕ
crc_bit crc = if crc % 2 == 1 then bit_xor (crc / 2) crc_polynomial else crc / 2

unfoldable pub crc_bits : ℕ → ℕ → ℕ
crc_bits zero crc = crc
crc_bits (suc rounds) crc = crc_bits rounds (crc_bit crc)

unfoldable pub crc_bytes : ℕ → Bytes → ℕ
crc_bytes crc [] = crc
crc_bytes crc (c ∷ s) = crc_bytes (crc_bits 8 (bit_xor crc c)) s

-- `~crc` of a `uint32_t`
unfoldable pub compute_crc32 : Bytes → ℕ
unfolding crc_bytes crc_bits crc_bit
compute_crc32 s = 0xFFFFFFFF - crc_bytes 0xFFFFFFFF s

-- `fwrite(&value, sizeof(value), 1, file)`
unfoldable pub write_u32 : ℕ → Bytes
write_u32 n = n % 256 ∷ n / 2 ^ 8 % 256 ∷ n / 2 ^ 16 % 256 ∷ n / 2 ^ 24 % 256 ∷ []

-- The number in bytes that are read into a zeroed variable, lowest byte first.
unfoldable pub le_value : Bytes → ℕ
le_value [] = 0
le_value (b ∷ bs) = b + 256 * le_value bs

-- `stream.read(buffer, n)`: the bytes and the rest; none if fewer are left, and all are then consumed.
unfoldable pub read_bytes : ℕ → Bytes → Option (Bytes × Bytes)
read_bytes n s = if ltb (length s) n then none else some (take n s, drop n s)

pub record Disk : Type 0 where
  pub wal : Option Bytes
  pub snapshot : Option Bytes
  pub temporary : Option Bytes

-- `is_open` says whether `wal_file_` is not null.
pub record PersistenceService : Type 0 where
  pub disk : Disk
  pub is_open : Bool

pub record FileSystem : Type 0 where
  pub temporary_opens : Bool
  pub rename_works : Bool
  pub wal_truncates : Bool
  pub wal_opens : Bool

abbrev pub contents : Option Bytes → Bytes
contents none = []
contents (some s) = s

-- `fopen(path, "ab")`, which makes an empty file where there is none
unfoldable pub open_wal : Bool → Disk → PersistenceService
open_wal opens disk =
    if opens
    then record { disk = record disk { wal = some (contents (Disk.wal disk)) }; is_open = true }
    else record { disk = disk; is_open = false }

-- Size, checksum and text of a serialized entry; the size is cast to 32 bits.
unfoldable pub block : Bytes → Bytes
unfolding write_u32
block serialized =
    let size = length serialized % 2 ^ 32 in
    write_u32 size ++ (write_u32 (compute_crc32 serialized) ++ take size serialized)

unfoldable pub append_entry : Codec → PersistenceService → RegistryEntry → PersistenceService
append_entry codec p entry = if not p.is_open then p else elim (Codec.serialize codec entry) [
  | none ↦ p
  | some serialized ↦ record p {
    disk = record p.disk {
      wal = some (contents (Disk.wal (PersistenceService.disk p)) ++ block serialized);
    };
  }
]

-- The records of a snapshot; one that is not serialized is left out.
unfoldable pub snapshot_blocks : Codec → List RegistryEntry → Bytes
snapshot_blocks codec [] = []
snapshot_blocks codec (entry ∷ entries) = elim (Codec.serialize codec entry) [
  | none ↦ snapshot_blocks codec entries
  | some serialized ↦ block serialized ++ snapshot_blocks codec entries
]

unfoldable pub snapshot_file : Codec → List RegistryEntry → Bytes
unfolding write_u32
snapshot_file codec entries = write_u32 (length entries % 2 ^ 32) ++ snapshot_blocks codec entries

-- `rename(tmp_path, snapshot_path)`
unfoldable pub rename_snapshot : Bool → Disk → Disk
rename_snapshot works disk =
    if works then record disk { snapshot = Disk.temporary disk; temporary = none } else disk

unfoldable pub truncate_wal : Bool → Disk → Disk
truncate_wal works disk = if works then record disk { wal = some [] } else disk

unfoldable pub create_snapshot :
    Codec → FileSystem → PersistenceService → List RegistryEntry → PersistenceService
unfolding open_wal rename_snapshot truncate_wal
create_snapshot codec fs p entries =
    if not fs.temporary_opens
    then open_wal fs.wal_opens p.disk
    else let written = record p.disk { temporary = some (snapshot_file codec entries) } in
      open_wal fs.wal_opens
        (truncate_wal fs.wal_truncates (rename_snapshot fs.rename_works written))
