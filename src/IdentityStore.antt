-- ===== src/IdentityStore.antt =====
-- src/beacon/identity_store.hpp and identity_store.cpp: the node's identity on disk.
--
-- The disk holds a content for some paths; a write to a path that is not writable does nothing, since the
-- program does not look at the state of its streams. The permissions of a file and the directories are
-- not part of it.
pub mod Lines
pub mod RoundTrip
use beacon_node.Base.{
  ℕ, List, [], ◌∷◌, ◌++◌, Bool, Option, none, some, if◌then◌else◌, length, is_empty, not, ◌==◌,
}
use beacon_node.Base.Text.{Bytes, codes, str_eq}
use beacon_node.Tokens.{after_equals, before_equals}
use beacon_node.Crypto.{encode_hex, Ed25519Keypair, generate_ed25519_keypair}
use beacon_node.SecurePath.{PathSystem, resolve_secure_path}
use beacon_node.Sync.Client.{scan_lines}

abbrev pub expected_key_size : ℕ
expected_key_size = 64

pub record NodeIdentity : Type 0 where
  pub node_id : Bytes
  pub public_key_hex : Bytes
  pub private_key_path : Bytes

-- The contents of the files, the last write first.
pub record Disk : Type 0 where
  pub files : List (Bytes × Bytes)
  pub writable : Bytes → Bool

unfoldable pub content_of : Bytes → List (Bytes × Bytes) → Option Bytes
content_of path [] = none
content_of path ((p, content) ∷ files) =
    let rest = content_of path files in if str_eq p path then some content else rest

-- `std::ofstream(path, std::ios::trunc)` and what is written to it.
unfoldable pub write_file : Bytes → Bytes → Disk → Disk
write_file path content disk =
    if disk.writable path then record disk { files = (path, content) ∷ disk.files } else disk

-- `line.find('=')`, the text before it and the text behind it.
unfoldable pub value_of_line : Bytes → Bytes → Option Bytes
value_of_line key line = elim (after_equals line) [
  | none ↦ none
  | some value ↦ if str_eq (before_equals line) key then some value else none
]

unfoldable pub find_value : Bytes → List Bytes → Bytes
unfolding value_of_line
find_value key [] = []
find_value key (line ∷ lines) = elim (value_of_line key line) [
  | none ↦ find_value key lines
  | some value ↦ value
]

unfoldable pub read_value : Bytes → Bytes → Bytes
unfolding find_value scan_lines
read_value content key = find_value key (scan_lines [] content)

-- `path.parent_path()` and `path.filename()`
pub record Store : Type 0 where
  pub paths : PathSystem
  pub parent_path : Bytes
  pub filename : Bytes

-- `base_dir`
abbrev pub base_of : Store → Bytes
base_of store = if is_empty (Store.parent_path store) then codes "." else Store.parent_path store

-- `key_path += ".key"`
abbrev pub key_path_of : Bytes → Bytes
key_path_of config_path = config_path ++ codes ".key"

-- What the function writes to the identity file.
unfoldable pub identity_text : NodeIdentity → Bytes
identity_text identity =
    (codes "node_id=" ++ (identity.node_id ++ b'\n' ∷ []))
    ++ ((codes "public_key_hex=" ++ (identity.public_key_hex ++ b'\n' ∷ []))
        ++ (codes "private_key_path=" ++ (identity.private_key_path ++ b'\n' ∷ [])))

-- The branch of a file that exists; none where it throws.
unfoldable pub load : Disk → Bytes → Bytes → Option NodeIdentity
unfolding read_value
load disk config_path content = elim (content_of (key_path_of config_path) disk.files) [
  | none ↦ none
  | some key ↦
      if not (length key == expected_key_size)
      then none
      else some (record {
        node_id = read_value content (codes "node_id");
        public_key_hex = read_value content (codes "public_key_hex");
        private_key_path = key_path_of config_path;
      })
]

unfoldable pub create : Disk → Bytes → Ed25519Keypair → Bytes → Disk × NodeIdentity
unfolding write_file identity_text
create disk config_path keypair node_id =
    let identity : NodeIdentity = record {
      node_id = node_id;
      public_key_hex = encode_hex keypair.public_key;
      private_key_path = key_path_of config_path;
    } in
    (
      write_file config_path (identity_text identity)
          (write_file (key_path_of config_path) keypair.secret_key disk),
      identity,
    )

-- The disk after the call, and the identity, or none where the call throws.
unfoldable pub load_or_create :
    Store → Disk → Option Ed25519Keypair → Bytes → Disk × Option NodeIdentity
unfolding load create generate_ed25519_keypair
load_or_create store disk generated node_id =
    elim (resolve_secure_path store.paths (base_of store) store.filename) [
      | none ↦ (disk, none)
      | some config_path ↦ elim (content_of config_path disk.files) [
        | some content ↦ (disk, load disk config_path content)
        | none ↦
            let made = create disk config_path (generate_ed25519_keypair generated) node_id in
            (made.0, some made.1)
      ]
    ]
