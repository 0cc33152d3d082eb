-- ===== src/IdentityStore/RoundTrip.antt =====
-- Two starts of a node: what the second makes of the files of the first.
use beacon_node.Base.{
  [], ◌∷◌, true, false, Option, none, some, if◌then◌else◌, length, ◌==◌, ◌≡◌, refl, ◌∙◌, ap, sym,
  subst, arith,
}
use beacon_node.Base.Text.{Bytes, codes, str_eq, str_eq_self}
use beacon_node.Crypto.{encode_hex}
use beacon_node.Crypto.{Ed25519Keypair, generate_ed25519_keypair}
use beacon_node.SecurePath.{resolve_secure_path}
use beacon_node.Tokens.Words.{IsLine}
use beacon_node.IdentityStore.Lines.{read_node_id, read_public_key, encode_hex-IsLine}
use beacon_node.IdentityStore.{
  NodeIdentity, Disk, content_of, write_file, read_value, Store, key_path_of, identity_text, load,
  create, load_or_create, expected_key_size, base_of,
}

key_path_other : (path : Bytes) → str_eq path (key_path_of path) ≡ false
unfolding str_eq
key_path_other [] = refl
key_path_other (c ∷ path) = ground (arith, key_path_other path)

-- The disk with the two files.
abbrev with_files : Disk → Bytes → Bytes → Bytes → Disk
with_files disk path key text = record disk {
  files = (path, text) ∷ (key_path_of path, key) ∷ Disk.files disk;
}

write_file_twice :
    (disk : Disk) (path key text : Bytes)
    → disk.writable path ≡ true
    → disk.writable (key_path_of path) ≡ true
    → write_file path text (write_file (key_path_of path) key disk) ≡ with_files disk path key text
unfolding write_file
write_file_twice disk path key text w w' = ground (arith, w, w')

load-with_files :
    (disk : Disk) (path key text : Bytes)
    → load (with_files disk path key text) path text ≡ (
        if length key == expected_key_size
        then some (record {
          node_id = read_value text (codes "node_id");
          public_key_hex = read_value text (codes "public_key_hex");
          private_key_path = key_path_of path;
        })
        else none)
unfolding load content_of
load-with_files disk path key text =
    ground (arith, key_path_other path, str_eq_self (key_path_of path))

content_of-with_files :
    (disk : Disk) (path key text : Bytes)
    → content_of path (with_files disk path key text).files ≡ some text
unfolding content_of
content_of-with_files disk path key text = ground (arith, str_eq_self path)

module _ (store : Store) (disk : Disk) (path node_id : Bytes)
    (generated : Option Ed25519Keypair) where
  pair : Ed25519Keypair
  pair = generate_ed25519_keypair generated

  made : NodeIdentity
  made = record {
    node_id = node_id;
    public_key_hex = encode_hex pair.public_key;
    private_key_path = key_path_of path;
  }

  after : Disk
  after = with_files disk path pair.secret_key (identity_text made)

  first_start :
      resolve_secure_path store.paths (base_of store) store.filename ≡ some path
      → content_of path disk.files ≡ none
      → disk.writable path ≡ true
      → disk.writable (key_path_of path) ≡ true
      → load_or_create store disk generated node_id ≡ (after, some made)
  unfolding load_or_create create after made pair
  first_start resolved new w w' =
      rw (resolved, new, load_or_create)
        (ap (λ d. (d, some made))
          (write_file_twice disk path pair.secret_key (identity_text made) w w'))

  read_again :
      IsLine node_id
      → load after path (identity_text made)
        ≡ (if length pair.secret_key == expected_key_size then some made else none)
  unfolding after made
  read_again line =
      load-with_files disk path pair.secret_key (identity_text made)
      ∙ rw (read_node_id made line, read_public_key made line (encode_hex-IsLine pair.public_key))
          refl

  loaded_later :
      (later : Option Ed25519Keypair) (other : Bytes)
      → resolve_secure_path store.paths (base_of store) store.filename ≡ some path
      → load_or_create store after later other ≡ (after, load after path (identity_text made))
  unfolding load_or_create after
  loaded_later later other resolved =
      rw
        (
          resolved,
          content_of-with_files disk path pair.secret_key (identity_text made),
          load_or_create,
        )
        refl

  -- A second start returns the identity that the first one made and wrote, if the two files could be written,
  -- the node id holds no line feed and the secret key has 64 bytes; of any other size it throws.
  pub load_or_create_twice :
      (later : Option Ed25519Keypair) (other : Bytes)
      → resolve_secure_path store.paths (base_of store) store.filename ≡ some path
      → content_of path disk.files ≡ none
      → disk.writable path ≡ true
      → disk.writable (key_path_of path) ≡ true
      → IsLine node_id
      → let first = load_or_create store disk generated node_id in
        (load_or_create store first.0 later other).1 ≡ (
          if length (generate_ed25519_keypair generated).secret_key == expected_key_size
          then first.1
          else none)
  unfolding pair
  load_or_create_twice later other resolved new w w' line =
      subst
        (λ first.
          (load_or_create store first.0 later other).1
          ≡ (if length pair.secret_key == expected_key_size then first.1 else none))
        (sym (first_start resolved new w w'))
        (ap (λ t. t.1) (loaded_later later other resolved) ∙ read_again line)
