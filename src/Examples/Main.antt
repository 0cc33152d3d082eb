-- ===== src/Examples/Main.antt =====
-- A program that enters its loop, and one that runs once.
use beacon_node.Base.{ℕ, length, List, [], ◌∷◌, ◌≡◌, refl, none, some, true}
use beacon_node.Base.Text.{Bytes, codes, str_eq}
use beacon_node.Engine.{parse_arguments, apply_flag, apply_option, add_seeds}
use beacon_node.Engine.Restart.{start_registry}
use beacon_node.Gossip.{add_peer}
use beacon_node.IdentityStore.{load_or_create, content_of}
use beacon_node.Persistence.{open_wal}
use beacon_node.Persistence.Paths.{new_persistence_service, recovery_paths}
use beacon_node.Persistence.Recovery.{recover}
use beacon_node.SecurePath.{resolve_secure_path}
use beacon_node.Tokens.{starts_with}
use beacon_node.Engine.Main.{Host, Exit, loops, main}
use beacon_node.Engine.Ready.{Loops, IsReady, main-IsReady}
use beacon_node.Examples.Control.{env}
use beacon_node.Examples.Persistence.{plain}
use beacon_node.Examples.Start.{plain_paths, identity_file, empty_disk, keypair}

abbrev host : Host
host = record {
  protobuf_enabled = true;
  networking_enabled = true;
  env = env;
  codec = plain;
  paths = plain_paths;
  wal_opens = true;
  disk = record { wal = none; snapshot = none; temporary = none };
  store = identity_file;
  identity_disk = empty_disk;
  keypair = some keypair;
}

abbrev arguments : List Bytes
arguments =
    codes "--listen-port"
    ∷ codes "5001"
    ∷ codes "--seed-node"
    ∷ codes "h:43171"
    ∷ codes "--seed-node"
    ∷ codes "h:43171"
    ∷ []

main-IsReady_example : Loops (IsReady host) (main host arguments)
main-IsReady_example = main-IsReady host arguments

abbrev peer_count : Exit → ℕ
peer_count (loops r) = length r.peers
peer_count _ = 0

-- The program enters its loop, with one peer for the two arguments.
enters_loop : peer_count (main host arguments) ≡ 1
unfolding main parse_arguments str_eq apply_flag apply_option new_persistence_service
    resolve_secure_path starts_with recovery_paths start_registry recover open_wal load_or_create
    content_of add_seeds add_peer
enters_loop = refl
