-- ===== src/Examples/Start.antt =====
-- The arguments, the files and the log of a start, a signed record, and a hello.
use beacon_node.Base.{ℕ, zero, suc, [], ◌∷◌, ◌++◌, ◌≡◌, refl, none, some, true, false, arith, All}
use beacon_node.Base.Text.{Bytes, IsByte, codes, str_eq}
use beacon_node.Config.{default_config}
use beacon_node.Types.{AgentRecord}
use beacon_node.Registry.{stats, highest_revision}
use beacon_node.Crypto.{
  Ed25519Keypair, generate_ed25519_keypair, encode_hex, verify_agent_signature, valid,
}
use beacon_node.Crypto.Signing.{signed_with, verify_agent_signature-sign_ed25519}
use beacon_node.Numbers.{to_string}
use beacon_node.Tokens.{starts_with}
use beacon_node.SecurePath.{
  PathSystem, leaves, resolve_secure_path, Below, resolve_secure_path-Below,
}
use beacon_node.IdentityStore.{Disk, Store, content_of, load_or_create}
use beacon_node.IdentityStore.RoundTrip.{load_or_create_twice}
use beacon_node.Engine.Restart.{entry_of, record_of}
use beacon_node.Engine.Entries.{record_of-entry_of}
use beacon_node.Handshake.{PeerHello, encode_peer_hello, decode_peer_welcome}
use beacon_node.Handshake.Responder.{run, run-encode_peer_hello}
use beacon_node.Examples.Data.{agent, zeros, first_byte_sodium, two_agents}

-- Paths that are canonical as they stand.
abbrev pub plain_paths : PathSystem
plain_paths = record { canonical = λ p. some p; join = λ p q. p ++ (b'/' ∷ q) }

resolve_secure_path-Below_example :
    (base_abs : Bytes) × (some (codes "d") ≡ some base_abs)
    × Below base_abs (codes "d/identity.txt")
resolve_secure_path-Below_example =
    resolve_secure_path-Below plain_paths (codes "d") (codes "identity.txt")
      (codes "d/identity.txt") (unfold resolve_secure_path leaves starts_with in refl)

abbrev pub identity_file : Store
identity_file = record {
  paths = plain_paths;
  parent_path = codes "d";
  filename = codes "identity.txt";
}

abbrev pub empty_disk : Disk
empty_disk = record { files = []; writable = λ p. true }

-- A stand-in for a generated key pair.
abbrev pub keypair : Ed25519Keypair
keypair = record { public_key = zeros 32; secret_key = zeros 64 }

load_or_create_twice_example :
    (load_or_create identity_file
      (load_or_create identity_file empty_disk (some keypair) (codes "n1")).0
      none
      (codes "n2")).1
    ≡ (load_or_create identity_file empty_disk (some keypair) (codes "n1")).1
unfolding load_or_create generate_ed25519_keypair
load_or_create_twice_example =
    load_or_create_twice identity_file empty_disk (codes "d/identity.txt") (codes "n1")
      (some keypair) none (codes "n2") (unfold resolve_secure_path leaves starts_with in refl)
      (unfold content_of in refl) refl refl (refl, (refl, tt))

zeros-IsByte : (n : ℕ) → All IsByte (zeros n)
zeros-IsByte zero = tt
zeros-IsByte (suc n) = (omega arith, zeros-IsByte n)

verify_agent_signature-sign_ed25519_example :
    verify_agent_signature
      (some first_byte_sodium)
      (signed_with (λ payload key. zeros 64) (some keypair) (agent (codes "a") 3 100))
    ≡ valid
verify_agent_signature-sign_ed25519_example =
    verify_agent_signature-sign_ed25519 first_byte_sodium (λ payload key. zeros 64) keypair
      (agent (codes "a") 3 100)
      (record {
        public_size = refl;
        secret_size = refl;
        public_bytes = zeros-IsByte 32;
        signature_size = λ payload. refl;
        signature_all_bytes = λ payload. zeros-IsByte 64;
        verifies = λ payload. unfold str_eq in refl;
      })

abbrev agent_with_key : AgentRecord
agent_with_key = record (agent (codes "a") 3 100) {
  public_key_hex = encode_hex (1 ∷ []);
  signature_hex = encode_hex (2 ∷ []);
}

record_of-entry_of_example :
    record_of 700 (entry_of agent_with_key)
    ≡ record agent_with_key { metadata = []; expires_at = 700 }
record_of-entry_of_example =
    record_of-entry_of 700 agent_with_key (1 ∷ []) (2 ∷ []) (omega arith, tt) (omega arith, tt) refl
      refl

abbrev hello : PeerHello
hello = record { node_id = codes "n2"; listen_port = 43170 }

run-encode_peer_hello_example :
    (response : Bytes) × (run default_config.node (
        record {
          bytes = encode_peer_hello hello;
          registry = two_agents;
          stopping = false;
          sends = true;
        }
        ∷ [])
      ≡ some response ∷ run default_config.node [])
    × (decode_peer_welcome response
        ≡ some (record {
          node_id = default_config.node.node_id;
          registry_revision = (stats two_agents).highest_revision;
        }))
unfolding to_string
run-encode_peer_hello_example =
    run-encode_peer_hello default_config.node hello two_agents [] (ground arith, refl) (omega arith)
      (omega arith) (unfold encode_peer_hello in omega arith) (ground arith, refl)
      (unfold stats highest_revision in omega arith)
