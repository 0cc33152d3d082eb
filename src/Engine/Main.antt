-- ===== src/Engine/Main.antt =====
-- `main` of src/beacon_engine/main.cpp, up to the services that it starts.
use beacon_node.Base.{ℕ, List, [], ◌∷◌, Bool, Option, none, some, if◌then◌else◌}
use beacon_node.Base.Text.{Bytes}
use beacon_node.Config.{NodeConfig, BeaconConfig}
use beacon_node.Crypto.{Ed25519Keypair}
use beacon_node.Registry.{AgentRegistry, new_registry}
use beacon_node.Identity.{new_identity_service}
use beacon_node.Reputation.{new_engine}
use beacon_node.Gossip.{GossipPeer}
use beacon_node.Handshake.{encode_peer_hello}
use beacon_node.Control.{Env}
use beacon_node.SecurePath.{PathSystem}
use beacon_node.IdentityStore.{Store, NodeIdentity, load_or_create}
use beacon_node.IdentityStore
use beacon_node.Persistence.{Codec}
use beacon_node.Persistence
use beacon_node.Persistence.Paths.{default_persistence, new_persistence_service, recovery_paths}
use beacon_node.Engine.{Options, default_options, run, help, refused, parse_arguments, add_seeds}
use beacon_node.Engine.Restart.{Tick, start_registry, tick}

-- What the program finds: the build flags, the files, the clock at the start, and a generated key pair.
pub record Host : Type 0 where
  pub protobuf_enabled : Bool
  pub networking_enabled : Bool
  pub env : Env
  pub codec : Codec
  pub paths : PathSystem
  pub wal_opens : Bool
  pub disk : Persistence.Disk
  pub store : Store
  pub identity_disk : IdentityStore.Disk
  pub keypair : Option Ed25519Keypair

-- The objects of `main` before its loop.
pub record Running : Type 0 where
  pub options : Options
  pub registry : AgentRegistry
  pub identity : NodeIdentity
  pub peers : List GossipPeer
  pub hello : Bytes

-- How `main` goes on: it returns, an exception leaves it, or it starts its services, if the build
-- has them, and goes on in its loop.
pub data Exit : Type 0 where
  returned : ℕ → List Tick → Exit
  uncaught : Exit
  loops : Running → Exit

abbrev pub node_of : Options → NodeConfig
node_of o = BeaconConfig.node (Options.config o)

-- The registry with what the log holds, where the build has the log; none where an exception is thrown.
unfoldable pub registry_of : Host → Option AgentRegistry
registry_of host =
    if host.protobuf_enabled
    then elim (new_persistence_service host.paths default_persistence host.wal_opens host.disk) [
      | none ↦ none
      | some persistence ↦ elim (recovery_paths host.paths default_persistence) [
        | none ↦ none
        | some found ↦ start_registry host.codec (Env.now (Host.env host)) persistence
      ]
    ]
    else some new_registry

unfoldable pub peers_of : Host → Options → List GossipPeer
peers_of host o =
    if host.networking_enabled then add_seeds (node_of o) [] (Options.seed_nodes o) else []

unfoldable pub start_up : Host → Options → Option Running
unfolding registry_of peers_of
start_up host o = elim (registry_of host) [
  | none ↦ none
  | some registry ↦
      elim (load_or_create host.store host.identity_disk host.keypair
        (NodeConfig.node_id (node_of o))).1 [
          | none ↦ none
          | some identity ↦ some (record {
            options = o;
            registry = registry;
            identity = identity;
            peers = peers_of host o;
            hello = encode_peer_hello (record {
              node_id = NodeConfig.node_id (node_of o);
              listen_port = NodeConfig.listen_port (node_of o);
            });
          })
        ]
]

-- The only tick of `--once`, before any service is started.
unfoldable pub only_tick : Host → Running → Tick
only_tick host r =
    let config = Options.config (Running.options r) in
    (tick host.env
      (record { lifecycle = BeaconConfig.lifecycle config; trust = BeaconConfig.trust config })
      (BeaconConfig.gossip config) (new_engine (BeaconConfig.trust config))
      (NodeConfig.node_id (node_of (Running.options r))) (Running.registry r)
      new_identity_service).1

unfoldable pub main : Host → List Bytes → Exit
unfolding start_up only_tick
main host args = elim (parse_arguments default_options args) [
  | help ↦ returned 0 []
  | refused message ↦ returned 2 []
  | run o ↦ elim (start_up host o) [
    | none ↦ uncaught
    | some running ↦
        if Options.run_once o then returned 0 (only_tick host running ∷ []) else loops running
  ]
]
