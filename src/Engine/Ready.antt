-- ===== src/Engine/Ready.antt =====
-- What `main` of src/beacon_engine/main.cpp has made when it enters its loop.
use beacon_node.Base.{
  List, [], ◌∷◌, ◌≡◌, Bool, true, false, Option, none, some, arith, refl, map, Bool-cases, inl, inr,
  subst, sym,
}
use beacon_node.Base.Text.{Bytes}
use beacon_node.Types.{TimePoint}
use beacon_node.Config.{NodeConfig}
use beacon_node.Gossip.{GossipPeer, add_peer}
use beacon_node.Gossip.Rounds.{HasAddresses, add_peer_lem}
use beacon_node.Registry.{AgentRegistry, new_registry, set_upsert_callback}
use beacon_node.Registry.Distinct.{IsValid}
use beacon_node.Registry.Invariant.{new_registry-IsValid, load_from_persistence-IsValid}
use beacon_node.Persistence.{RegistryEntry, Codec, PersistenceService}
use beacon_node.Persistence.Recovery.{
  Recovery, recovered, too_many_records, entry_too_large, trailing_bytes, out_of_fuel, recover,
}
use beacon_node.Persistence.Paths.{default_persistence, new_persistence_service, recovery_paths}
use beacon_node.IdentityStore.{NodeIdentity, load_or_create}
use beacon_node.Engine.{
  Options, default_options, CommandLine, run, help, refused, parse_arguments, add_seeds, seed_peer,
}
use beacon_node.Engine.Arguments.{HasPorts, Runs, parse_arguments-HasPorts}
use beacon_node.Engine.Restart.{record_of, restore, start_registry}
use beacon_node.Engine.Main.{
  Host, Running, Exit, returned, uncaught, loops, registry_of, peers_of, start_up, main, node_of,
}

pub restore-IsValid :
    (now : TimePoint) (entries : List RegistryEntry) → IsValid (restore now entries)
unfolding restore
restore-IsValid now [] = new_registry-IsValid
restore-IsValid now (e ∷ entries) =
    load_from_persistence-IsValid now new_registry (map (record_of now) (e ∷ entries))
      new_registry-IsValid

-- The registry has distinct ids, and the callback exactly if the build has the log.
pub record IsSetUp (logs : Bool) (g : AgentRegistry) : Type 0 where
  pub valid : IsValid g
  pub callback : g.has_callback ≡ logs

abbrev Holds {ℓ} : {A : Type ℓ} → (A → Type 0) → Option A → Type 0
Holds P none = Unit
Holds P (some a) = P a

start_registry-IsSetUp :
    (codec : Codec) (now : TimePoint) (p : PersistenceService)
    → Holds (IsSetUp true) (start_registry codec now p)
unfolding start_registry set_upsert_callback
start_registry-IsSetUp codec now p = by_recovery (recover codec p) refl
  where
    by_recovery :
        (r : Recovery) → recover codec p ≡ r → Holds (IsSetUp true) (start_registry codec now p)
    by_recovery (recovered entries) e =
        rw (e, start_registry)
          (record {
            valid = record { distinct = (restore-IsValid now entries).distinct };
            callback = refl;
          })
    by_recovery (too_many_records n) e = rw (e, start_registry) tt
    by_recovery (entry_too_large n) e = rw (e, start_registry) tt
    by_recovery trailing_bytes e = rw (e, start_registry) tt
    by_recovery out_of_fuel e = rw (e, start_registry) tt

registry_of-IsSetUp : (host : Host) → Holds (IsSetUp host.protobuf_enabled) (registry_of host)
unfolding registry_of
registry_of-IsSetUp host = by_build host.protobuf_enabled refl
  where
    by_paths :
        (enabled : host.protobuf_enabled ≡ true) (opened : Option PersistenceService)
        (found : Option (Bytes × Bytes))
        → new_persistence_service host.paths default_persistence host.wal_opens host.disk ≡ opened
        → recovery_paths host.paths default_persistence ≡ found
        → Holds (IsSetUp true) (registry_of host)
    by_paths enabled none found e q = rw (enabled, e, registry_of) tt
    by_paths enabled (some p) none e q = rw (enabled, e, q, registry_of) tt
    by_paths enabled (some p) (some paths) e q =
        rw (enabled, e, q, registry_of) (start_registry-IsSetUp host.codec host.env.now p)

    by_build :
        (enabled : Bool)
        → host.protobuf_enabled ≡ enabled
        → Holds (IsSetUp host.protobuf_enabled) (registry_of host)
    by_build true e =
        subst (λ b. Holds (IsSetUp b) (registry_of host)) (sym e)
          (by_paths e
            (new_persistence_service host.paths default_persistence host.wal_opens host.disk)
            (recovery_paths host.paths default_persistence) refl refl)
    by_build false e =
        subst (λ b. Holds (IsSetUp b) (registry_of host)) (sym e)
          (rw (e, registry_of) (record { valid = new_registry-IsValid; callback = refl }))

add_seeds-HasAddresses :
    (node : NodeConfig) (peers : List GossipPeer) (seeds : List Bytes)
    → HasAddresses peers
    → HasAddresses (add_seeds node peers seeds)
unfolding add_seeds
add_seeds-HasAddresses node peers [] h = h
add_seeds-HasAddresses node peers (seed ∷ seeds) h =
    add_seeds-HasAddresses node (add_peer peers (seed_peer node seed)) seeds
      (add_peer_lem peers (seed_peer node seed) h).0

-- The ports are ports, the registry is set up, and no two peers have one address.
pub record IsReady (host : Host) (r : Running) : Type 0 where
  pub ports : HasPorts r.options
  pub registry : IsSetUp host.protobuf_enabled r.registry
  pub peers : HasAddresses r.peers

-- What holds of the objects with which the program enters its loop, if it does.
abbrev pub Loops : (Running → Type 0) → Exit → Type 0
Loops P (returned status ticks) = Unit
Loops P uncaught = Unit
Loops P (loops r) = P r

start_up-IsReady : (host : Host) (o : Options) → HasPorts o → Holds (IsReady host) (start_up host o)
unfolding start_up peers_of
start_up-IsReady host o ports = by_registry (registry_of host) refl (registry_of-IsSetUp host)
  where
    peers : HasAddresses (peers_of host o)
    peers = elim (Bool-cases host.networking_enabled) [
      | inl e ↦ rw (e, peers_of) (add_seeds-HasAddresses (node_of o) [] o.seed_nodes tt)
      | inr e ↦ rw (e, peers_of) tt
    ]

    by_identity :
        (g : AgentRegistry) (identity : Option NodeIdentity)
        → registry_of host ≡ some g
        → (load_or_create host.store host.identity_disk host.keypair (node_of o).node_id).1
          ≡ identity
        → IsSetUp host.protobuf_enabled g
        → Holds (IsReady host) (start_up host o)
    by_identity g none e q h = rw (e, q, start_up) tt
    by_identity g (some identity) e q h =
        rw (e, q, start_up) (record { ports = ports; registry = h; peers = peers })

    by_registry :
        (found : Option AgentRegistry)
        → registry_of host ≡ found
        → Holds (IsSetUp host.protobuf_enabled) found
        → Holds (IsReady host) (start_up host o)
    by_registry none e h = rw (e, start_up) tt
    by_registry (some g) e h =
        by_identity g
          (load_or_create host.store host.identity_disk host.keypair (node_of o).node_id).1 e refl h

default-HasPorts : HasPorts default_options
default-HasPorts = ((omega arith, omega arith), (omega arith, omega arith))

-- Whatever the arguments, the files, the clock and the build are: if the program enters its loop, its ports are
-- from 1 to 65535, the ids of its registry are distinct, the callback is set exactly in a build with the log,
-- and no two of its peers have one address.
pub main-IsReady : (host : Host) (args : List Bytes) → Loops (IsReady host) (main host args)
unfolding main
main-IsReady host args =
    by_arguments (parse_arguments default_options args) refl
      (parse_arguments-HasPorts default_options args default-HasPorts)
  where
    by_start :
        (o : Options) (started : Option Running)
        → parse_arguments default_options args ≡ run o
        → start_up host o ≡ started
        → Holds (IsReady host) started
        → Loops (IsReady host) (main host args)
    by_start o none e q h = rw (e, q, main) tt
    by_start o (some r) e q h = elim (Bool-cases o.run_once) [
      | inl once ↦ rw (e, q, once, main) tt
      | inr on ↦ rw (e, q, on, main) h
    ]

    by_arguments :
        (c : CommandLine)
        → parse_arguments default_options args ≡ c
        → Runs HasPorts c
        → Loops (IsReady host) (main host args)
    by_arguments help e h = rw (e, main) tt
    by_arguments (refused message) e h = rw (e, main) tt
    by_arguments (run o) e h = by_start o (start_up host o) e refl (start_up-IsReady host o h)
