-- ===== src/Node.antt =====
-- A running node: the registry, the identity service and the log, which the threads of
-- src/beacon_engine/main.cpp share, as a step relation.
--
-- A step is one method call of `AgentRegistry` or `IdentityService`, which holds the mutex of its object, or
-- one call of the registry's callback, which runs after the registry's mutex is released. Steps of the
-- control server, the gossip service and the main loop interleave in any order. `pending` holds the
-- records of the callbacks that have not run yet, and `logged` those that have, in their order.
pub mod Covered
pub mod Invariant
pub mod Ticks
pub mod Handlers
pub mod Frames
pub mod Service
pub mod Rounds
pub mod Timer
pub mod Replay
pub mod Durability
pub mod Restored
pub mod FirstTick
pub mod Restart
use beacon_node.Base.{ℕ, List, [], ◌∷◌, ◌++◌, ◌≡◌, ◌≤◌, true, Option}
use beacon_node.Base.Text.{Bytes}
use beacon_node.Types.{AgentRecord, TimePoint}
use beacon_node.Crypto.{Sodium}
use beacon_node.SecureBuffer.{Allocator}
use beacon_node.Identity.{IdentityService, new_identity_service, verify_and_register}
use beacon_node.Registry.{
  AgentRegistry, new_registry, set_upsert_callback, upsert, refresh_heartbeat, purge_expired,
}

pub record Node : Type 0 where
  pub registry : AgentRegistry
  pub identity : IdentityService
  pub pending : List AgentRecord
  pub logged : List AgentRecord

-- The first start, without files.
abbrev pub first_start : Node
first_start = record {
  registry = record new_registry { has_callback = true };
  identity = new_identity_service;
  pending = [];
  logged = [];
}

pub data Step (fresh : Allocator) (sodium : Option Sodium) (n : Node) : Node → Type 0 where
  store :
      (r : AgentRecord)
      → Step fresh sodium n (record n {
        registry = (upsert n.registry r).registry;
        pending = n.pending ++ (upsert n.registry r).notified;
      })
  log :
      (before after : List AgentRecord) (r : AgentRecord)
      → n.pending ≡ before ++ r ∷ after
      → Step fresh sodium n (record n { pending = before ++ after; logged = n.logged ++ r ∷ [] })
  renew :
      (agent_id : Bytes) (expires_at : TimePoint) (revision : ℕ)
      → Step fresh sodium n
          (record n { registry = (refresh_heartbeat n.registry agent_id expires_at revision).0 })
  expire :
      (now : TimePoint)
      → Step fresh sodium n (record n { registry = (purge_expired n.registry now).0 })
  pin :
      (r : AgentRecord)
      → Step fresh sodium n
          (record n { identity = (verify_and_register fresh sodium n.identity r).0 })

-- The states that steps lead to.
pub data Reach (fresh : Allocator) (sodium : Option Sodium) (m : Node) : Node → Type 0 where
  here : Reach fresh sodium m m
  next : {n o : Node} → Reach fresh sodium m n → Step fresh sodium n o → Reach fresh sodium m o

-- A record that is stored or logged, with another expiry and a revision that is not smaller.
pub record Renewed (logged stored : AgentRecord) : Type 0 where
  pub same : stored ≡ record logged { expires_at = stored.expires_at; revision = stored.revision }
  pub newer : logged.revision ≤ stored.revision
