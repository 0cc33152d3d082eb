-- ===== src/Gossip/Service.antt =====
-- A round of src/beacon_net/gossip_service.cpp.
--
-- The network is a parameter: `send` is one connection to the control port of a peer, as for the sync
-- client, and `datagram` a call of `send_to`, whose exception is caught and changes nothing else.
use beacon_node.Base.{
  ℕ, zero, suc, List, [], ◌∷◌, ◌++◌, Option, none, some, if◌then◌else◌, is_empty, length,
}
use beacon_node.Base.Text.{Bytes}
use beacon_node.Config.{NodeConfig, GossipConfig}
use beacon_node.Types.{AgentRecord}
use beacon_node.Identity.{IdentityService}
use beacon_node.Registry.{AgentRegistry}
use beacon_node.Control.{Env}
use beacon_node.Handshake.{gossip_heartbeat}
use beacon_node.Gossip.{GossipPeer, Shuffler, pick_random_indices, gossip_fanout}
use beacon_node.Sync.Client.{SyncOutcome, sync_with_peer}

pub record Network (W : Type 0) : Type 0 where
  pub send : GossipPeer → W → Bytes → W × Option Bytes
  pub datagram : GossipPeer → W → Bytes → W

-- What a service reads of its members, and the state of `std::shuffle`.
pub record GossipService : Type 0 where
  pub config : NodeConfig
  pub gossip_config : GossipConfig
  pub shuffler : Shuffler

pub record RoundOutcome (W : Type 0) : Type 0 where
  pub registry : AgentRegistry
  pub identity : Option IdentityService
  pub network : W
  pub notified : List AgentRecord

-- `current_peers[idx]`; a read past the vector has no defined behaviour, and is none here.
unfoldable pub peer_at : List GossipPeer → ℕ → Option GossipPeer
peer_at [] i = none
peer_at (peer ∷ peers) zero = some peer
peer_at (peer ∷ peers) (suc i) = peer_at peers i

module _ {W : Type 0} (net : Network W) (service : GossipService) (env : Env) where
  unfoldable pub sync_with_peer_tcp :
      AgentRegistry → Option IdentityService → W → GossipPeer → RoundOutcome W
  sync_with_peer_tcp g identity w peer =
      let result =
        sync_with_peer (Network.send net peer) env
          (GossipConfig.max_registry_items_per_round service.gossip_config) g identity w in
      record {
        registry = SyncOutcome.registry result;
        identity = SyncOutcome.identity result;
        network = SyncOutcome.peer result;
        notified = SyncOutcome.notified result;
      }

  -- The body of the loop over the indices, for the peer at the index.
  unfoldable pub gossip_with :
      AgentRegistry → Option IdentityService → W → GossipPeer → RoundOutcome W
  unfolding sync_with_peer_tcp
  gossip_with g identity w peer =
      let sent = Network.datagram net peer w (gossip_heartbeat service.config) in
      sync_with_peer_tcp g identity sent peer

  -- The loop over the indices; none where one of them reads past the peers.
  unfoldable pub gossip_loop :
      List GossipPeer
      → AgentRegistry
      → Option IdentityService
      → W
      → List ℕ
      → Option (RoundOutcome W)
  unfolding peer_at gossip_with
  gossip_loop peers g identity w [] =
      some (record { registry = g; identity = identity; network = w; notified = [] })
  gossip_loop peers g identity w (i ∷ is) = elim (peer_at peers i) [
    | none ↦ none
    | some peer ↦
        let first = gossip_with g identity w peer in
        elim (gossip_loop peers (RoundOutcome.registry first) (RoundOutcome.identity first)
          (RoundOutcome.network first) is) [
            | none ↦ none
            | some rest ↦ some (record rest {
              notified = RoundOutcome.notified first ++ RoundOutcome.notified rest;
            })
          ]
  ]

  unfoldable pub perform_gossip_round :
      List GossipPeer → AgentRegistry → Option IdentityService → W → Option (RoundOutcome W)
  unfolding gossip_loop
  perform_gossip_round peers g identity w =
      if is_empty peers
      then some (record { registry = g; identity = identity; network = w; notified = [] })
      else gossip_loop peers g identity w
          (pick_random_indices service.shuffler (length peers) gossip_fanout)
