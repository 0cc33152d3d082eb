-- ===== src/Node/Rounds.antt =====
-- The synchronisations and the rounds of the gossip service as runs of steps.
use beacon_node.Base.{
  ℕ, zero, suc, ◌<◌, List, [], ◌∷◌, ◌++◌, ◌≡◌, inl, inr, refl, sym, subst, Option, none, some, All,
  is_empty, length, Bool-cases, arith,
}
use beacon_node.Base.Text.{Bytes, codes}
use beacon_node.Types.{AgentRecord, RegistryStats}
use beacon_node.Identity.{IdentityService}
use beacon_node.Registry.{AgentRegistry, stats}
use beacon_node.Merge.{merge}
use beacon_node.Control.{Env}
use beacon_node.Sync.{encode_sync_pull_command}
use beacon_node.Sync.Client.{sync_with_peer, parse_agent_lines}
use beacon_node.Gossip.{GossipPeer, pick_random_indices, gossip_fanout}
use beacon_node.Gossip.Rounds.{pick_random_indices_lem}
use beacon_node.Gossip.Service.{
  Network, GossipService, RoundOutcome, peer_at, sync_with_peer_tcp, gossip_with, gossip_loop,
  perform_gossip_round,
}
use beacon_node.Node.{Node, Reach}
use beacon_node.Node.Handlers.{
  settle, settle-here, settle_trans, merge-Reach, merge-HasService, HasService, HasService-service,
}

module _ {W : Type 0} (send : W → Bytes → W × Option Bytes) (env : Env) (max_entries : ℕ) where
  -- What holds of the state before, and of the state after the merge of every response, holds after a
  -- synchronisation.
  pub sync_keeps :
      (P : AgentRegistry → Option IdentityService → List AgentRecord → Type 0) (g : AgentRegistry)
      (identity : Option IdentityService) (w : W)
      → P g identity []
      → ((rs : List AgentRecord)
          → let m = merge env.fresh env.sodium g identity rs in P m.registry m.identity m.notified)
      → let s = sync_with_peer send env max_entries g identity w in
        P s.registry s.identity s.notified
  unfolding sync_with_peer
  sync_keeps P g identity w before merged = asked (send w (codes "STATS")).1 refl
    where
      pulled :
          (remote_stats : Bytes)
          → (send w (codes "STATS")).1 ≡ some remote_stats
          → (response : Option Bytes)
          → (send
              (send w (codes "STATS")).0
              (encode_sync_pull_command (RegistryStats.highest_revision (stats g)) max_entries)).1
            ≡ response
          → let s = sync_with_peer send env max_entries g identity w in
            P s.registry s.identity s.notified
      pulled remote_stats e none q = rw (e, q, sync_with_peer) before
      pulled remote_stats e (some response) q =
          rw (e, q, sync_with_peer) (merged (parse_agent_lines env.now response))

      asked :
          (remote_stats : Option Bytes)
          → (send w (codes "STATS")).1 ≡ remote_stats
          → let s = sync_with_peer send env max_entries g identity w in
            P s.registry s.identity s.notified
      asked none e = rw (e, sync_with_peer) before
      asked (some remote_stats) e =
          pulled remote_stats e
            (send (send w (codes "STATS")).0
              (encode_sync_pull_command (RegistryStats.highest_revision (stats g)) max_entries)).1
            refl

module _ {W : Type 0} (net : Network W) (service : GossipService) (env : Env) where
  gossip_with-Reach :
      (n : Node) (w : W) (peer : GossipPeer)
      → let o = gossip_with net service env n.registry (some n.identity) w peer in
        Reach env.fresh env.sodium n (settle n o.registry o.identity o.notified)
  unfolding gossip_with sync_with_peer_tcp
  gossip_with-Reach n w peer =
      sync_keeps (Network.send net peer) env service.gossip_config.max_registry_items_per_round
        (λ g i l. Reach env.fresh env.sodium n (settle n g i l)) n.registry (some n.identity) _
        (settle-here env.fresh env.sodium n) (λ rs. merge-Reach env.fresh env.sodium rs n)

  gossip_with-HasService :
      (g : AgentRegistry) (s : IdentityService) (w : W) (peer : GossipPeer)
      → HasService (gossip_with net service env g (some s) w peer).identity
  unfolding gossip_with sync_with_peer_tcp
  gossip_with-HasService g s w peer =
      sync_keeps (Network.send net peer) env service.gossip_config.max_registry_items_per_round
        (λ h i l. HasService i) g (some s) _ tt (λ rs. merge-HasService env.fresh env.sodium rs g s)

  -- The loop of a round ends without a read past the peers, and what it did is a run of steps.
  pub record Completes (n : Node) (done : Option (RoundOutcome W)) : Type 0 where
    pub outcome : RoundOutcome W
    pub returns : done ≡ some outcome
    pub has : HasService outcome.identity
    pub reached :
        Reach env.fresh env.sodium n (settle n outcome.registry outcome.identity outcome.notified)

  peer_at-some :
      (peers : List GossipPeer) (i : ℕ)
      → i < length peers
      → (p : GossipPeer) × (peer_at peers i ≡ some p)
  unfolding peer_at
  peer_at-some [] i h = absurd (omega arith)
  peer_at-some (p ∷ peers) zero h = (p, refl)
  peer_at-some (p ∷ peers) (suc i) h = peer_at-some peers i (omega arith)

  pub nothing_done :
      (n : Node) (w : W)
      → Completes n (
          some (record {
            registry = n.registry;
            identity = some n.identity;
            network = w;
            notified = [];
          }))
  nothing_done n w = record {
    outcome = record {
      registry = n.registry;
      identity = some n.identity;
      network = w;
      notified = [];
    };
    returns = refl;
    has = tt;
    reached = settle-here env.fresh env.sodium n;
  }

  gossip_loop-Completes :
      (peers : List GossipPeer) (is : List ℕ) (n : Node) (w : W)
      → All (λ i. i < length peers) is
      → Completes n (gossip_loop net service env peers n.registry (some n.identity) w is)
  unfolding gossip_loop
  gossip_loop-Completes peers [] n w h = nothing_done n w
  gossip_loop-Completes peers (i ∷ is) n w (hi, h) =
      let peer = (peer_at-some peers i hi).0 in
      let first = gossip_with net service env n.registry (some n.identity) w peer in
      let mid = settle n first.registry first.identity first.notified in
      let same =
        HasService-service first.identity n.identity
          (gossip_with-HasService n.registry n.identity w peer) in
      let rest =
        subst
          (λ j. Completes mid (gossip_loop net service env peers first.registry j first.network is))
          (sym same) (gossip_loop-Completes peers is mid first.network h) in
      record {
        outcome = record rest.outcome { notified = first.notified ++ rest.outcome.notified };
        returns = rw ((peer_at-some peers i hi).1, gossip_loop) (rw rest.returns refl);
        has = rest.has;
        reached =
            settle_trans env.fresh env.sodium n first.registry rest.outcome.registry first.identity
              rest.outcome.identity first.notified rest.outcome.notified rest.has
              (gossip_with-Reach n w peer) rest.reached;
      }

  -- A round of gossip returns, whatever the peers answer and however the indices are shuffled: no index reads
  -- past the peers, and what the round does to a node is a run of steps.
  pub perform_gossip_round-Completes :
      (peers : List GossipPeer) (n : Node) (w : W)
      → Completes n (perform_gossip_round net service env peers n.registry (some n.identity) w)
  unfolding perform_gossip_round
  perform_gossip_round-Completes peers n w = elim (Bool-cases (is_empty peers)) [
    | inl e ↦ rw (e, perform_gossip_round) (nothing_done n w)
    | inr e ↦
        rw (e, perform_gossip_round)
          (gossip_loop-Completes peers
            (pick_random_indices service.shuffler (length peers) gossip_fanout) n w
            (pick_random_indices_lem service.shuffler (length peers) gossip_fanout).0)
  ]
