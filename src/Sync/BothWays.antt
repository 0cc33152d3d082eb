-- ===== src/Sync/BothWays.antt =====
-- What a whole synchronisation of src/beacon_net/sync_client.cpp brings to the other node, which answers STATS
-- and SYNC_PULL before the records are offered.
use beacon_node.Base.{ℕ, ◌≤◌, ◌<◌, ◌^◌, ◌≡◌, refl, ◌∙◌, ap, sym, subst, All, Option, some, length}
use beacon_node.Base.Text.{Bytes, codes}
use beacon_node.Types.{AgentRecord}
use beacon_node.Identity.{IdentityService}
use beacon_node.Registry.{AgentRegistry, find, stats, entries_after_revision}
use beacon_node.Registry.Distinct.{IsValid}
use beacon_node.Merge.{merge}
use beacon_node.Merge.Invariant.{merge-IsValid}
use beacon_node.Control.{Env, list_response, stats_response}
use beacon_node.Control.Fields.{FitsLine}
use beacon_node.ControlServer.{Server}
use beacon_node.Sync.{plan_push_pull, encode_sync_pull_command}
use beacon_node.Sync.Batch.{SameKey}
use beacon_node.Sync.Client.{
  push_entries, sync_with_peer, parse_agent_lines, parse_highest_revision,
}
use beacon_node.Sync.Convergence.{cursor, synced}
use beacon_node.Sync.Exchange.{Peer, send_command, send_command-stats, send_command_pull}
use beacon_node.Sync.Offered.{push_entries-plan_push_pull}
use beacon_node.Sync.Pushed.{pushed, Admits}

-- A synchronisation with a peer that answers twice ends with the offer of the records that the registry
-- holds after the merge.
offers_of_answers :
    {W : Type 0} (send : W → Bytes → W × Option Bytes) (env : Env) (max_entries : ℕ)
    (g : AgentRegistry) (identity : Option IdentityService) (w : W) (remote_stats response : Bytes)
    → (send w (codes "STATS")).1 ≡ some remote_stats
    → (send (send w (codes "STATS")).0 (encode_sync_pull_command (cursor g) max_entries)).1
      ≡ some response
    → let s = sync_with_peer send env max_entries g identity w in
      let m = merge env.fresh env.sodium g identity (parse_agent_lines env.now response) in
      (s.registry ≡ m.registry)
      × (s.peer
          ≡ (push_entries send
              (send (send w (codes "STATS")).0 (encode_sync_pull_command (cursor g) max_entries)).0
              (plan_push_pull env.sorter max_entries m.registry
                (parse_highest_revision remote_stats)).push_entries).0)
unfolding sync_with_peer
offers_of_answers send env max_entries g identity w remote_stats response e q =
    rw (e, q, sync_with_peer) (refl, refl)

module _ (server : Server) (peeked : ℕ) (env : Env) (max_entries : ℕ) (g : AgentRegistry)
    (identity : Option IdentityService) (q : AgentRegistry)
    (peer_identity : Option IdentityService) where
  -- The registry of the other node after the synchronisation.
  abbrev pub synced_peer : AgentRegistry
  synced_peer =
      (sync_with_peer (send_command server peeked) env max_entries g identity
        (q, peer_identity)).peer.0

  -- A node that synchronises with another one leaves there every record that it has after the pull and whose
  -- revision is beyond all revisions that the other one had, with the expiry that the other one gives it, where
  -- the node's records fit a line and are no more than a round takes, the other node's trust settings admit the
  -- record and it had no other public key for the agent.
  pub sync_with_peer_pushes :
      (k : Bytes) (x : AgentRecord)
      → IsValid g
      → cursor g < 2 ^ 64
      → max_entries < 2 ^ 64
      → All FitsLine (synced server peeked env max_entries g identity q peer_identity).records
      → length (synced server peeked env max_entries g identity q peer_identity).records
        ≤ max_entries
      → find (synced server peeked env max_entries g identity q peer_identity) k ≡ some x
      → cursor q < x.revision
      → Admits server.env server.protocol (pushed server.env server.protocol x)
      → SameKey (find q k) x
      → find synced_peer k ≡ some (pushed server.env server.protocol x)
  sync_with_peer_pushes k x valid hc hm fit le found newer admits same =
      let response =
        list_response (codes "OK message=sync_pull\n")
          (entries_after_revision server.env.sorter q (cursor g) max_entries) in
      let m = merge env.fresh env.sodium g identity (parse_agent_lines env.now response) in
      let send = send_command server peeked in
      let pull = encode_sync_pull_command (cursor g) max_entries in
      let answered = send_command-stats server peeked q peer_identity in
      let pulled =
        ap (λ t. send t.0 pull) answered
        ∙ send_command_pull server peeked q peer_identity (cursor g) max_entries hc hm in
      let ends =
        offers_of_answers send env max_entries g identity (q, peer_identity)
          (stats_response (stats q)) response (ap (λ t. t.1) answered) (ap (λ t. t.1) pulled) in
      let offer =
        plan_push_pull env.sorter max_entries m.registry
          (parse_highest_revision (stats_response (stats q))) in
      ap (λ (p : Peer). find p.0 k) ends.1
      ∙ ap (λ (t : Peer × Option Bytes). find (push_entries send t.0 offer.push_entries).0.0 k)
          pulled
      ∙ push_entries-plan_push_pull server peeked env.sorter max_entries m.registry q peer_identity
          k x
          (merge-IsValid env.fresh env.sodium (parse_agent_lines env.now response) g identity valid)
          (subst (λ (r : AgentRegistry). All FitsLine r.records) ends.0 fit)
          (subst (λ (r : AgentRegistry). length r.records ≤ max_entries) ends.0 le)
          (ap (λ r. find r k) (sym ends.0) ∙ found) newer admits same
