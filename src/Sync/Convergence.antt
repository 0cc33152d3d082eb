-- ===== src/Sync/Convergence.antt =====
-- What a synchronisation with another node, whose control port serves it, brings to the registry.
use beacon_node.Base.{
  ℕ, ◌+◌, ◌≤◌, ◌<◌, ◌^◌, ◌≡◌, List, refl, ◌∙◌, ap, arith, All, All-find_if, Option, none, some,
  length, map,
}
use beacon_node.Base.Text.{Bytes, codes}
use beacon_node.Types.{AgentRecord, RegistryStats}
use beacon_node.Identity.{IdentityService}
use beacon_node.Registry.{AgentRegistry, has_id, find, stats, is_after, entries_after_revision}
use beacon_node.Registry.Lookup.{keep_if, map_option}
use beacon_node.Registry.Distinct.{IsValid}
use beacon_node.Registry.Rearranged.{lookup-map, Distinct-map, Option-is_set}
use beacon_node.Merge.{merge}
use beacon_node.Merge.Pulled.{Passes, find-merge_new, find-merge_other}
use beacon_node.Control.{Env, list_response, stats_response}
use beacon_node.Control.Fields.{FitsLine}
use beacon_node.ControlServer.{Server}
use beacon_node.Sync.{encode_sync_pull_command}
use beacon_node.Sync.Batch.{with_batch, SameKey, Accepts-newer, Passes-received}
use beacon_node.Sync.Client.{one_minute, sync_with_peer, parse_agent_lines}
use beacon_node.Sync.Replies.{received, parse_agent_lines-list_response}
use beacon_node.Sync.Exchange.{send_command, send_command-stats, send_command_pull}

-- The revision from which a node pulls.
abbrev pub cursor : AgentRegistry → ℕ
cursor g = RegistryStats.highest_revision (stats g)

-- The registry after a synchronisation with a peer that answers twice.
synced_of_answers :
    {W : Type 0} (send : W → Bytes → W × Option Bytes) (env : Env) (max_entries : ℕ)
    (g : AgentRegistry) (identity : Option IdentityService) (w : W) (remote_stats response : Bytes)
    → (send w (codes "STATS")).1 ≡ some remote_stats
    → (send (send w (codes "STATS")).0 (encode_sync_pull_command (cursor g) max_entries)).1
      ≡ some response
    → (sync_with_peer send env max_entries g identity w).registry
      ≡ (merge env.fresh env.sodium g identity (parse_agent_lines env.now response)).registry
unfolding sync_with_peer
synced_of_answers send env max_entries g identity w remote_stats response e q =
    rw (e, q, sync_with_peer) refl

module _ (server : Server) (peeked : ℕ) (env : Env) (max_entries : ℕ) (g : AgentRegistry)
    (identity : Option IdentityService) (q : AgentRegistry)
    (peer_identity : Option IdentityService) where
  -- The registry after a synchronisation with the node of the registry `q`.
  abbrev pub synced : AgentRegistry
  synced =
      (sync_with_peer (send_command server peeked) env max_entries g identity
        (q, peer_identity)).registry

  -- The records that the other node answers SYNC_PULL with.
  abbrev pub batch : List AgentRecord
  batch = entries_after_revision server.env.sorter q (cursor g) max_entries

  -- The node merges that batch.
  pub synced-merge :
      cursor g < 2 ^ 64
      → max_entries < 2 ^ 64
      → All FitsLine batch
      → synced ≡ (merge env.fresh env.sodium g identity (map (received env.now) batch)).registry
  synced-merge hc hm fit =
      let send = send_command server peeked in
      let pull = encode_sync_pull_command (cursor g) max_entries in
      let answered = send_command-stats server peeked q peer_identity in
      synced_of_answers send env max_entries g identity (q, peer_identity)
        (stats_response (stats q)) (list_response (codes "OK message=sync_pull\n") batch)
        (ap (λ t. t.1) answered)
        (ap (λ t. (send t.0 pull).1) answered
          ∙ ap (λ t. t.1)
              (send_command_pull server peeked q peer_identity (cursor g) max_entries hc hm))
      ∙ ap (λ rs. (merge env.fresh env.sodium g identity rs).registry)
          (parse_agent_lines-list_response env.now batch fit)

  -- A node that synchronises with another one has afterwards every record of the other whose revision is
  -- beyond all revisions that it had, with the expiry that it gives it, if the other's records fit a line
  -- and are no more than a round takes, the stored record of the agent, if there is one, does not have
  -- another public key, and the record passes the identity check: there is no identity service, or the
  -- record has no signature, or its signature is verified and its key is the one that is pinned for the
  -- agent, if one is.
  pub sync_with_peer_pulls :
      (k : Bytes) (x : AgentRecord)
      → IsValid q
      → All FitsLine q.records
      → length q.records ≤ max_entries
      → max_entries < 2 ^ 64
      → find q k ≡ some x
      → cursor g < x.revision
      → Passes env.fresh env.sodium identity x
      → SameKey (find g k) x
      → find synced k ≡ some (received env.now x)
  unfolding find
  sync_with_peer_pulls k x valid fit le hm found newer passes same =
      with_batch q (cursor g) valid fit server.env.sorter max_entries
        (find synced k ≡ some (received env.now x)) le
        (Option-is_set (find synced k) (some (received env.now x)))
        (λ h.
          ap (λ r. find r k)
            (synced-merge
              (lt_trans (All-find_if FitsLine (has_id k) q.records x fit found).revision) hm h.fits)
          ∙ find-merge_new env.fresh env.sodium (map (received env.now) batch) g identity k
              (received env.now x) (Distinct-map (received env.now) (λ r. refl) batch h.distinct)
              (lookup-map (received env.now) (λ r. refl) k batch
                ∙ ap (map_option (received env.now))
                    (h.answers k ∙ ap (keep_if (is_after (cursor g))) found ∙ kept))
              (Passes-received env.fresh env.sodium identity env.now x passes)
              (Accepts-newer (env.now + one_minute) g k x newer same))
    where
      lt_trans : x.revision < 2 ^ 64 → cursor g < 2 ^ 64
      lt_trans h = omega (arith, h, newer)

      kept : keep_if (is_after (cursor g)) (some x) ≡ some x
      kept = ground (arith, newer)

  -- An agent whose revision at the other node is not beyond all revisions that a node has stays as it was
  -- through a synchronisation, also where the node has an older record of it or none, if the other's
  -- records fit a line and are no more than a round takes.
  pub sync_with_peer_misses :
      (k : Bytes)
      → IsValid q
      → All FitsLine q.records
      → length q.records ≤ max_entries
      → max_entries < 2 ^ 64
      → cursor g < 2 ^ 64
      → keep_if (is_after (cursor g)) (find q k) ≡ none
      → find synced k ≡ find g k
  sync_with_peer_misses k valid fit le hm hc none_after =
      with_batch q (cursor g) valid fit server.env.sorter max_entries (find synced k ≡ find g k) le
        (Option-is_set (find synced k) (find g k))
        (λ h.
          ap (λ r. find r k) (synced-merge hc hm h.fits)
          ∙ find-merge_other env.fresh env.sodium (map (received env.now) batch) g identity k (
              lookup-map (received env.now) (λ r. refl) k batch
              ∙ ap (map_option (received env.now)) (h.answers k ∙ none_after)))
