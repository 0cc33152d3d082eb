-- ===== src/Sync/Offered.antt =====
-- What the second half of a synchronisation of src/beacon_net/sync_client.cpp, which offers records to the
-- other node, makes of that node's registry.
use beacon_node.Base.{
  ℕ, ◌≤◌, ◌<◌, ◌^◌, ◌≡◌, List, [], ◌∷◌, refl, ◌∙◌, ap, sym, subst, arith, All, All-find_if, Option,
  none, some, length, Bool-cases, inl, inr, find_if,
}
use beacon_node.Base.Text.{Bytes, str_eq, str_eq_iff}
use beacon_node.Types.{AgentRecord}
use beacon_node.Identity.{IdentityService}
use beacon_node.Registry.{AgentRegistry, has_id, find, stats, is_after, entries_after_revision}
use beacon_node.Registry.Lookup.{lookup, keep_if}
use beacon_node.Registry.Distinct.{Distinct, IsValid}
use beacon_node.Registry.Rearranged.{Option-is_set}
use beacon_node.Merge.Pulled.{Accepts}
use beacon_node.Sorting.{Sorter}
use beacon_node.Control.{handle_line, stats_response}
use beacon_node.Control.Fields.{FitsLine}
use beacon_node.ControlServer.{Server}
use beacon_node.Sync.{encode_merge_command, plan_push_pull}
use beacon_node.Sync.Batch.{with_batch, SameKey, Accepts-newer}
use beacon_node.Sync.Client.{push_entries, parse_highest_revision}
use beacon_node.Sync.Convergence.{cursor}
use beacon_node.Sync.Exchange.{Peer, send_command}
use beacon_node.Sync.Pushed.{
  pushed, Admits, handle_line-encode_merge_command, handle_line-encode_merge_command_other,
}
use beacon_node.Sync.Answers.{
  parse_highest_revision-stats_response, push_entries_answered, send_command-merge,
}

module _ (server : Server) (peeked : ℕ) where
  -- The registry of the other node after the offer of the records.
  abbrev pub offered : Peer → List AgentRecord → AgentRegistry
  offered w rs = (push_entries (send_command server peeked) w rs).0.0

  offered-cons :
      (g : AgentRegistry) (identity : Option IdentityService) (r : AgentRecord)
      (rs : List AgentRecord)
      → FitsLine r
      → let h = handle_line server.env server.protocol g identity (encode_merge_command r) in
        offered (g, identity) (r ∷ rs) ≡ offered (h.registry, h.identity) rs
  offered-cons g identity r rs f =
      let h = handle_line server.env server.protocol g identity (encode_merge_command r) in
      let sent = send_command-merge server peeked g identity r f in
      ap (λ w. w.0)
        (push_entries_answered (send_command server peeked) (g, identity) r rs h.response
          (ap (λ t. t.1) sent))
      ∙ ap (λ t. offered t.0 rs) sent

  -- The offer of records does not touch the other agents of the node.
  offered_other :
      (rs : List AgentRecord) (g : AgentRegistry) (identity : Option IdentityService) (k : Bytes)
      → All FitsLine rs
      → lookup k rs ≡ none
      → find (offered (g, identity) rs) k ≡ find g k
  unfolding find_if has_id push_entries
  offered_other [] g identity k f h = refl
  offered_other (r ∷ rs) g identity k (fr, f) h =
      let done = handle_line server.env server.protocol g identity (encode_merge_command r) in
      ap (λ t. find t k) (offered-cons g identity r rs fr)
      ∙ offered_other rs done.registry done.identity k f (ground (arith, h))
      ∙ handle_line-encode_merge_command_other server.env server.protocol g identity r k fr
          (ground (arith, h))

  -- The node stores every offered record of distinct agents that its trust settings admit and the record
  -- under its id does not refuse.
  offered_new :
      (rs : List AgentRecord) (g : AgentRegistry) (identity : Option IdentityService) (k : Bytes)
      (x : AgentRecord)
      → All FitsLine rs
      → Distinct rs
      → lookup k rs ≡ some x
      → Admits server.env server.protocol (pushed server.env server.protocol x)
      → Accepts (find g k) (pushed server.env server.protocol x)
      → find (offered (g, identity) rs) k ≡ some (pushed server.env server.protocol x)
  unfolding find_if has_id
  offered_new [] g identity k x f d h admits accepts = cc
  offered_new (r ∷ rs) g identity k x (fr, f) (new, d) h admits accepts =
      let stored = pushed server.env server.protocol in
      let done = handle_line server.env server.protocol g identity (encode_merge_command r) in
      ap (λ t. find t k) (offered-cons g identity r rs fr)
      ∙ elim (Bool-cases (str_eq r.agent_id k)) [
        | inl e ↦
            (let same : r.agent_id ≡ k = (str_eq_iff r.agent_id k).0 e in
              let found : r ≡ x = ground (arith, e, h) in
              offered_other rs done.registry done.identity k f
                (subst (λ t. lookup t rs ≡ none) same new)
              ∙ subst (λ t. find done.registry t ≡ some (stored r)) same
                  ((handle_line-encode_merge_command server.env server.protocol g identity r fr
                    (subst (λ t. Admits server.env server.protocol (stored t)) (sym found) admits)
                    (subst (λ t. Accepts (find g t) (stored r)) (sym same)
                      (subst (λ t. Accepts (find g k) (stored t)) (sym found) accepts))).0)
              ∙ ap (λ t. some (stored t)) found)
        | inr e ↦ offered_new rs done.registry done.identity k x f d (ground (arith, e, h)) admits (
            subst (λ o. Accepts o (stored x))
              (sym (
                handle_line-encode_merge_command_other server.env server.protocol g identity r k fr
                  e))
              accepts)
      ]

  -- The half of a synchronisation that offers records brings to the other node every record whose
  -- revision is beyond all revisions that the other node reported in its answer to STATS, where the
  -- records fit a line and are no more than a round takes, the other node's trust settings admit the record
  -- and it has no other public key for the agent.
  pub push_entries-plan_push_pull :
      (s : Sorter) (max_entries : ℕ) (local : AgentRegistry) (g : AgentRegistry)
      (identity : Option IdentityService) (k : Bytes) (x : AgentRecord)
      → IsValid local
      → All FitsLine local.records
      → length local.records ≤ max_entries
      → find local k ≡ some x
      → cursor g < x.revision
      → Admits server.env server.protocol (pushed server.env server.protocol x)
      → SameKey (find g k) x
      → let plan =
          plan_push_pull s max_entries local (parse_highest_revision (stats_response (stats g))) in
        find (push_entries (send_command server peeked) (g, identity) plan.push_entries).0.0 k
        ≡ some (pushed server.env server.protocol x)
  unfolding plan_push_pull find
  push_entries-plan_push_pull s max_entries local g identity k x valid fit le found newer admits
        same =
      let stored = pushed server.env server.protocol x in
      let read =
        parse_highest_revision-stats_response (stats g)
          (below (All-find_if FitsLine (has_id k) local.records x fit found).revision) in
      subst
        (λ n.
          find (offered (g, identity) (entries_after_revision s local n max_entries)) k
          ≡ some stored)
        (sym read)
        (with_batch local (cursor g) valid fit s max_entries
          (find (offered (g, identity) (entries_after_revision s local (cursor g) max_entries)) k
            ≡ some stored)
          le (Option-is_set _ _)
          (λ h.
            offered_new (entries_after_revision s local (cursor g) max_entries) g identity k x
              h.fits h.distinct (h.answers k ∙ ap (keep_if (is_after (cursor g))) found ∙ kept)
              admits (Accepts-newer stored.expires_at g k x newer same)))
    where
      below : x.revision < 2 ^ 64 → cursor g < 2 ^ 64
      below h = omega (arith, h, newer)

      kept : keep_if (is_after (cursor g)) (some x) ≡ some x
      kept = ground (arith, newer)
