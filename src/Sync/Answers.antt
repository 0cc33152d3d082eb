-- ===== src/Sync/Answers.antt =====
-- What src/beacon_net/sync_client.cpp reads from the answer to STATS, and its MERGE commands at the control
-- port of another node.
use beacon_node.Base.{
  ℕ, ◌<◌, ◌^◌, ◌≡◌, List, [], ◌∷◌, ◌++◌, refl, ◌∙◌, ap, sym, subst, arith, All-append, Option, some,
  false, ◌==◌, append_assoc, append-nil,
}
use beacon_node.Base.Text.{Bytes, codes}
use beacon_node.Types.{AgentRecord, RegistryStats}
use beacon_node.Numbers.{to_string, u64_bound}
use beacon_node.Numbers.RoundTrip.{parse_number-to_string}
use beacon_node.Tokens.{split_tokens, starts_with, get_value}
use beacon_node.Tokens.Words.{IsLine, one_line, one_line-IsLine}
use beacon_node.Tokens.Joined.{spaced, split_tokens-spaced_line}
use beacon_node.Identity.{IdentityService}
use beacon_node.Registry.{AgentRegistry}
use beacon_node.Control.{handle_line, stats_response}
use beacon_node.Control.Fields.{
  FitsLine, agent_tokens, agent_tokens-IsToken, literal-IsToken, all_graphic,
}
use beacon_node.ControlServer.{Server, is_binary_frame_header}
use beacon_node.ControlServer.Sessions.{IsText, serve_session-line}
use beacon_node.Sync.{encode_merge_command}
use beacon_node.Sync.Client.{push_entries, parse_highest_revision, find_revision}
use beacon_node.Sync.Commands.{number-IsToken}
use beacon_node.Sync.Exchange.{send_command}
use beacon_node.Sync.Lines.{encode_merge_command-spaced}
use beacon_node.Sync.Replies.{spaced-IsLine}

stats_tokens :
    (s : RegistryStats)
    → split_tokens (stats_response s)
      ≡ codes "OK"
        ∷ (codes "active_agents=" ++ to_string s.active_agents)
        ∷ (codes "highest_revision=" ++ to_string s.highest_revision)
        ∷ []
unfolding stats_response all_graphic
stats_tokens s =
    let words =
      (codes "active_agents=" ++ to_string s.active_agents)
      ∷ (codes "highest_revision=" ++ to_string s.highest_revision)
      ∷ [] in
    ap split_tokens (ap (λ t. codes "OK" ++ t) same)
    ∙ split_tokens-spaced_line (codes "OK") words (literal-IsToken (codes "OK") refl refl) (
      number-IsToken (codes "active_agents=") s.active_agents refl refl,
      (number-IsToken (codes "highest_revision=") s.highest_revision refl refl, tt),
    )
  where
    same :
        b' '
          ∷ (codes "active_agents="
              ++ (to_string s.active_agents
                  ++ (codes " highest_revision=" ++ (to_string s.highest_revision ++ b'\n' ∷ []))))
        ≡ spaced (
            (codes "active_agents=" ++ to_string s.active_agents)
            ∷ (codes "highest_revision=" ++ to_string s.highest_revision)
            ∷ [])
          ++ b'\n' ∷ []
    same = unfold spaced in simp (append_assoc, append-nil)

-- The client reads from the answer to STATS the highest revision.
pub parse_highest_revision-stats_response :
    (s : RegistryStats)
    → s.highest_revision < 2 ^ 64
    → parse_highest_revision (stats_response s) ≡ s.highest_revision
unfolding parse_highest_revision find_revision starts_with get_value
parse_highest_revision-stats_response s h =
    ap find_revision (stats_tokens s)
    ∙ ground (arith, parse_number-to_string u64_bound 0 s.highest_revision, h)

merge-IsLine : (r : AgentRecord) → FitsLine r → IsLine (encode_merge_command r)
unfolding one_line
merge-IsLine r f = subst IsLine (sym (encode_merge_command-spaced r)) (
    All-append (λ c. (c == b'\n') ≡ false) (codes "MERGE") (spaced (agent_tokens r))
      (one_line-IsLine (codes "MERGE") refl)
      (spaced-IsLine (agent_tokens r) (agent_tokens-IsToken r f)))

merge-IsText : (peeked : ℕ) (r : AgentRecord) → IsText peeked (encode_merge_command r ++ b'\n' ∷ [])
unfolding is_binary_frame_header
merge-IsText peeked r =
    subst (λ t. IsText peeked (t ++ b'\n' ∷ [])) (sym (encode_merge_command-spaced r))
      (ground arith)

pub push_entries_answered :
    {W : Type 0} (send : W → Bytes → W × Option Bytes) (w : W) (r : AgentRecord)
    (rs : List AgentRecord) (response : Bytes)
    → (send w (encode_merge_command r)).1 ≡ some response
    → (push_entries send w (r ∷ rs)).0
      ≡ (push_entries send (send w (encode_merge_command r)).0 rs).0
unfolding push_entries
push_entries_answered send w r rs response e = ground (arith, e)

module _ (server : Server) (peeked : ℕ) where
  pub send_command-merge :
      (g : AgentRegistry) (identity : Option IdentityService) (r : AgentRecord)
      → FitsLine r
      → let h = handle_line server.env server.protocol g identity (encode_merge_command r) in
        send_command server peeked (g, identity) (encode_merge_command r)
        ≡ ((h.registry, h.identity), some h.response)
  unfolding send_command
  send_command-merge g identity r f =
      rw
        (serve_session-line server g identity peeked (encode_merge_command r) [] (merge-IsLine r f)
          (merge-IsText peeked r))
        refl
