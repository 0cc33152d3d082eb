-- ===== src/Sync/Client.antt =====
-- src/beacon_net/sync_client.hpp and sync_client.cpp: one round of synchronisation with a peer.
--
-- The connection is a parameter: `send` takes the state of the peer and a command, and returns the new
-- state with the response, or with none where the connection throws. An exception leaves the local
-- registry as it is at that moment.
use beacon_node.Base.{
  ℕ, ◌+◌, List, [], ◌∷◌, ◌++◌, true, false, not, Option, none, some, if◌then◌else◌, is_empty, ◌==◌,
  ◌*◌,
}
use beacon_node.Base.Text.{Bytes, codes, str_eq}
use beacon_node.Types.{AgentRecord, RegistryStats, TimePoint, new_record}
use beacon_node.Numbers.{Parsed, parse_number, u64_bound}
use beacon_node.Tokens.{split_tokens, get_value, starts_with}
use beacon_node.Identity.{IdentityService}
use beacon_node.Registry.{AgentRegistry, stats}
use beacon_node.Merge.{MergeResult, merge}
use beacon_node.Control.{Env}
use beacon_node.Control.Command.{add_metadata}
use beacon_node.Sync.{SyncPlan, plan_push_pull, encode_merge_command, encode_sync_pull_command}

-- `std::getline` over the whole text; a line feed at the end starts no further line.
unfoldable pub scan_lines : Bytes → Bytes → List Bytes
scan_lines [] [] = []
scan_lines (b ∷ line) [] = (b ∷ line) ∷ []
scan_lines line (c ∷ s) = elim (c == b'\n') [
  | true ↦ line ∷ scan_lines [] s
  | false ↦ scan_lines (line ++ c ∷ []) s
]

-- `parse_revision(field_value(token), variable)`, whose result the callers do not look at: the variable
-- takes the leading digits also where more follows.
abbrev pub read_revision : ℕ → Bytes → ℕ
read_revision old token = Parsed.variable (parse_number u64_bound old (get_value token))

-- One round of the loop over the tokens of an AGENT line.
unfoldable pub read_field : AgentRecord → Bytes → AgentRecord
unfolding add_metadata
read_field r token =
    if starts_with token (codes "agent_id=")
    then record r { agent_id = get_value token }
    else if starts_with token (codes "node_id=")
    then record r { node_id = get_value token }
    else if starts_with token (codes "endpoint=")
    then record r { endpoint = get_value token }
    else if starts_with token (codes "revision=")
    then record r { revision = read_revision r.revision token }
    else if starts_with token (codes "public_key=")
    then record r { public_key_hex = get_value token }
    else if starts_with token (codes "signature=")
    then record r { signature_hex = get_value token }
    else if starts_with token (codes "metadata.")
    then add_metadata token r
    else r

unfoldable pub read_fields : AgentRecord → List Bytes → AgentRecord
read_fields r [] = r
read_fields r (token ∷ tokens) = read_fields (read_field r token) tokens

-- `std::chrono::minutes(1)` in milliseconds
abbrev pub one_minute : ℕ
one_minute = 60 * 1000

-- The record of a line, if it is an AGENT line with an agent id.
unfoldable pub read_agent : TimePoint → List Bytes → Option AgentRecord
unfolding read_fields
read_agent now [] = none
read_agent now (first ∷ tokens) =
    let r = read_fields (new_record (now + one_minute)) tokens in
    if not (str_eq first (codes "AGENT"))
    then none
    else if is_empty (AgentRecord.agent_id r)
    then none
    else some r

abbrev pub add_read : Option AgentRecord → List AgentRecord → List AgentRecord
add_read none rs = rs
add_read (some r) rs = r ∷ rs

unfoldable pub read_agents : TimePoint → List Bytes → List AgentRecord
unfolding read_agent
read_agents now [] = []
read_agents now (line ∷ lines) =
    add_read (read_agent now (split_tokens line)) (read_agents now lines)

unfoldable pub parse_agent_lines : TimePoint → Bytes → List AgentRecord
unfolding scan_lines read_agents
parse_agent_lines now response = read_agents now (scan_lines [] response)

unfoldable pub find_revision : List Bytes → ℕ
find_revision [] = 0
find_revision (token ∷ tokens) =
    if starts_with token (codes "highest_revision=")
    then read_revision 0 token
    else find_revision tokens

unfoldable pub parse_highest_revision : Bytes → ℕ
unfolding find_revision
parse_highest_revision response = find_revision (split_tokens response)

pub record SyncResult : Type 0 where
  pub pulled : ℕ
  pub pushed : ℕ

pub record SyncOutcome (W : Type 0) : Type 0 where
  pub registry : AgentRegistry
  pub identity : Option IdentityService
  pub peer : W
  pub notified : List AgentRecord
  pub result : Option SyncResult

module _ {W : Type 0} (send : W → Bytes → W × Option Bytes) where
  -- The number of entries that the peer accepts; none where the connection throws.
  unfoldable pub push_entries : W → List AgentRecord → W × Option ℕ
  push_entries w [] = (w, some 0)
  push_entries w (r ∷ rs) =
      let sent = send w (encode_merge_command r) in
      let rest = push_entries sent.0 rs in
      elim sent.1 [
        | none ↦ (sent.0, none)
        | some response ↦ (
          rest.0,
          elim rest.1 [
            | none ↦ none
            | some n ↦ some (if starts_with response (codes "OK") then n + 1 else n)
          ],
        )
      ]

  unfoldable pub sync_with_peer :
      Env → ℕ → AgentRegistry → Option IdentityService → W → SyncOutcome W
  unfolding push_entries
  sync_with_peer env max_entries g identity w =
      let local_revision = RegistryStats.highest_revision (stats g) in
      let asked = send w (codes "STATS") in
      elim asked.1 [
        | none ↦ record {
          registry = g;
          identity = identity;
          peer = asked.0;
          notified = [];
          result = none;
        }
        | some remote_stats ↦
            let pull = send asked.0 (encode_sync_pull_command local_revision max_entries) in
            elim pull.1 [
              | none ↦ record {
                registry = g;
                identity = identity;
                peer = pull.0;
                notified = [];
                result = none;
              }
              | some response ↦
                  let m =
                    merge env.fresh env.sodium g identity (parse_agent_lines env.now response) in
                  let plan =
                    plan_push_pull env.sorter max_entries (MergeResult.registry m)
                      (parse_highest_revision remote_stats) in
                  let pushed = push_entries pull.0 (SyncPlan.push_entries plan) in
                  record {
                    registry = MergeResult.registry m;
                    identity = MergeResult.identity m;
                    peer = pushed.0;
                    notified = MergeResult.notified m;
                    result = elim pushed.1 [
                      | none ↦ none
                      | some n ↦ some (record { pulled = MergeResult.accepted m; pushed = n })
                    ];
                  }
            ]
      ]
