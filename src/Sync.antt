-- ===== src/Sync.antt =====
-- src/beacon/registry_sync.hpp and registry_sync.cpp: what one node offers another, and the lines in which
-- it asks and offers. The sync client that sends them is modelled in the child Client.
pub mod Client
pub mod Lines
pub mod Commands
pub mod Exchange
pub mod Batch
pub mod Pushed
pub mod Answers
pub mod Offered
pub mod BothWays
pub mod Convergence
pub mod Replies
use beacon_node.Base.{ℕ, List, [], ◌∷◌, ◌++◌, Bool, ◌==◌, if◌then◌else◌, drop}
use beacon_node.Base.Text.{Bytes, codes}
use beacon_node.Types.{AgentRecord, RegistryStats}
use beacon_node.Numbers.{to_string}
use beacon_node.Sorting.{Sorter}
use beacon_node.Registry.{AgentRegistry, entries_after_revision, stats}
use beacon_node.Control.{encode_agent_line}

pub record SyncPlan : Type 0 where
  pub local_revision : ℕ
  pub push_entries : List AgentRecord

-- `RegistrySync::plan_push_pull`; the second argument is `max_entries_per_round_`.
unfoldable pub plan_push_pull : Sorter → ℕ → AgentRegistry → ℕ → SyncPlan
plan_push_pull s max_entries g remote_revision = record {
  local_revision = RegistryStats.highest_revision (stats g);
  push_entries = entries_after_revision s g remote_revision max_entries;
}

-- `if (!command.empty() && command.back() == '\n') command.pop_back();`
unfoldable pub pop_newline : Bytes → Bytes
pop_newline [] = []
pop_newline (c ∷ []) = if c == b'\n' then [] else c ∷ []
pop_newline (c ∷ d ∷ s) = c ∷ pop_newline (d ∷ s)

-- `command.replace(0, 5, "MERGE")`
unfoldable pub encode_merge_command : AgentRecord → Bytes
unfolding pop_newline
encode_merge_command r = pop_newline (codes "MERGE" ++ drop 5 (encode_agent_line r))

unfoldable pub encode_sync_pull_command : ℕ → ℕ → Bytes
encode_sync_pull_command after_revision limit =
    codes "SYNC_PULL after_revision="
    ++ (to_string after_revision ++ (codes " limit=" ++ to_string limit))
