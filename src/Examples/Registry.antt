-- ===== src/Examples/Registry.antt =====
-- The registry with two agents.
use beacon_node.Base.{◌≡◌, none, some, find_if}
use beacon_node.Base.Text.{codes, str_eq}
use beacon_node.Registry.{
  has_id, upsert, refuses, find, refresh_heartbeat, purge_expired, entries_after_revision,
}
use beacon_node.Registry.Refinement.{find-upsert, find-refresh_heartbeat, find-purge_expired}
use beacon_node.Registry.Selection.{IsSelection, entries_after_revision-IsSelection}
use beacon_node.Examples.Data.{agent, two_agents, two_agents-IsValid}
use beacon_node.Examples.Sort.{insertion_sorter}

find-upsert_example :
    find (upsert two_agents (agent (codes "a") 4 300)).registry (codes "a")
    ≡ some (agent (codes "a") 4 300)
unfolding str_eq find find_if has_id refuses
find-upsert_example = find-upsert two_agents (agent (codes "a") 4 300) (codes "a")

find-refresh_heartbeat_example :
    find (refresh_heartbeat two_agents (codes "b") 900 6).0 (codes "b")
    ≡ some (agent (codes "b") 6 900)
unfolding str_eq find find_if has_id
find-refresh_heartbeat_example = find-refresh_heartbeat two_agents (codes "b") 900 6 (codes "b")

find-purge_expired_example : find (purge_expired two_agents 100).0 (codes "a") ≡ none
unfolding str_eq find find_if has_id
find-purge_expired_example = find-purge_expired two_agents 100 (codes "a") two_agents-IsValid

entries_after_revision-IsSelection_example :
    IsSelection two_agents 3 1 (entries_after_revision insertion_sorter two_agents 3 1)
entries_after_revision-IsSelection_example =
    entries_after_revision-IsSelection insertion_sorter two_agents 3 1
