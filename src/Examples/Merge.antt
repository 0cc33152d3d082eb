-- ===== src/Examples/Merge.antt =====
-- Batches merged into the registry with two agents.
use beacon_node.Base.{List, [], ◌∷◌, ◌≡◌, ◌⊎◌, inr, refl, some, find_if, arith}
use beacon_node.Base.Text.{codes, str_eq}
use beacon_node.Types.{AgentRecord}
use beacon_node.Registry.{has_id, upsert, find}
use beacon_node.Merge.{merge}
use beacon_node.Merge.Invariant.{FromBatch, merge_source}
use beacon_node.Merge.Convergence.{upsert_comm}
use beacon_node.Examples.Data.{agent, signed, two_agents, zeros, first_byte_sodium, no_keys}

abbrev batch : List AgentRecord
batch = signed (agent (codes "a") 7 300) ∷ agent (codes "c") 2 300 ∷ agent (codes "b") 1 300 ∷ []

merge_source_example :
    (find
        (merge zeros (some first_byte_sodium) two_agents (some no_keys) batch).registry
        (codes "a")
      ≡ find two_agents (codes "a"))
    ⊎ FromBatch
        (some first_byte_sodium)
        (codes "a")
        (find
          (merge zeros (some first_byte_sodium) two_agents (some no_keys) batch).registry
          (codes "a"))
        batch
merge_source_example =
    merge_source zeros (some first_byte_sodium) batch two_agents no_keys (codes "a")

upsert_comm_example :
    find
      (upsert
        (upsert two_agents (agent (codes "a") 7 300)).registry
        (agent (codes "a") 9 400)).registry
      (codes "a")
    ≡ find
        (upsert
          (upsert two_agents (agent (codes "a") 9 400)).registry
          (agent (codes "a") 7 300)).registry
        (codes "a")
unfolding find find_if has_id str_eq
upsert_comm_example =
    upsert_comm two_agents (agent (codes "a") 7 300) (agent (codes "a") 9 400) (codes "a")
      (inr (λ e. absurd (omega arith), refl, refl))
