-- ===== src/Gossip/Selection.antt =====
-- What a gossip round pushes.
use mathlib.Core.List.{Perm}
use beacon_node.Base.{
  ℕ, List, ◌++◌, ◌≡◌, ◌≤◌, arith, All, drop, take, ltb, min, length, length-take, take-append-drop,
  All-map, ltb_false→le, length-perm, take_all, false,
}
use beacon_node.Types.{AgentRecord}
use beacon_node.Config.{GossipConfig}
use beacon_node.Sorting.{Sorter, IsSortedBy}
use beacon_node.Sorting.Prefix.{take-IsSortedBy, newer_first-IsStrictWeak}
use beacon_node.Gossip.{select_push_entries, newer_first}

-- The pushed records `out` are the `limit` newest of the registry, or all of them: `left` are the others.
pub record IsNewest (limit : ℕ) (registry out : List AgentRecord) : Type 0 where
  pub left : List AgentRecord
  pub parts : Perm (out ++ left) registry
  pub descending : IsSortedBy newer_first out
  pub newest : All (λ r. All (λ q. q.revision ≤ r.revision) left) out
  pub size : length out ≡ min limit (length registry)

module _ (s : Sorter) (config : GossipConfig) (registry : List AgentRecord) where
  sorted : List AgentRecord
  sorted = Sorter.sort s newer_first registry

  select_push_entries-take :
      select_push_entries s config registry ≡ take config.max_registry_items_per_round sorted
  unfolding select_push_entries sorted
  select_push_entries-take =
      ground
        (arith, take_all config.max_registry_items_per_round (Sorter.sort s newer_first registry))

  sorted-perm : Perm sorted registry
  unfolding sorted
  sorted-perm = s.sort-perm newer_first registry newer_first-IsStrictWeak

  sorted-IsSortedBy : IsSortedBy newer_first sorted
  unfolding sorted
  sorted-IsSortedBy = s.sort-IsSortedBy newer_first registry newer_first-IsStrictWeak

  -- A round pushes the newest records in descending order of revision, at most
  -- `max_registry_items_per_round` of them, and all of them where they are no more.
  pub select_push_entries-IsNewest :
      IsNewest config.max_registry_items_per_round registry (select_push_entries s config registry)
  select_push_entries-IsNewest =
      let limit = config.max_registry_items_per_round in
      let (desc, before) = take-IsSortedBy newer_first limit sorted sorted-IsSortedBy in
      rw select_push_entries-take (record {
        left = drop limit sorted;
        parts = rw (take-append-drop limit sorted) sorted-perm;
        descending = desc;
        newest =
            All-map _ _
              (λ r h.
                All-map (λ q. ltb r.revision q.revision ≡ false) (λ q. q.revision ≤ r.revision)
                  (λ q e. ltb_false→le r.revision q.revision e) (drop limit sorted) h)
              (take limit sorted) before;
        size = omega (arith, length-take limit sorted, length-perm sorted-perm);
      })
