-- ===== src/Registry/Selection.antt =====
-- What `entries_after_revision` selects.
use native.Mathlib.Bridge.{le_prop}
use mathlib.Core.List.{Perm}
use mathlib.Core.List.Perm
use beacon_node.Base.{
  ℕ, List, [], ◌∷◌, ◌++◌, true, false, not, ◌&&◌, ◌≡◌, ◌≤◌, ◌<◌, arith, All, drop, ltb, ◌==◌,
  All-map, Bool-cases, inl, inr, ltb_false→le, ltb→lt, min, filter, length, if◌then◌else◌, All-perm,
  All-filter, length-take, take-append-drop, append-nil,
}
use beacon_node.Types.{AgentRecord}
use beacon_node.Sorting.{Sorter, IsSortedBy, Less}
use beacon_node.Sorting.Prefix.{IsBefore, take-IsSortedBy, older_first-IsStrictWeak, filter-perm}
use beacon_node.Registry.{
  AgentRegistry, cap_selected, entries_after_revision, older_first, is_after,
}

-- The selection `out` is part of the registry: `cut` is what the limit cut off, and `old` the rest.
pub record IsSelection (g : AgentRegistry) (revision limit : ℕ) (out : List AgentRecord)
    : Type 0 where
  pub cut : List AgentRecord
  pub old : List AgentRecord
  -- together they are the records of the registry
  pub parts : Perm ((out ++ cut) ++ old) g.records
  -- the selected and the cut records are after the revision, all others are not
  pub newer : All (λ r. revision < r.revision) (out ++ cut)
  pub older : All (λ r. r.revision ≤ revision) old
  -- the selected records ascend, and come before those cut off
  pub ascending : IsSortedBy older_first out
  pub smallest : All (λ r. All (λ q. r.revision ≤ q.revision) cut) out
  -- nothing is cut off below the limit, and nothing at all where the limit is 0
  pub size :
      length out ≡ (if limit == 0 then length (out ++ cut) else min limit (length (out ++ cut)))

-- What the limit cuts off.
cut_of : ℕ → List AgentRecord → List AgentRecord
cut_of limit selected =
    if ltb 0 limit && ltb limit (length selected) then drop limit selected else []

cap_selected-cut_of :
    (limit : ℕ) (xs : List AgentRecord) → cap_selected limit xs ++ cut_of limit xs ≡ xs
unfolding cap_selected cut_of
cap_selected-cut_of limit xs = ground (arith, take-append-drop limit xs, append-nil xs)

length-cap_selected :
    (limit : ℕ) (xs : List AgentRecord)
    → length (cap_selected limit xs) ≡ (if limit == 0 then length xs else min limit (length xs))
unfolding cap_selected
length-cap_selected limit xs = ground (arith, length-take limit xs)

IsBefore-nil : (less : Less) (xs : List AgentRecord) → IsBefore less xs []
IsBefore-nil less [] = tt
IsBefore-nil less (x ∷ xs) = (tt, IsBefore-nil less xs)

cap_selected-IsSortedBy :
    (less : Less) (limit : ℕ) (xs : List AgentRecord)
    → IsSortedBy less xs
    → IsSortedBy less (cap_selected limit xs)
      × IsBefore less (cap_selected limit xs) (cut_of limit xs)
unfolding cap_selected cut_of
cap_selected-IsSortedBy less limit xs h = elim (Bool-cases (ltb 0 limit && ltb limit (length xs))) [
  | inl e ↦ rw e (take-IsSortedBy less limit xs h)
  | inr e ↦ rw e (h, IsBefore-nil less xs)
]

not-is_after :
    (revision : ℕ) (r : AgentRecord) → not (is_after revision r) ≡ true → r.revision ≤ revision
not-is_after revision r h = ground arith

module _ (s : Sorter) (g : AgentRegistry) (revision limit : ℕ) where
  picked : List AgentRecord
  picked = filter (is_after revision) g.records

  others : List AgentRecord
  others = filter (λ r. not (is_after revision r)) g.records

  sorted : List AgentRecord
  sorted = Sorter.sort s older_first picked

  sorted-perm : Perm sorted picked
  unfolding sorted
  sorted-perm = s.sort-perm older_first picked older_first-IsStrictWeak

  sorted_parts : Perm (sorted ++ others) g.records
  unfolding picked others
  sorted_parts =
      Perm.trans (Perm.append_right others sorted-perm) (filter-perm (is_after revision) g.records)

  sorted_newer : All (λ r. revision < r.revision) sorted
  unfolding picked
  sorted_newer =
      All-perm (λ r. revision < r.revision) (λ r. le_prop) (Perm.symm sorted-perm)
        (All-map (λ r. is_after revision r ≡ true) (λ r. revision < r.revision)
          (λ r h. ltb→lt revision r.revision h) picked (All-filter (is_after revision) g.records))

  -- `entries_after_revision` selects, in ascending order, the records after the revision: all of them
  -- for limit 0, and otherwise the `limit` ones of the smallest revisions.
  pub entries_after_revision-IsSelection :
      IsSelection g revision limit (entries_after_revision s g revision limit)
  unfolding entries_after_revision picked sorted
  entries_after_revision-IsSelection =
      let order = s.sort-IsSortedBy older_first picked older_first-IsStrictWeak in
      let (asc, before) = cap_selected-IsSortedBy older_first limit sorted order in
      record {
        cut = cut_of limit sorted;
        old = others;
        parts = rw (cap_selected-cut_of limit sorted) sorted_parts;
        newer = rw (cap_selected-cut_of limit sorted) sorted_newer;
        older =
            unfold others in
            All-map (λ r. not (is_after revision r) ≡ true) (λ r. r.revision ≤ revision)
              (not-is_after revision) others
              (All-filter (λ r. not (is_after revision r)) g.records);
        ascending = asc;
        smallest =
            All-map _ _
              (λ r h.
                All-map (λ q. ltb q.revision r.revision ≡ false) (λ q. r.revision ≤ q.revision)
                  (λ q e. ltb_false→le q.revision r.revision e) (cut_of limit sorted) h)
              (cap_selected limit sorted) before;
        size = rw (cap_selected-cut_of limit sorted) (length-cap_selected limit sorted);
      }
