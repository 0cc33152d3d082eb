-- ===== src/Examples/Sort.antt =====
-- A sort of agent records: by insertion.
use mathlib.Core.List.{Perm}
use mathlib.Core.List.Perm
use beacon_node.Base.{
  List, [], ◌∷◌, true, false, ◌≡◌, All, arith, inl, inr, Bool-cases, if◌then◌else◌, ◌⊎◌,
}
use beacon_node.Types.{AgentRecord}
use beacon_node.Sorting.{Less, IsStrictWeak, IsSortedBy, Sorter}

unfoldable insert : Less → AgentRecord → List AgentRecord → List AgentRecord
insert less x [] = x ∷ []
insert less x (y ∷ ys) = let rest = insert less x ys in if less y x then y ∷ rest else x ∷ y ∷ ys

unfoldable pub insertion_sort : Less → List AgentRecord → List AgentRecord
unfolding insert
insertion_sort less [] = []
insertion_sort less (x ∷ xs) = insert less x (insertion_sort less xs)

insert-perm :
    (less : Less) (x : AgentRecord) (ys : List AgentRecord) → Perm (insert less x ys) (x ∷ ys)
unfolding insert
insert-perm less x [] = Perm.refl (x ∷ [])
insert-perm less x (y ∷ ys) = elim (Bool-cases (less y x)) [
  | inl e ↦ rw (e, insert) (Perm.trans (Perm.cons y (insert-perm less x ys)) (Perm.swap x y ys))
  | inr e ↦ rw (e, insert) (Perm.refl (x ∷ y ∷ ys))
]

pub insertion_sort-perm : (less : Less) (xs : List AgentRecord) → Perm (insertion_sort less xs) xs
unfolding insertion_sort
insertion_sort-perm less [] = Perm.refl []
insertion_sort-perm less (x ∷ xs) =
    Perm.trans (insert-perm less x (insertion_sort less xs))
      (Perm.cons x (insertion_sort-perm less xs))

All-insert :
    (less : Less) (z x : AgentRecord) (ys : List AgentRecord)
    → less x z ≡ false
    → All (λ y. less y z ≡ false) ys
    → All (λ y. less y z ≡ false) (insert less x ys)
unfolding insert
All-insert less z x [] h all = (h, tt)
All-insert less z x (y ∷ ys) h all = ground (arith, All-insert less z x ys)

-- What stands behind an element is in front of nothing that the element is not behind.
All-behind :
    (less : Less) (weak : IsStrictWeak less) (x y : AgentRecord) (ys : List AgentRecord)
    → less y x ≡ false
    → All (λ z. less z y ≡ false) ys
    → All (λ z. less z x ≡ false) ys
All-behind less weak x y [] h all = tt
All-behind less weak x y (z ∷ ys) h (hz, all) =
    (behind (Bool-cases (less z x)), All-behind less weak x y ys h all)
  where
    behind : (less z x ≡ true) ⊎ (less z x ≡ false) → less z x ≡ false
    behind (inl e) = ground (arith, weak.split z y x e)
    behind (inr e) = e

insert-IsSortedBy :
    (less : Less) (weak : IsStrictWeak less) (x : AgentRecord) (ys : List AgentRecord)
    → IsSortedBy less ys
    → IsSortedBy less (insert less x ys)
unfolding insert
insert-IsSortedBy less weak x [] h = (tt, tt)
insert-IsSortedBy less weak x (y ∷ ys) (first, h) = elim (Bool-cases (less y x)) [
  | inl e ↦
      rw (e, insert)
        (All-insert less y x ys (weak.asymm y x e) first, insert-IsSortedBy less weak x ys h)
  | inr e ↦ rw (e, insert) ((e, All-behind less weak x y ys e first), (first, h))
]

pub insertion_sort-IsSortedBy :
    (less : Less) (weak : IsStrictWeak less) (xs : List AgentRecord)
    → IsSortedBy less (insertion_sort less xs)
unfolding insertion_sort
insertion_sort-IsSortedBy less weak [] = tt
insertion_sort-IsSortedBy less weak (x ∷ xs) =
    insert-IsSortedBy less weak x (insertion_sort less xs) (insertion_sort-IsSortedBy less weak xs)

abbrev pub insertion_sorter : Sorter
insertion_sorter = record {
  sort = insertion_sort;
  sort-perm = λ less xs weak. insertion_sort-perm less xs;
  sort-IsSortedBy = λ less xs weak. insertion_sort-IsSortedBy less weak xs;
}
