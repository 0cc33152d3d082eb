-- ===== src/Sorting.antt =====
-- `std::sort` on agent records. The C++ library does not fix the order of elements that the
-- comparator does not tell apart, so the function is a parameter with what the standard says of it:
-- for a strict weak ordering the result is a rearrangement in which no element comes before one that
-- the comparator puts in front of it.
pub mod Prefix
use mathlib.Core.List.{Perm}
use beacon_node.Base.{List, [], ◌∷◌, Bool, true, false, ◌≡◌, ◌⊎◌, All}
use beacon_node.Types.{AgentRecord}

abbrev pub Less : Type 0
Less = AgentRecord → AgentRecord → Bool

pub record IsStrictWeak (less : Less) : Type 0 where
  pub asymm : (a b : AgentRecord) → less a b ≡ true → less b a ≡ false
  pub split : (a b c : AgentRecord) → less a c ≡ true → (less a b ≡ true) ⊎ (less b c ≡ true)

-- No element is in front of an earlier one.
abbrev pub IsSortedBy : Less → List AgentRecord → Type 0
IsSortedBy less [] = Unit
IsSortedBy less (x ∷ xs) = All (λ y. less y x ≡ false) xs × IsSortedBy less xs

pub record Sorter : Type 0 where
  pub sort : Less → List AgentRecord → List AgentRecord
  pub sort-perm : (less : Less) (xs : List AgentRecord) → IsStrictWeak less → Perm (sort less xs) xs
  pub sort-IsSortedBy :
      (less : Less) (xs : List AgentRecord) → IsStrictWeak less → IsSortedBy less (sort less xs)
