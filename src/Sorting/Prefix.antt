-- ===== src/Sorting/Prefix.antt =====
-- What a sorted list gives when it is cut at some length, and the comparators by revision.
use mathlib.Core.List.{Perm, perm_middle}
use mathlib.Core.List.Perm
use beacon_node.Base.{
  ℕ, zero, suc, List, [], ◌∷◌, ◌++◌, Bool, false, not, ◌≡◌, arith, All, take, drop, ltb, filter,
  Bool-cases, inl, inr,
}
use beacon_node.Types.{AgentRecord}
use beacon_node.Sorting.{Less, IsStrictWeak, IsSortedBy}

-- Nothing of the second list is in front of anything in the first.
abbrev pub IsBefore : Less → List AgentRecord → List AgentRecord → Type 0
IsBefore less xs ys = All (λ x. All (λ y. less y x ≡ false) ys) xs

pub All-drop {ℓ κ} :
    {A : Type ℓ} (P : A → Type κ) (n : ℕ) (xs : List A) → All P xs → All P (drop n xs)
All-drop P zero xs h = h
All-drop P (suc n) [] h = h
All-drop P (suc n) (x ∷ xs) h = All-drop P n xs h.1

pub All-take {ℓ κ} :
    {A : Type ℓ} (P : A → Type κ) (n : ℕ) (xs : List A) → All P xs → All P (take n xs)
All-take P zero xs h = tt
All-take P (suc n) [] h = h
All-take P (suc n) (x ∷ xs) h = (h.0, All-take P n xs h.1)

-- The cut keeps the order, and what is cut off comes behind all that is kept.
pub take-IsSortedBy :
    (less : Less) (n : ℕ) (xs : List AgentRecord)
    → IsSortedBy less xs
    → IsSortedBy less (take n xs) × IsBefore less (take n xs) (drop n xs)
take-IsSortedBy less zero xs h = (tt, tt)
take-IsSortedBy less (suc n) [] h = (tt, tt)
take-IsSortedBy less (suc n) (x ∷ xs) (first, h) =
    let (sorted, before) = take-IsSortedBy less n xs h in
    let P = λ (y : AgentRecord). less y x ≡ false in
    ((All-take P n xs first, sorted), (All-drop P n xs first, before))

pub older_first-IsStrictWeak : IsStrictWeak (λ a b. ltb a.revision b.revision)
older_first-IsStrictWeak = record { asymm = λ a b h. ground arith; split = λ a b c h. ground arith }

pub newer_first-IsStrictWeak : IsStrictWeak (λ a b. ltb b.revision a.revision)
newer_first-IsStrictWeak = record { asymm = λ a b h. ground arith; split = λ a b c h. ground arith }

-- What passes a test and what fails it make up the list.
pub filter-perm {ℓ} :
    {A : Type ℓ} (p : A → Bool) (xs : List A) → Perm (filter p xs ++ filter (λ x. not (p x)) xs) xs
unfolding filter
filter-perm p [] = Perm.refl []
filter-perm p (x ∷ xs) = elim (Bool-cases (p x)) [
  | inl e ↦ rw (e, filter) (Perm.cons x (filter-perm p xs))
  | inr e ↦
      rw (e, filter)
        (Perm.trans (perm_middle (filter p xs) (filter (λ y. not (p y)) xs))
          (Perm.cons x (filter-perm p xs)))
]
