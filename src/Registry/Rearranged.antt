-- ===== src/Registry/Rearranged.antt =====
-- Records of distinct ids in another order, and under a function that keeps the ids.
use mathlib.Core.List.{Perm, Permᴰ}
use mathlib.Core.Logic.{∥∥₁_elim}
use mathlib.Core.HLevel.{×_prop}
use native.Mathlib.Nat.{ℕ_set}
use beacon_node.Base.{List, [], ◌∷◌, Option, none, ◌≡◌, refl, ◌∙◌, arith, find_if, subst, map}
use beacon_node.Base.Text.{Bytes, str_eq_iff}
use beacon_node.Types.{AgentRecord}
use beacon_node.Registry.{has_id}
use beacon_node.Registry.Lookup.{lookup, map_option}
use beacon_node.Registry.Distinct.{Distinct}

AgentRecord-is_set : IsSet AgentRecord
AgentRecord-is_set = hlevel ℕ_set

pub Option-is_set : IsSet (Option AgentRecord)
Option-is_set = hlevel AgentRecord-is_set

-- Two lists give one answer for every key, and the second has distinct ids.
record Same (xs ys : List AgentRecord) : Type 0 where
  answers : (k : Bytes) → lookup k xs ≡ lookup k ys
  distinct : Distinct ys

swapped :
    (x y : AgentRecord) (l : List AgentRecord) → Distinct (x ∷ y ∷ l) → Same (x ∷ y ∷ l) (y ∷ x ∷ l)
unfolding find_if has_id
swapped x y l (hx, (hy, h)) = record {
  answers = λ k. ground (
    arith,
    hx,
    str_eq_iff x.agent_id k,
    str_eq_iff y.agent_id k,
    str_eq_iff y.agent_id x.agent_id,
  );
  distinct =
      ground (arith, hx, hy, h, str_eq_iff x.agent_id y.agent_id, str_eq_iff y.agent_id x.agent_id);
}

extended :
    (x : AgentRecord) (xs ys : List AgentRecord)
    → Distinct (x ∷ xs)
    → Same xs ys
    → Same (x ∷ xs) (x ∷ ys)
unfolding find_if has_id
extended x xs ys (hx, h) s = record {
  answers = λ k. ground (arith, s.answers k);
  distinct = ground (arith, s.answers x.agent_id, s.distinct, hx);
}

Same-permᴰ : {xs ys : List AgentRecord} → Permᴰ xs ys → Distinct xs → Same xs ys
Same-permᴰ Permᴰ.nil d = record { answers = λ k. refl; distinct = tt }
Same-permᴰ (Permᴰ.cons {a = a} {l₁ = l₁} {l₂ = l₂} e p) (hx, d) =
    subst (λ b. Same (a ∷ l₁) (b ∷ l₂)) e (extended a l₁ l₂ (hx, d) (Same-permᴰ p d))
Same-permᴰ (Permᴰ.swap {a = a} {b = b} {a' = a'} {b' = b'} {l = l} e e') d =
    subst (λ c. Same (a ∷ b ∷ l) (a' ∷ c ∷ l)) e
      (subst (λ c. Same (a ∷ b ∷ l) (c ∷ a ∷ l)) e' (swapped a b l d))
Same-permᴰ (Permᴰ.trans p q) d =
    let first = Same-permᴰ p d in
    let second = Same-permᴰ q first.distinct in
    record { answers = λ k. first.answers k ∙ second.answers k; distinct = second.distinct }

-- Of distinct ids, every key has one answer in all orders of the records.
pub lookup-perm :
    {xs ys : List AgentRecord} (k : Bytes) → Perm xs ys → Distinct xs → lookup k xs ≡ lookup k ys
lookup-perm {xs} {ys} k p d =
    ∥∥₁_elim p (Option-is_set (lookup k xs) (lookup k ys)) (λ q. (Same-permᴰ q d).answers k)

Distinct-prop : (xs : List AgentRecord) → IsProp (Distinct xs)
Distinct-prop [] = hlevel
Distinct-prop (x ∷ xs) = ×_prop (Option-is_set (lookup x.agent_id xs) none) (Distinct-prop xs)

pub Distinct-perm : {xs ys : List AgentRecord} → Perm xs ys → Distinct xs → Distinct ys
Distinct-perm {xs} {ys} p d = ∥∥₁_elim p (Distinct-prop ys) (λ q. (Same-permᴰ q d).distinct)

-- A function on records that keeps the ids.
module _ (f : AgentRecord → AgentRecord)
    (keeps : (x : AgentRecord) → (f x).agent_id ≡ x.agent_id) where
  pub lookup-map :
      (k : Bytes) (xs : List AgentRecord) → lookup k (map f xs) ≡ map_option f (lookup k xs)
  unfolding find_if has_id
  lookup-map k [] = refl
  lookup-map k (x ∷ xs) = ground (arith, lookup-map k xs, keeps x)

  pub Distinct-map : (xs : List AgentRecord) → Distinct xs → Distinct (map f xs)
  Distinct-map [] d = tt
  Distinct-map (x ∷ xs) (hx, d) =
      (ground (arith, keeps x, lookup-map (f x).agent_id xs, hx), Distinct-map xs d)
