-- ===== src/Registry/Distinct.antt =====
-- The invariant of the registry: no two records have the same agent id.
use beacon_node.Base.{
  List, [], ◌∷◌, ◌++◌, Bool, true, none, ◌≡◌, refl, arith, find_if, modify_first, filter,
}
use beacon_node.Base.Text.{Bytes, str_eq, str_eq_iff}
use beacon_node.Types.{AgentRecord}
use beacon_node.Registry.{AgentRegistry, has_id}
use beacon_node.Registry.Lookup.{
  lookup, lookup-append, lookup_one, lookup-modify_first, lookup-filter-none, keep_if,
}

abbrev pub Distinct : List AgentRecord → Type 0
Distinct [] = Unit
Distinct (x ∷ xs) = (lookup x.agent_id xs ≡ none) × Distinct xs

pub Distinct-append_one :
    (xs : List AgentRecord) (r : AgentRecord)
    → lookup r.agent_id xs ≡ none
    → Distinct xs
    → Distinct (xs ++ r ∷ [])
unfolding find_if has_id
Distinct-append_one [] r h d = (refl, tt)
Distinct-append_one (x ∷ xs) r h (new, d) = ground (
  arith,
  lookup-append x.agent_id xs (r ∷ []),
  lookup_one x.agent_id r,
  str_eq_iff r.agent_id x.agent_id,
  str_eq_iff x.agent_id r.agent_id,
  Distinct-append_one xs r,
)

pub Distinct-modify_first :
    (i : Bytes) (f : AgentRecord → AgentRecord) (xs : List AgentRecord)
    → ((x : AgentRecord) → str_eq x.agent_id i ≡ true → str_eq (f x).agent_id i ≡ true)
    → Distinct xs
    → Distinct (modify_first (has_id i) f xs)
unfolding modify_first has_id
Distinct-modify_first i f [] h d = tt
Distinct-modify_first i f (x ∷ xs) h (new, d) = ground (
  arith,
  h x,
  str_eq_iff x.agent_id i,
  str_eq_iff (f x).agent_id i,
  str_eq_iff i x.agent_id,
  lookup-modify_first i x.agent_id f xs h,
  Distinct-modify_first i f xs h,
)

pub Distinct-filter :
    (p : AgentRecord → Bool) (xs : List AgentRecord) → Distinct xs → Distinct (filter p xs)
unfolding filter
Distinct-filter p [] d = tt
Distinct-filter p (x ∷ xs) (new, d) =
    ground (arith, Distinct-filter p xs d, lookup-filter-none x.agent_id p xs)

-- Where ids are distinct, a record that is filtered out leaves nothing behind under its key.
pub lookup-filter :
    (k : Bytes) (p : AgentRecord → Bool) (xs : List AgentRecord)
    → Distinct xs
    → lookup k (filter p xs) ≡ keep_if p (lookup k xs)
unfolding find_if filter has_id
lookup-filter k p [] d = refl
lookup-filter k p (x ∷ xs) (new, d) =
    ground (arith, lookup-filter k p xs d, str_eq_iff x.agent_id k, lookup-filter-none k p xs)

pub record IsValid (g : AgentRegistry) : Type 0 where
  pub distinct : Distinct g.records
