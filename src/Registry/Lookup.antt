-- ===== src/Registry/Lookup.antt =====
-- What the loops of the registry do to the record that `find` returns for a key.
use beacon_node.Base.{
  List, [], ◌∷◌, ◌++◌, Bool, true, Option, none, some, ◌≡◌, refl, arith, if◌then◌else◌, find_if,
  modify_first, filter,
}
use beacon_node.Base.Text.{Bytes, str_eq, str_eq_iff}
use beacon_node.Types.{AgentRecord}
use beacon_node.Registry.{has_id}

-- The first of two answers.
abbrev pub or_else {ℓ} : {A : Type ℓ} → Option A → Option A → Option A
or_else none o = o
or_else (some x) o = some x

-- The value, if it passes the test.
abbrev pub keep_if {ℓ} : {A : Type ℓ} → (A → Bool) → Option A → Option A
keep_if p none = none
keep_if p (some x) = if p x then some x else none

abbrev pub map_option {ℓ κ} : {A : Type ℓ} {B : Type κ} → (A → B) → Option A → Option B
map_option f none = none
map_option f (some x) = some (f x)

-- The answer of `find` on the records themselves.
abbrev pub lookup : Bytes → List AgentRecord → Option AgentRecord
lookup k xs = find_if (has_id k) xs

pub lookup-append :
    (k : Bytes) (xs ys : List AgentRecord)
    → lookup k (xs ++ ys) ≡ or_else (lookup k xs) (lookup k ys)
unfolding find_if
lookup-append k [] ys = refl
lookup-append k (x ∷ xs) ys = ground (arith, lookup-append k xs ys)

pub lookup_one :
    (k : Bytes) (r : AgentRecord)
    → lookup k (r ∷ []) ≡ (if str_eq r.agent_id k then some r else none)
unfolding find_if has_id
lookup_one k r = refl

-- What `find_if` returns passes its test.
pub lookup-has_id :
    (k : Bytes) (xs : List AgentRecord) (x : AgentRecord)
    → lookup k xs ≡ some x
    → str_eq x.agent_id k ≡ true
unfolding find_if has_id
lookup-has_id k [] x h = cc
lookup-has_id k (y ∷ ys) x h = ground (arith, lookup-has_id k ys x)

-- A write to the first record of a key, which keeps the key, is seen under that key alone.
pub lookup-modify_first :
    (i k : Bytes) (f : AgentRecord → AgentRecord) (xs : List AgentRecord)
    → ((x : AgentRecord) → str_eq x.agent_id i ≡ true → str_eq (f x).agent_id i ≡ true)
    → lookup k (modify_first (has_id i) f xs)
      ≡ (if str_eq i k then map_option f (lookup i xs) else lookup k xs)
unfolding find_if modify_first has_id
lookup-modify_first i k f [] h = ground arith
lookup-modify_first i k f (x ∷ xs) h = ground (
  arith,
  lookup-modify_first i k f xs h,
  h x,
  str_eq_iff i k,
  str_eq_iff x.agent_id i,
  str_eq_iff x.agent_id k,
  str_eq_iff (f x).agent_id i,
  str_eq_iff (f x).agent_id k,
)

pub lookup-filter-none :
    (k : Bytes) (p : AgentRecord → Bool) (xs : List AgentRecord)
    → lookup k xs ≡ none
    → lookup k (filter p xs) ≡ none
unfolding find_if filter
lookup-filter-none k p [] h = refl
lookup-filter-none k p (x ∷ xs) h = ground (arith, lookup-filter-none k p xs)
