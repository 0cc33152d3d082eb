-- ===== src/Metadata.antt =====
-- The `std::map<std::string, std::string>` of types.hpp: its entries in the order of the keys, and
-- `m[key] = value`. The order of `std::string` is that of the bytes, from the first on.
use beacon_node.Base.{
  List, [], ◌∷◌, ◌++◌, Bool, true, false, ◌≡◌, refl, ltb, ◌==◌, if◌then◌else◌, arith, All,
}
use beacon_node.Base.Text.{Bytes, str_eq, str_eq→eq}

abbrev pub Metadata : Type 0
Metadata = List (Bytes × Bytes)

-- `std::string::operator<`
unfoldable pub str_lt : Bytes → Bytes → Bool
str_lt [] [] = false
str_lt [] (d ∷ t) = true
str_lt (c ∷ s) [] = false
str_lt (c ∷ s) (d ∷ t) =
    let rest = str_lt s t in if ltb c d then true else if c == d then rest else false

-- `m[key] = value`
unfoldable pub set : Bytes → Bytes → Metadata → Metadata
set k v [] = (k, v) ∷ []
set k v ((j, w) ∷ m) =
    let rest = set k v m in
    if str_lt k j then (k, v) ∷ (j, w) ∷ m else if str_eq j k then (k, v) ∷ m else (j, w) ∷ rest

-- Every key of the map lies behind `k`.
abbrev pub Above : Bytes → Metadata → Type 0
Above k [] = Unit
Above k ((j, w) ∷ m) = (str_lt k j ≡ true) × Above k m

abbrev pub IsOrdered : Metadata → Type 0
IsOrdered [] = Unit
IsOrdered ((k, v) ∷ m) = Above k m × IsOrdered m

pub str_lt_irrefl : (s : Bytes) → str_lt s s ≡ false
unfolding str_lt
str_lt_irrefl [] = refl
str_lt_irrefl (c ∷ s) = ground (arith, str_lt_irrefl s)

pub str_lt_trans : (s t u : Bytes) → str_lt s t ≡ true → str_lt t u ≡ true → str_lt s u ≡ true
unfolding str_lt
str_lt_trans [] [] u p q = cc
str_lt_trans [] (d ∷ t) [] p q = cc
str_lt_trans [] (d ∷ t) (e ∷ u) p q = refl
str_lt_trans (c ∷ s) [] u p q = cc
str_lt_trans (c ∷ s) (d ∷ t) [] p q = cc
str_lt_trans (c ∷ s) (d ∷ t) (e ∷ u) p q = ground (arith, str_lt_trans s t u)

pub str_lt_asymm : (s t : Bytes) → str_lt s t ≡ true → str_lt t s ≡ false
unfolding str_lt
str_lt_asymm [] [] p = cc
str_lt_asymm [] (d ∷ t) p = refl
str_lt_asymm (c ∷ s) [] p = cc
str_lt_asymm (c ∷ s) (d ∷ t) p = ground (arith, str_lt_asymm s t)

-- Keys that are not smaller and not equal are greater.
pub str_lt_total : (s t : Bytes) → str_lt s t ≡ false → str_eq t s ≡ false → str_lt t s ≡ true
unfolding str_lt str_eq
str_lt_total [] [] p q = cc
str_lt_total [] (d ∷ t) p q = cc
str_lt_total (c ∷ s) [] p q = refl
str_lt_total (c ∷ s) (d ∷ t) p q = ground (arith, str_lt_total s t)

Above-trans : (j k : Bytes) (m : Metadata) → str_lt j k ≡ true → Above k m → Above j m
Above-trans j k [] p h = tt
Above-trans j k ((i, w) ∷ m) p (q, h) = (str_lt_trans j k i p q, Above-trans j k m p h)

Above-set : (j k v : Bytes) (m : Metadata) → str_lt j k ≡ true → Above j m → Above j (set k v m)
unfolding set
Above-set j k v [] p h = (p, tt)
Above-set j k v ((i, w) ∷ m) p (q, h) = ground (arith, Above-set j k v m p h)

-- `m[key] = value` keeps the entries in the order of their keys, each key once.
pub set-IsOrdered : (k v : Bytes) (m : Metadata) → IsOrdered m → IsOrdered (set k v m)
unfolding set
set-IsOrdered k v [] h = (tt, tt)
set-IsOrdered k v ((j, w) ∷ m) (above, h) = ground (
  arith,
  set-IsOrdered k v m h,
  Above-trans k j m,
  Above-set j k v m,
  str_lt_total k j,
  str_eq→eq j k,
)

-- An entry whose key is greater than all others is written at the end.
pub set_last :
    (k v : Bytes) (m : Metadata)
    → All (λ (e : Bytes × Bytes). str_lt e.0 k ≡ true) m
    → set k v m ≡ m ++ (k, v) ∷ []
unfolding set
set_last k v [] h = refl
set_last k v ((j, w) ∷ m) (p, h) =
    ground
      (arith, str_lt_asymm j k p, set_last k v m h, str_eq→eq j k, str_lt_irrefl k, str_lt_irrefl j)
