-- ===== src/Gossip/Rounds.antt =====
-- The peers of a round and the records that a round offers.
use mathlib.Core.List.Perm
use mathlib.Core.Logic.{∥∥₁_elim}
use mathlib.Core.HLevel.{×_prop}
use native.Mathlib.Bridge.{le_prop}
use mathlib.Core.List.{Permᴰ, Perm}
use beacon_node.Base.{
  ℕ, zero, suc, ◌+◌, ◌<◌, List, [], ◌∷◌, ◌++◌, true, false, if◌then◌else◌, length, ◌≡◌, ◌≢◌, All,
  arith, refl, subst, All-take, All-prop, All-map, ◌∙◌, sym, length-take, length-perm, All-perm,
  min, ◌≤◌, take,
}
use beacon_node.Base.Text.{str_eq_iff}
use beacon_node.Gossip.{
  GossipPeer, same_address, has_peer, add_peer, indices_from, Shuffler, pick_random_indices,
}

-- Two peers of the list never have one host and one control port.
abbrev pub HasAddresses : List GossipPeer → Type 0
HasAddresses [] = Unit
HasAddresses (p ∷ ps) = (has_peer ps p ≡ false) × HasAddresses ps

has_peer-append :
    (ps : List GossipPeer) (p q : GossipPeer)
    → has_peer (ps ++ p ∷ []) q ≡ (if has_peer ps q then true else same_address p q)
unfolding has_peer
has_peer-append [] p q = ground arith
has_peer-append (x ∷ ps) p q = ground (arith, has_peer-append ps p q)

same_address_comm : (p q : GossipPeer) → same_address p q ≡ same_address q p
same_address_comm p q = ground (arith, str_eq_iff p.host q.host, str_eq_iff q.host p.host)

has_peer_same :
    (ps : List GossipPeer) (p q : GossipPeer)
    → same_address p q ≡ true
    → has_peer ps p ≡ has_peer ps q
unfolding has_peer
has_peer_same [] p q h = refl
has_peer_same (x ∷ ps) p q h = ground (
  arith,
  has_peer_same ps p q h,
  str_eq_iff p.host q.host,
  str_eq_iff x.host p.host,
  str_eq_iff x.host q.host,
)

HasAddresses-append_one :
    (ps : List GossipPeer) (p : GossipPeer)
    → has_peer ps p ≡ false
    → HasAddresses ps
    → HasAddresses (ps ++ p ∷ [])
unfolding has_peer
HasAddresses-append_one [] p h v = (refl, tt)
HasAddresses-append_one (x ∷ ps) p h (new, v) =
    ground (arith, has_peer-append ps p x, same_address_comm p x, HasAddresses-append_one ps p)

-- `add_peer` keeps the addresses of the peers distinct, and afterwards the list has a peer at the address.
pub add_peer_lem :
    (ps : List GossipPeer) (p : GossipPeer)
    → HasAddresses ps
    → HasAddresses (add_peer ps p) × (has_peer (add_peer ps p) p ≡ true)
unfolding add_peer
add_peer_lem ps p v =
    ground (arith, HasAddresses-append_one ps p, has_peer-append ps p p, str_eq_iff p.host p.host)

indices_bound : (i n : ℕ) → All (λ j. j < i + n) (indices_from i n)
unfolding indices_from
indices_bound i zero = tt
indices_bound i (suc n) = (
  omega arith,
  subst (λ (m : ℕ). All (λ j. j < m) (indices_from (i + 1) n)) (omega arith)
      (indices_bound (i + 1) n),
)

length-indices_from : (i n : ℕ) → length (indices_from i n) ≡ n
unfolding indices_from
length-indices_from i zero = refl
length-indices_from i (suc n) = omega (arith, length-indices_from (i + 1) n)

-- No element occurs twice.
abbrev pub Differs : ℕ → List ℕ → Type 0
Differs i = All (λ j. i ≢ j)

abbrev pub NoRepeats : List ℕ → Type 0
NoRepeats [] = Unit
NoRepeats (i ∷ is) = Differs i is × NoRepeats is

Differs-prop : (i j : ℕ) → IsProp (i ≢ j)
Differs-prop i j = hlevel

NoRepeats-prop : (is : List ℕ) → IsProp (NoRepeats is)
NoRepeats-prop [] = hlevel
NoRepeats-prop (i ∷ is) = ×_prop (All-prop (λ j. i ≢ j) (Differs-prop i) is) (NoRepeats-prop is)

NoRepeats-permᴰ : {is js : List ℕ} → Permᴰ is js → NoRepeats is → NoRepeats js
NoRepeats-permᴰ Permᴰ.nil h = h
NoRepeats-permᴰ {is = i ∷ is} (Permᴰ.cons {l₂ = js} e p) (hi, h) = (
  subst (λ a. Differs a js) e (All-perm (λ j. i ≢ j) (Differs-prop i) ∣ p ∣₁ hi),
  NoRepeats-permᴰ p h,
)
NoRepeats-permᴰ (Permᴰ.swap {l = l} e e') ((ne, ha), (hb, h)) = (
  (λ q. ne (e ∙ sym q ∙ sym e'), subst (λ a. Differs a l) e' hb),
  (subst (λ a. Differs a l) e ha, h),
)
NoRepeats-permᴰ (Permᴰ.trans p q) h = NoRepeats-permᴰ q (NoRepeats-permᴰ p h)

NoRepeats-perm : {is js : List ℕ} → Perm is js → NoRepeats is → NoRepeats js
NoRepeats-perm {js = js} p h = ∥∥₁_elim p (NoRepeats-prop js) (λ d. NoRepeats-permᴰ d h)

NoRepeats-take : (n : ℕ) (is : List ℕ) → NoRepeats is → NoRepeats (take n is)
NoRepeats-take zero is h = tt
NoRepeats-take (suc n) [] h = tt
NoRepeats-take (suc n) (i ∷ is) (hi, h) = (All-take (λ j. i ≢ j) n is hi, NoRepeats-take n is h)

indices_from-ge : (i n : ℕ) → All (λ j. i ≤ j) (indices_from i n)
unfolding indices_from
indices_from-ge i zero = tt
indices_from-ge i (suc n) = (
  omega arith,
  All-map (λ j. i + 1 ≤ j) (λ j. i ≤ j) (λ j h. omega arith) (indices_from (i + 1) n)
      (indices_from-ge (i + 1) n),
)

indices_from-NoRepeats : (i n : ℕ) → NoRepeats (indices_from i n)
unfolding indices_from
indices_from-NoRepeats i zero = tt
indices_from-NoRepeats i (suc n) = (
  All-map (λ j. i + 1 ≤ j) (λ j. i ≢ j) (λ j h. omega arith) (indices_from (i + 1) n)
      (indices_from-ge (i + 1) n),
  indices_from-NoRepeats (i + 1) n,
)

pick_random_indices_some :
    (s : Shuffler) (n fanout : ℕ)
    → pick_random_indices s (suc n) fanout
      ≡ take (min fanout (suc n)) (Shuffler.shuffle s (indices_from 0 (suc n)))
unfolding pick_random_indices
pick_random_indices_some s n fanout = ground arith

-- The indices of a round are below the number of peers, none occurs twice, and there are as many as the
-- fanout and the number of peers allow, however the indices are shuffled.
pub pick_random_indices_lem :
    (s : Shuffler) (count fanout : ℕ)
    → All (λ i. i < count) (pick_random_indices s count fanout)
      × NoRepeats (pick_random_indices s count fanout)
      × (length (pick_random_indices s count fanout) ≡ min fanout count)
pick_random_indices_lem s zero fanout = unfold pick_random_indices in (tt, tt, omega arith)
pick_random_indices_lem s (suc n) fanout =
    let all = indices_from 0 (suc n) in
    let mixed = Shuffler.shuffle s all in
    let m = min fanout (suc n) in
    rw pick_random_indices_some (
      All-take (λ i. i < suc n) m mixed
          (All-perm (λ i. i < suc n) (λ i. le_prop) (Perm.symm (s.shuffle-perm all)) below),
      NoRepeats-take m mixed
          (NoRepeats-perm (Perm.symm (s.shuffle-perm all)) (indices_from-NoRepeats 0 (suc n))),
      omega (
        arith,
        length-take m mixed,
        length-perm (s.shuffle-perm all),
        length-indices_from 0 (suc n),
      ),
    )
  where
    below : All (λ i. i < suc n) (indices_from 0 (suc n))
    below =
        All-map (λ i. i < 0 + suc n) (λ i. i < suc n) (λ i h. omega arith) (indices_from 0 (suc n))
          (indices_bound 0 (suc n))
