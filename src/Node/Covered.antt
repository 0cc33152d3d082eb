-- ===== src/Node/Covered.antt =====
-- The records of a list that stored records come from, for a relation between the two.
use beacon_node.Base.{List, [], ◌∷◌, ◌++◌, ◌⊎◌, inl, inr, refl, ap, arith, ◌≡◌}
use beacon_node.Types.{AgentRecord}
use beacon_node.Node.{Renewed}

-- A relation between a record that was handed to the callback and a stored one which heartbeats keep.
pub record IsOrigin (R : AgentRecord → AgentRecord → Type 0) : Type 0 where
  pub same_id : (y x : AgentRecord) → R y x → x.agent_id ≡ y.agent_id
  pub own : (r : AgentRecord) → R r r
  pub kept : (y x z : AgentRecord) → R y x → Renewed x z → R y z

-- A record that is renewed twice is renewed.
pub Renewed-IsOrigin : IsOrigin Renewed
Renewed-IsOrigin = record {
  same_id = λ y x h. ap (λ (r : AgentRecord). r.agent_id) h.same;
  own = λ r. record { same = refl; newer = omega arith };
  kept =
      λ y x z h r. record { same = cc (h.same, r.same); newer = omega (arith, h.newer, r.newer) };
}

module _ (R : AgentRecord → AgentRecord → Type 0) where
  -- Some record of the list is the one that the stored record comes from.
  abbrev pub Covered : List AgentRecord → AgentRecord → Type 0
  Covered [] x = ⊥
  Covered (y ∷ ys) x = R y x ⊎ Covered ys x

  pub Covered-append_left :
      (ys zs : List AgentRecord) (x : AgentRecord) → Covered ys x → Covered (ys ++ zs) x
  Covered-append_left [] zs x h = absurd h
  Covered-append_left (y ∷ ys) zs x (inl h) = inl h
  Covered-append_left (y ∷ ys) zs x (inr h) = inr (Covered-append_left ys zs x h)

  pub Covered-append_right :
      (ys zs : List AgentRecord) (x : AgentRecord) → Covered zs x → Covered (ys ++ zs) x
  Covered-append_right [] zs x h = h
  Covered-append_right (y ∷ ys) zs x h = inr (Covered-append_right ys zs x h)

  -- A callback that runs takes its record from the pending ones to the logged ones.
  pub Covered-moved :
      (logged before after : List AgentRecord) (r x : AgentRecord)
      → Covered (logged ++ (before ++ r ∷ after)) x
      → Covered ((logged ++ r ∷ []) ++ (before ++ after)) x
  Covered-moved (y ∷ logged) before after r x (inl h) = inl h
  Covered-moved (y ∷ logged) before after r x (inr h) =
      inr (Covered-moved logged before after r x h)
  Covered-moved [] [] after r x h = h
  Covered-moved [] (y ∷ before) after r x (inl h) = inr (inl h)
  Covered-moved [] (y ∷ before) after r x (inr h) = elim (Covered-moved [] before after r x h) [
    | inl here' ↦ inl here'
    | inr more ↦ inr (inr more)
  ]

  module _ (origin : IsOrigin R) where
    pub Covered-Renewed :
        (ys : List AgentRecord) (x z : AgentRecord) → Renewed x z → Covered ys x → Covered ys z
    Covered-Renewed [] x z r h = absurd h
    Covered-Renewed (y ∷ ys) x z r (inl h) = inl (origin.kept y x z h r)
    Covered-Renewed (y ∷ ys) x z r (inr h) = inr (Covered-Renewed ys x z r h)

    pub Covered-snoc : (l : List AgentRecord) (r : AgentRecord) → Covered (l ++ r ∷ []) r
    Covered-snoc l r = Covered-append_right l (r ∷ []) r (inl (origin.own r))
