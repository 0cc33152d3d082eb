-- ===== src/Node/Restored.antt =====
-- Which of the logged records of an agent src/beacon_engine/main.cpp restores, and with which expiry.
use beacon_node.Base.{
  ◌<◌, ◌≤◌, ◌≡◌, List, [], ◌∷◌, inl, inr, refl, ◌∙◌, ap, sym, subst, arith, lt→ltb, ◌⊎◌, All,
  Option, none, some, true, false, if◌then◌else◌, Bool-cases, ltb, find_if,
}
use beacon_node.Base.Text.{Bytes, str_eq, str_eq_iff}
use beacon_node.Types.{AgentRecord, TimePoint}
use beacon_node.Registry.{has_id}
use beacon_node.Registry.Lookup.{lookup}
use beacon_node.Registry.Refinement.{loaded}
use beacon_node.Registry.Loading.{loaded_all}
use beacon_node.Engine.Restart.{entry_of, record_of}
use beacon_node.Node.Durability.{Among, restored}

-- The agent is there with the given expiry.
abbrev pub ExpiresAt : TimePoint → Option AgentRecord → Type 0
ExpiresAt t none = ⊥
ExpiresAt t (some x) = x.expires_at ≡ t

-- The record `z` is of another agent, or not newer than `x`.
abbrev pub IsNewest : Bytes → AgentRecord → AgentRecord → Type 0
IsNewest k x z = (str_eq z.agent_id k ≡ false) ⊎ (z.revision ≤ x.revision)

module _ (t now : TimePoint) (k : Bytes) where
  -- What one logged record makes of what stands under the key.
  abbrev one_loaded : Option AgentRecord → AgentRecord → Option AgentRecord
  one_loaded o y =
      let r = record_of now (entry_of y) in if str_eq r.agent_id k then loaded t o r else o

  one_loaded_other :
      (o : Option AgentRecord) (y : AgentRecord) → str_eq y.agent_id k ≡ false → one_loaded o y ≡ o
  unfolding record_of entry_of
  one_loaded_other o y e = ground (arith, e)

  one_loaded_newer :
      (x y : AgentRecord)
      → str_eq y.agent_id k ≡ true
      → ltb x.revision y.revision ≡ true
      → one_loaded (some x) y ≡ some (record_of now (entry_of y))
  unfolding record_of entry_of
  one_loaded_newer x y e lt = ground (arith, e, lt)

  one_loaded_older :
      (x y : AgentRecord) → ltb x.revision y.revision ≡ false → one_loaded (some x) y ≡ some x
  unfolding record_of entry_of
  one_loaded_older x y ge = ground (arith, ge)

  one_loaded_kept : (x y : AgentRecord) → IsNewest k x y → one_loaded (some x) y ≡ some x
  one_loaded_kept x y (inl other) = one_loaded_other (some x) y other
  one_loaded_kept x y (inr le) = one_loaded_older x y (ground (arith, le))

  one_loaded_first :
      (y : AgentRecord)
      → str_eq y.agent_id k ≡ true
      → one_loaded none y ≡ some (record (record_of now (entry_of y)) { expires_at = t })
  unfolding record_of entry_of
  one_loaded_first y e = ground (arith, e)

  -- The rest of the log, from what the first record makes.
  after :
      (o o' : Option AgentRecord) (ys : List AgentRecord)
      → o ≡ o'
      → ExpiresAt now (loaded_all t k o' (restored now ys))
      → ExpiresAt now (loaded_all t k o (restored now ys))
  after o o' ys e h = subst (λ a. ExpiresAt now (loaded_all t k a (restored now ys))) (sym e) h

  -- A record that has replaced another one has the time of the start for its expiry, and so has each one that
  -- replaces it.
  loaded_all-replaced :
      (x : AgentRecord) (logged : List AgentRecord)
      → x.expires_at ≡ now
      → ExpiresAt now (loaded_all t k (some x) (restored now logged))
  unfolding record_of entry_of
  loaded_all-replaced x [] h = h
  loaded_all-replaced x (y ∷ ys) h = elim (Bool-cases (str_eq y.agent_id k)) [
    | inr other ↦ after _ _ ys (one_loaded_other (some x) y other) (loaded_all-replaced x ys h)
    | inl same ↦ elim (Bool-cases (ltb x.revision y.revision)) [
      | inl lt ↦
          after _ _ ys (one_loaded_newer x y same lt)
            (loaded_all-replaced (record_of now (entry_of y)) ys refl)
      | inr ge ↦ after _ _ ys (one_loaded_older x y ge) (loaded_all-replaced x ys h)
    ]
  ]

  -- A record is replaced if a newer one of its agent follows.
  loaded_all-newer :
      (x z : AgentRecord) (logged : List AgentRecord)
      → Among logged z
      → z.agent_id ≡ k
      → x.revision < z.revision
      → ExpiresAt now (loaded_all t k (some x) (restored now logged))
  unfolding record_of entry_of
  loaded_all-newer x z [] h e lt = absurd h
  loaded_all-newer x z (y ∷ ys) (inl same) e lt =
      let own : str_eq y.agent_id k ≡ true =
        (str_eq_iff y.agent_id k).1 (ap (λ (r : AgentRecord). r.agent_id) (sym same) ∙ e) in
      let newer : ltb x.revision y.revision ≡ true =
        lt→ltb x.revision y.revision
          (subst (λ (r : AgentRecord). x.revision < r.revision) same lt) in
      after _ _ ys (one_loaded_newer x y own newer)
        (loaded_all-replaced (record_of now (entry_of y)) ys refl)
  loaded_all-newer x z (y ∷ ys) (inr h) e lt = elim (Bool-cases (str_eq y.agent_id k)) [
    | inr other ↦ after _ _ ys (one_loaded_other (some x) y other) (loaded_all-newer x z ys h e lt)
    | inl own ↦ elim (Bool-cases (ltb x.revision y.revision)) [
      | inl newer ↦
          after _ _ ys (one_loaded_newer x y own newer)
            (loaded_all-replaced (record_of now (entry_of y)) ys refl)
      | inr ge ↦ after _ _ ys (one_loaded_older x y ge) (loaded_all-newer x z ys h e lt)
    ]
  ]

  pub loaded_all-first :
      (first z : AgentRecord) (logged : List AgentRecord)
      → lookup k logged ≡ some first
      → Among logged z
      → z.agent_id ≡ k
      → first.revision < z.revision
      → ExpiresAt now (loaded_all t k none (restored now logged))
  unfolding record_of entry_of find_if has_id
  loaded_all-first first z [] f h e lt = cc
  loaded_all-first first z (y ∷ ys) f h e lt = elim (Bool-cases (str_eq y.agent_id k)) [
    | inl own ↦
        (let found : y ≡ first = ground (arith, own, f) in
          after _ _ ys (one_loaded_first y own) (
            loaded_all-newer (record (record_of now (entry_of y)) { expires_at = t }) z ys
              (behind found h) e
              (subst (λ (r : AgentRecord). r.revision < z.revision) (sym found) lt)))
    | inr other ↦
        after _ _ ys (one_loaded_other none y other)
          (loaded_all-first first z ys (ground (arith, other, f)) (later other h) e lt)
  ]
    where
      behind : y ≡ first → (z ≡ y) ⊎ Among ys z → Among ys z
      behind found (inr h) = h
      behind found (inl same) =
          absurd (omega (arith, ap (λ (r : AgentRecord). r.revision) (same ∙ found)))

      later : str_eq y.agent_id k ≡ false → (z ≡ y) ⊎ Among ys z → Among ys z
      later other (inr h) = h
      later other (inl same) =
          let own : str_eq y.agent_id k ≡ true =
            (str_eq_iff y.agent_id k).1 (ap (λ (r : AgentRecord). r.agent_id) (sym same) ∙ e) in
          cc

  -- A record stays if no newer one of its agent follows.
  loaded_all-newest :
      (x : AgentRecord) (logged : List AgentRecord)
      → All (IsNewest k x) logged
      → loaded_all t k (some x) (restored now logged) ≡ some x
  loaded_all-newest x [] h = refl
  loaded_all-newest x (y ∷ ys) (hy, h) =
      ap (λ o. loaded_all t k o (restored now ys)) (one_loaded_kept x y hy)
      ∙ loaded_all-newest x ys h

  pub loaded_all-back :
      (first : AgentRecord) (logged : List AgentRecord)
      → lookup k logged ≡ some first
      → All (IsNewest k first) logged
      → loaded_all t k none (restored now logged)
        ≡ some (record (record_of now (entry_of first)) { expires_at = t })
  unfolding find_if has_id record_of entry_of
  loaded_all-back first [] f h = cc
  loaded_all-back first (y ∷ ys) f (hy, h) = elim (Bool-cases (str_eq y.agent_id k)) [
    | inl own ↦
        (let found : y ≡ first = ground (arith, own, f) in
          let back = λ (r : AgentRecord). record (record_of now (entry_of r)) { expires_at = t } in
          ap (λ o. loaded_all t k o (restored now ys)) (one_loaded_first y own)
          ∙ ap (λ r. loaded_all t k (some (back r)) (restored now ys)) found
          ∙ loaded_all-newest (back first) ys h)
    | inr other ↦
        ap (λ o. loaded_all t k o (restored now ys)) (one_loaded_other none y other)
        ∙ loaded_all-back first ys (ground (arith, other, f)) h
  ]
