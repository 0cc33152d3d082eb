-- ===== src/Merge/Invariant.antt =====
-- What `AgentRegistry::merge` keeps, and where the records come from.
use beacon_node.Base.{
  ◌≤◌, List, [], ◌∷◌, true, ◌≡◌, ◌⊎◌, inl, Option, none, some, arith, refl, subst, ap, sym,
}
use beacon_node.Base.Text.{Bytes, str_eq_iff}
use beacon_node.Types.{AgentRecord}
use beacon_node.Crypto.{Sodium, valid, missing, verify_agent_signature}
use beacon_node.SecureBuffer.{Allocator}
use beacon_node.Identity.{IdentityService, verify_and_register, register_key}
use beacon_node.Registry.{AgentRegistry, upsert, find, refuses}
use beacon_node.Registry.Distinct.{IsValid}
use beacon_node.Registry.Invariant.{upsert-IsValid}
use beacon_node.Registry.Refinement.{merged, find-upsert}
use beacon_node.Merge.{MergeResult, check_identity, merge_record, merge}

-- The record under a key is not lost, and its revision does not fall.
abbrev pub Advances : Option AgentRecord → Option AgentRecord → Type 0
Advances none o = Unit
Advances (some e) none = ⊥
Advances (some e) (some e') = e.revision ≤ e'.revision

pub Advances-refl : (o : Option AgentRecord) → Advances o o
Advances-refl none = tt
Advances-refl (some e) = omega arith

pub Advances-trans : (o p q : Option AgentRecord) → Advances o p → Advances p q → Advances o q
Advances-trans none p q h h' = tt
Advances-trans (some e) none q h h' = absurd h
Advances-trans (some e) (some f) none h h' = absurd h'
Advances-trans (some e) (some f) (some g) h h' = omega arith

Advances-merged : (o : Option AgentRecord) (r : AgentRecord) → Advances o (merged o r)
unfolding refuses
Advances-merged o r = ground arith

-- An upsert loses no agent and lowers no revision.
pub upsert-Advances :
    (g : AgentRegistry) (r : AgentRecord) (k : Bytes)
    → Advances (find g k) (find (upsert g r).registry k)
upsert-Advances g r k = rw find-upsert (
    ground (
      arith,
      str_eq_iff r.agent_id k,
      Advances-merged (find g r.agent_id) r,
      Advances-refl (find g k),
    ))

module _ (fresh : Allocator) (sodium : Option Sodium) where
  merge_record-IsValid :
      (g : AgentRegistry) (identity : Option IdentityService) (r : AgentRecord)
      → IsValid g
      → IsValid (merge_record fresh sodium g identity r).registry
  unfolding merge_record
  merge_record-IsValid g identity r v = ground (arith, upsert-IsValid g r v)

  -- A merge keeps the agent ids of the registry distinct.
  pub merge-IsValid :
      (rs : List AgentRecord) (g : AgentRegistry) (identity : Option IdentityService)
      → IsValid g
      → IsValid (merge fresh sodium g identity rs).registry
  unfolding merge
  merge-IsValid [] g identity v = v
  merge-IsValid (r ∷ rs) g identity v =
      merge-IsValid rs (merge_record fresh sodium g identity r).registry
        (merge_record fresh sodium g identity r).identity (merge_record-IsValid g identity r v)

  merge_record-Advances :
      (g : AgentRegistry) (identity : Option IdentityService) (r : AgentRecord) (k : Bytes)
      → Advances (find g k) (find (merge_record fresh sodium g identity r).registry k)
  unfolding merge_record
  merge_record-Advances g identity r k =
      ground (arith, upsert-Advances g r k, Advances-refl (find g k))

  -- A merge loses no agent and lowers no agent's revision.
  pub merge-Advances :
      (rs : List AgentRecord) (g : AgentRegistry) (identity : Option IdentityService) (k : Bytes)
      → Advances (find g k) (find (merge fresh sodium g identity rs).registry k)
  unfolding merge
  merge-Advances [] g identity k = Advances-refl (find g k)
  merge-Advances (r ∷ rs) g identity k =
      let first = merge_record fresh sodium g identity r in
      Advances-trans (find g k) (find (MergeResult.registry first) k)
        (find
          (merge fresh sodium (MergeResult.registry first) (MergeResult.identity first) rs).registry
          k)
        (merge_record-Advances g identity r k)
        (merge-Advances rs (MergeResult.registry first) (MergeResult.identity first) k)

-- The record under the key `k` is one of the batch, of that key, and its signature is verified or
-- missing.
abbrev pub FromBatch : Option Sodium → Bytes → Option AgentRecord → List AgentRecord → Type 0
FromBatch sodium k o [] = ⊥
FromBatch sodium k o (r ∷ rs) =
    ((o ≡ some r)
      × (r.agent_id ≡ k)
      × ((verify_agent_signature sodium r ≡ valid) ⊎ (verify_agent_signature sodium r ≡ missing)))
    ⊎ FromBatch sodium k o rs

module _ (fresh : Allocator) (sodium : Option Sodium) where
  passed_signature :
      (s : IdentityService) (r : AgentRecord)
      → (check_identity fresh sodium (some s) r).1 ≡ true
      → (verify_agent_signature sodium r ≡ valid) ⊎ (verify_agent_signature sodium r ≡ missing)
  unfolding check_identity verify_and_register register_key
  passed_signature s r h = ground arith

  merge_record_source :
      (g : AgentRegistry) (s : IdentityService) (r : AgentRecord) (k : Bytes)
      → (find (merge_record fresh sodium g (some s) r).registry k ≡ find g k)
        ⊎ FromBatch sodium k (find (merge_record fresh sodium g (some s) r).registry k) (r ∷ [])
  unfolding merge_record refuses
  merge_record_source g s r k =
      ground (arith, find-upsert g r k, passed_signature s r, str_eq_iff r.agent_id k)

  pub merge_record_identity :
      (g : AgentRegistry) (s : IdentityService) (r : AgentRecord)
      → (merge_record fresh sodium g (some s) r).identity
        ≡ some (verify_and_register fresh sodium s r).0
  unfolding merge_record check_identity
  merge_record_identity g s r = ground arith

  combine_sources :
      (k : Bytes) (before between after : Option AgentRecord) (r : AgentRecord)
      (rs : List AgentRecord)
      → (after ≡ between) ⊎ FromBatch sodium k after rs
      → (between ≡ before) ⊎ FromBatch sodium k between (r ∷ [])
      → (after ≡ before) ⊎ FromBatch sodium k after (r ∷ rs)
  combine_sources k before between after r rs p q = ground arith

  merge_step :
      (r : AgentRecord) (rs : List AgentRecord) (g : AgentRegistry) (s : IdentityService)
      → (merge fresh sodium g (some s) (r ∷ rs)).registry
        ≡ (merge fresh sodium
            (merge_record fresh sodium g (some s) r).registry
            (some (verify_and_register fresh sodium s r).0)
            rs).registry
  unfolding merge
  merge_step r rs g s =
      ap (λ i. (merge fresh sodium (merge_record fresh sodium g (some s) r).registry i rs).registry)
        (merge_record_identity g s r)

  -- With an identity service, whatever a merge changes in the registry is a record of the batch whose
  -- signature is verified or missing; every other key stays bound as it was.
  pub merge_source :
      (rs : List AgentRecord) (g : AgentRegistry) (s : IdentityService) (k : Bytes)
      → (find (merge fresh sodium g (some s) rs).registry k ≡ find g k)
        ⊎ FromBatch sodium k (find (merge fresh sodium g (some s) rs).registry k) rs
  merge_source [] g s k = inl (unfold merge in refl)
  merge_source (r ∷ rs) g s k =
      let next = (merge_record fresh sodium g (some s) r).registry in
      let s' = (verify_and_register fresh sodium s r).0 in
      subst (λ o. (o ≡ find g k) ⊎ FromBatch sodium k o (r ∷ rs))
        (ap (λ h. find h k) (sym (merge_step r rs g s)))
        (combine_sources k (find g k) (find next k)
          (find (merge fresh sodium next (some s') rs).registry k) r rs (merge_source rs next s' k)
          (merge_record_source g s r k))
