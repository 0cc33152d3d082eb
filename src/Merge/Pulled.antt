-- ===== src/Merge/Pulled.antt =====
-- What `AgentRegistry::merge` of src/beacon/agent_registry.cpp does with a batch of distinct agents.
use beacon_node.Base.{
  List, [], ◌∷◌, Option, none, some, false, ◌≡◌, refl, ◌∙◌, arith, find_if, Bool-cases, inl, inr,
  subst, sym, ap, ◌⊎◌, true,
}
use beacon_node.Base.Text.{Bytes, str_eq, str_eq_iff}
use beacon_node.Types.{AgentRecord}
use beacon_node.Crypto.{Sodium, missing, valid, decode_hex, verify_agent_signature}
use beacon_node.Crypto.Status.{verified_key}
use beacon_node.SecureBuffer.{Allocator, SecureBuffer, constant_time_equals}
use beacon_node.Identity.{
  IdentityService, find_key, memory_test, to_buffer, register_key, verify_and_register,
}
use beacon_node.Registry.{AgentRegistry, find, refuses, has_id}
use beacon_node.Registry.Lookup.{lookup, lookup-has_id}
use beacon_node.Registry.Distinct.{Distinct}
use beacon_node.Registry.Refinement.{find-upsert}
use beacon_node.Merge.Invariant.{merge_record_identity}
use beacon_node.Merge.{check_identity, merge_record, merge}

-- The key is the pinned one, if there is one.
abbrev pub IsPinned : Option Sodium → Option SecureBuffer → SecureBuffer → Type 0
IsPinned sodium none key = Unit
IsPinned sodium (some pinned) key = constant_time_equals (memory_test sodium) pinned key ≡ true

-- The record passes the identity check of a merge: there is no identity service, or the record has no
-- signature, or its signature is verified and its key is the pinned one of its agent, if there is one.
abbrev pub Passes : Allocator → Option Sodium → Option IdentityService → AgentRecord → Type 0
Passes fresh sodium none r = Unit
Passes fresh sodium (some s) r =
    (verify_agent_signature sodium r ≡ missing)
    ⊎ ((verify_agent_signature sodium r ≡ valid)
        × IsPinned sodium (find_key r.agent_id s.trust_store)
            (to_buffer fresh (decode_hex r.public_key_hex)))

-- The stored record, if there is one, does not refuse the record.
abbrev pub Accepts : Option AgentRecord → AgentRecord → Type 0
Accepts none r = Unit
Accepts (some e) r = refuses e r ≡ false

module _ (fresh : Allocator) (sodium : Option Sodium) where
  find_key_other :
      (s : IdentityService) (r : AgentRecord) (k : Bytes)
      → str_eq r.agent_id k ≡ false
      → find_key k (verify_and_register fresh sodium s r).0.trust_store ≡ find_key k s.trust_store
  unfolding verify_and_register register_key find_key
  find_key_other s r k h = ground (arith, h)

  -- The check of another agent's record does not change what passes.
  Passes-merge_record :
      (g : AgentRegistry) (identity : Option IdentityService) (r x : AgentRecord)
      → str_eq r.agent_id x.agent_id ≡ false
      → Passes fresh sodium identity x
      → Passes fresh sodium (merge_record fresh sodium g identity r).identity x
  unfolding merge_record check_identity
  Passes-merge_record g none r x other h = ground arith
  Passes-merge_record g (some s) r x other (inl h) =
      rw (merge_record_identity fresh sodium g s r) (inl h)
  Passes-merge_record g (some s) r x other (inr (h, pinned)) =
      rw (merge_record_identity fresh sodium g s r) (
        inr (
          h,
          subst (λ o. IsPinned sodium o (to_buffer fresh (decode_hex x.public_key_hex)))
              (sym (find_key_other s r x.agent_id other)) pinned,
        ))

  find-merge_record_other :
      (g : AgentRegistry) (identity : Option IdentityService) (r : AgentRecord) (k : Bytes)
      → str_eq r.agent_id k ≡ false
      → find (merge_record fresh sodium g identity r).registry k ≡ find g k
  unfolding merge_record
  find-merge_record_other g identity r k h = ground (arith, find-upsert g r k, h)

  -- A merge does not touch the agents that are not in the batch.
  pub find-merge_other :
      (rs : List AgentRecord) (g : AgentRegistry) (identity : Option IdentityService) (k : Bytes)
      → lookup k rs ≡ none
      → find (merge fresh sodium g identity rs).registry k ≡ find g k
  unfolding merge find_if has_id
  find-merge_other [] g identity k h = refl
  find-merge_other (r ∷ rs) g identity k h =
      let first = merge_record fresh sodium g identity r in
      ground (
        arith,
        h,
        find-merge_record_other g identity r k,
        find-merge_other rs first.registry first.identity k,
      )

  -- A record that passes is valid or without a signature for the identity service.
  Passes-check_identity :
      (identity : Option IdentityService) (r : AgentRecord)
      → Passes fresh sodium identity r
      → (check_identity fresh sodium identity r).1 ≡ true
  unfolding check_identity verify_and_register register_key
  Passes-check_identity none r h = refl
  Passes-check_identity (some s) r (inl h) = ground (arith, h)
  Passes-check_identity (some s) r (inr (h, pinned)) =
      by_key (find_key r.agent_id s.trust_store) refl pinned
    where
      by_key :
          (found : Option SecureBuffer)
          → find_key r.agent_id s.trust_store ≡ found
          → IsPinned sodium found (to_buffer fresh (decode_hex r.public_key_hex))
          → (check_identity fresh sodium (some s) r).1 ≡ true
      by_key none e q = ground (arith, h, e, verified_key sodium r)
      by_key (some b) e q = ground (arith, h, e, q, verified_key sodium r)

  find-merge_record_new :
      (g : AgentRegistry) (identity : Option IdentityService) (r : AgentRecord)
      → Passes fresh sodium identity r
      → Accepts (find g r.agent_id) r
      → find (merge_record fresh sodium g identity r).registry r.agent_id ≡ some r
  unfolding merge_record refuses
  find-merge_record_new g identity r h older = ground (
    arith,
    Passes-check_identity identity r h,
    find-upsert g r r.agent_id,
    str_eq_iff r.agent_id r.agent_id,
    older,
  )

  own_id :
      (rs : List AgentRecord) (k : Bytes) (x : AgentRecord) → lookup k rs ≡ some x → x.agent_id ≡ k
  own_id rs k x h = (str_eq_iff x.agent_id k).0 (lookup-has_id k rs x h)

  -- A merge of a batch of distinct agents stores every record of the batch that passes the identity check
  -- and that the record under its id does not refuse.
  pub find-merge_new :
      (rs : List AgentRecord) (g : AgentRegistry) (identity : Option IdentityService) (k : Bytes)
      (x : AgentRecord)
      → Distinct rs
      → lookup k rs ≡ some x
      → Passes fresh sodium identity x
      → Accepts (find g k) x
      → find (merge fresh sodium g identity rs).registry k ≡ some x
  unfolding merge find_if has_id
  find-merge_new [] g identity k x d h passes older = cc
  find-merge_new (r ∷ rs) g identity k x (new, d) h passes older =
      let first = merge_record fresh sodium g identity r in
      elim (Bool-cases (str_eq r.agent_id k)) [
        | inl e ↦
            (let same : r.agent_id ≡ k = (str_eq_iff r.agent_id k).0 e in
              let found : r ≡ x = ground (arith, e, h) in
              find-merge_other rs first.registry first.identity k
                (subst (λ t. lookup t rs ≡ none) same new)
              ∙ subst (λ t. find first.registry t ≡ some r) same
                  (find-merge_record_new g identity r
                    (subst (Passes fresh sodium identity) (sym found) passes)
                    (subst (λ t. Accepts (find g t) r) (sym same)
                      (subst (Accepts (find g k)) (sym found) older)))
              ∙ ap some found)
        | inr e ↦
            find-merge_new rs first.registry first.identity k x d (ground (arith, e, h))
              (Passes-merge_record g identity r x
                (subst (λ t. str_eq r.agent_id t ≡ false)
                  (sym (own_id rs k x (ground (arith, e, h)))) e)
                passes)
              (subst (λ o. Accepts o x) (sym (find-merge_record_other g identity r k e)) older)
      ]
