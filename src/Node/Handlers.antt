-- ===== src/Node/Handlers.antt =====
-- The lines of the control port and the merges as runs of steps.
use beacon_node.Merge.{merge, merge_record, check_identity, is_missing}
use beacon_node.Base.{
  ◌+◌, List, [], ◌∷◌, ◌++◌, ◌≡◌, ◌||◌, inl, inr, refl, sym, subst, Option, none, some, append-nil,
  append_assoc, Bool-cases, is_empty, not,
}
use beacon_node.Base.Text.{Bytes, codes}
use beacon_node.Types.{AgentRecord}
use beacon_node.Crypto.{Sodium, verify_agent_signature}
use beacon_node.SecureBuffer.{Allocator}
use beacon_node.Merge.Invariant.{merge_record_identity}
use beacon_node.Identity.{is_valid, IdentityService, verify_and_register}
use beacon_node.Registry.{AgentRegistry, upsert}
use beacon_node.Control.{
  Env, ControlProtocol, submit, signature_error, register_identity, handle_heartbeat, perform,
  handle_line,
}
use beacon_node.Control.Command.{ControlAction, ControlCommand, parse_command}
use beacon_node.Node.{Node, store, renew, pin, Reach, here, next}

-- The identity service behind the pointer.
abbrev pub service : IdentityService → Option IdentityService → IdentityService
service s none = s
service s (some t) = t

-- The pointer is not null.
abbrev pub HasService : Option IdentityService → Type 0
HasService none = ⊥
HasService (some s) = Unit

pub HasService-service :
    (o : Option IdentityService) (s : IdentityService) → HasService o → o ≡ some (service s o)
HasService-service none s h = absurd h
HasService-service (some t) s h = refl

-- The node after a call that returns a registry, an identity service and the records handed to the callback.
abbrev pub settle : Node → AgentRegistry → Option IdentityService → List AgentRecord → Node
settle n g identity notified = record n {
  registry = g;
  identity = service n.identity identity;
  pending = n.pending ++ notified;
}

module _ (fresh : Allocator) (sodium : Option Sodium) where
  pub Reach-trans :
      {m n o : Node} → Reach fresh sodium m n → Reach fresh sodium n o → Reach fresh sodium m o
  Reach-trans r here = r
  Reach-trans r (next s st) = next (Reach-trans r s) st

  -- A call that changes nothing.
  pub settle-here : (n : Node) → Reach fresh sodium n (settle n n.registry (some n.identity) [])
  settle-here n =
      subst (λ l. Reach fresh sodium n (record n { pending = l })) (sym (append-nil n.pending)) here

  pub settle-store :
      (n : Node) (r : AgentRecord)
      → Reach fresh sodium n
          (settle n (upsert n.registry r).registry (some n.identity) (upsert n.registry r).notified)
  settle-store n r = next here (store r)

  settle-pin :
      (n : Node) (r : AgentRecord) (g : AgentRegistry) (l : List AgentRecord)
      → Reach fresh sodium n (settle n g (some n.identity) l)
      → Reach fresh sodium n (settle n g (some (verify_and_register fresh sodium n.identity r).0) l)
  settle-pin n r g l reached = next reached (pin r)

  -- Two calls, one after the other.
  pub settle_trans :
      (n : Node) (g h : AgentRegistry) (i j : Option IdentityService) (l k : List AgentRecord)
      → HasService j
      → Reach fresh sodium n (settle n g i l)
      → Reach fresh sodium (settle n g i l) (settle (settle n g i l) h j k)
      → Reach fresh sodium n (settle n h j (l ++ k))
  settle_trans n g h i none l k has r s = absurd has
  settle_trans n g h i (some t) l k has r s = Reach-trans r (
      subst
        (λ m.
          Reach fresh sodium (settle n g i l)
            (record n { registry = h; identity = t; pending = m }))
        (append_assoc n.pending l k) s)

module _ (env : Env) (p : ControlProtocol) (n : Node) where
  register_identity-Reach :
      (r : AgentRecord) (g : AgentRegistry) (l : List AgentRecord)
      → Reach env.fresh env.sodium n (settle n g (some n.identity) l)
      → Reach env.fresh env.sodium n (settle n g (register_identity env (some n.identity) r) l)
  unfolding register_identity
  register_identity-Reach r g l reached = elim (Bool-cases (is_empty r.public_key_hex)) [
    | inl e ↦ rw (e, register_identity) reached
    | inr e ↦ rw (e, register_identity) (settle-pin env.fresh env.sodium n r g l reached)
  ]

  submit-Reach :
      (r : AgentRecord) (message : Bytes)
      → let h = submit env p.trust n.registry (some n.identity) r message in
        Reach env.fresh env.sodium n (settle n h.registry h.identity h.notified)
  unfolding submit
  submit-Reach r message =
      by_error (signature_error p.trust (verify_agent_signature env.sodium r)) refl
    where
      by_error :
          (error : Option Bytes)
          → signature_error p.trust (verify_agent_signature env.sodium r) ≡ error
          → let h = submit env p.trust n.registry (some n.identity) r message in
            Reach env.fresh env.sodium n (settle n h.registry h.identity h.notified)
      by_error (some e) q = rw (q, submit) (settle-here env.fresh env.sodium n)
      by_error none q = elim (Bool-cases (upsert n.registry r).accepted) [
        | inl a ↦
            rw (q, a, submit)
              (register_identity-Reach r (upsert n.registry r).registry
                (upsert n.registry r).notified (settle-store env.fresh env.sodium n r))
        | inr a ↦ rw (q, a, submit) (settle-store env.fresh env.sodium n r)
      ]

  perform-Reach :
      (action : ControlAction) (command : ControlCommand)
      → let h = perform env p n.registry (some n.identity) action command in
        Reach env.fresh env.sodium n (settle n h.registry h.identity h.notified)
  unfolding perform
  perform-Reach ControlAction.register command =
      submit-Reach command.registration (codes "registered")
  perform-Reach ControlAction.merge command = submit-Reach command.registration (codes "merged")
  perform-Reach ControlAction.heartbeat command =
      unfold handle_heartbeat in
      Reach-trans env.fresh env.sodium
        (next here (
          renew command.agent_id (env.now + p.lifecycle.heartbeat_ttl)
            command.registration.revision))
        (settle-here env.fresh env.sodium _)
  perform-Reach _ command = settle-here env.fresh env.sodium n

  -- What a line on the control port does to a node is a run of steps.
  pub handle_line-Reach :
      (line : Bytes)
      → let h = handle_line env p n.registry (some n.identity) line in
        Reach env.fresh env.sodium n (settle n h.registry h.identity h.notified)
  unfolding handle_line
  handle_line-Reach line =
      let c = parse_command env.now p.lifecycle line in
      elim (Bool-cases (not (is_empty (ControlCommand.error c)))) [
        | inl e ↦ rw (e, handle_line) (settle-here env.fresh env.sodium n)
        | inr e ↦ rw (e, handle_line) (perform-Reach (ControlCommand.action c) c)
      ]

module _ (fresh : Allocator) (sodium : Option Sodium) where
  merge_record-Reach :
      (n : Node) (r : AgentRecord)
      → let m = merge_record fresh sodium n.registry (some n.identity) r in
        Reach fresh sodium n
          (settle n m.registry (some (verify_and_register fresh sodium n.identity r).0) m.notified)
  unfolding merge_record check_identity
  merge_record-Reach n r =
      let status = (verify_and_register fresh sodium n.identity r).1 in
      elim (Bool-cases (is_valid status || is_missing status)) [
        | inl e ↦ rw (e, merge_record) (next (next here (pin r)) (store r))
        | inr e ↦
            rw (e, merge_record)
              (Reach-trans fresh sodium (next here (pin r)) (settle-here fresh sodium _))
      ]

  pub merge-HasService :
      (rs : List AgentRecord) (g : AgentRegistry) (s : IdentityService)
      → HasService (merge fresh sodium g (some s) rs).identity
  unfolding merge
  merge-HasService [] g s = tt
  merge-HasService (r ∷ rs) g s =
      rw (merge_record_identity fresh sodium g s r, merge)
        (merge-HasService rs (merge_record fresh sodium g (some s) r).registry
          (verify_and_register fresh sodium s r).0)

  -- What a merge does to a node is a run of steps.
  pub merge-Reach :
      (rs : List AgentRecord) (n : Node)
      → let m = merge fresh sodium n.registry (some n.identity) rs in
        Reach fresh sodium n (settle n m.registry m.identity m.notified)
  unfolding merge
  merge-Reach [] n = settle-here fresh sodium n
  merge-Reach (r ∷ rs) n =
      let first = merge_record fresh sodium n.registry (some n.identity) r in
      let s = (verify_and_register fresh sodium n.identity r).0 in
      let rest = merge fresh sodium first.registry (some s) rs in
      rw (merge_record_identity fresh sodium n.registry n.identity r, merge)
        (settle_trans fresh sodium n first.registry rest.registry (some s) rest.identity
          first.notified rest.notified (merge-HasService rs first.registry s)
          (merge_record-Reach n r)
          (merge-Reach rs (settle n first.registry (some s) first.notified)))
