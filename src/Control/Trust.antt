-- ===== src/Control/Trust.antt =====
-- What the trust settings enforce on the lines of src/beacon/control_protocol.cpp.
use beacon_node.Base.{
  ℕ, ◌+◌, true, not, ◌≡◌, ◌⊎◌, inl, inr, Option, none, some, if◌then◌else◌, is_empty, arith, refl,
  Bool-cases,
}
use beacon_node.Base.Text.{Bytes, codes, str_eq, str_eq_iff}
use beacon_node.Types.{AgentRecord, TimePoint}
use beacon_node.Crypto.{verify_agent_signature, valid, SignatureStatus}
use beacon_node.Identity.{IdentityService, is_valid}
use beacon_node.Registry.{AgentRegistry, find, refuses}
use beacon_node.Registry.Lookup.{map_option}
use beacon_node.Registry.Refinement.{find-upsert, refreshed, find-refresh_heartbeat}
use beacon_node.Control.{
  ControlProtocol, Env, submit, signature_error, handle_heartbeat, perform, handle_line,
}
use beacon_node.Control.Command.{ControlAction, ControlCommand, parse_command}

-- The record under the key `k` was there before, or its signature is verified, or it was there before
-- and a heartbeat gave it another expiry and revision.
abbrev pub IsTrusted : Env → Bytes → Option AgentRecord → Option AgentRecord → Type 0
IsTrusted env k before after =
    (after ≡ before)
    ⊎ ((r : AgentRecord) × (after ≡ some r)
        × (r.agent_id ≡ k)
        × (verify_agent_signature env.sodium r ≡ valid))
    ⊎ ((t : TimePoint) × (n : ℕ) × (after ≡ map_option (refreshed t n) before))

module _ (env : Env) (p : ControlProtocol) (g : AgentRegistry) (identity : Option IdentityService)
    (strict : p.trust.require_signatures ≡ true) where
  pub admitted :
      (status : SignatureStatus) → signature_error p.trust status ≡ none → is_valid status ≡ true
  unfolding signature_error
  admitted status h = ground (arith, strict)

  pub is_valid→eq : (status : SignatureStatus) → is_valid status ≡ true → status ≡ valid
  is_valid→eq status h = ground arith

  submit_trusted :
      (r : AgentRecord) (message k : Bytes)
      → (find (submit env p.trust g identity r message).registry k ≡ find g k)
        ⊎ ((find (submit env p.trust g identity r message).registry k ≡ some r)
            × (r.agent_id ≡ k)
            × (verify_agent_signature env.sodium r ≡ valid))
  unfolding submit refuses
  submit_trusted r message k = ground (
    arith,
    find-upsert g r k,
    str_eq_iff r.agent_id k,
    admitted (verify_agent_signature env.sodium r),
    is_valid→eq (verify_agent_signature env.sodium r),
  )

  submit-IsTrusted :
      (r : AgentRecord) (message k : Bytes)
      → IsTrusted env k (find g k) (find (submit env p.trust g identity r message).registry k)
  submit-IsTrusted r message k = elim (submit_trusted r message k) [
    | inl same ↦ inl same
    | inr new ↦ inr (inl (r, new.0, new.1, new.2))
  ]

  pub refreshed-IsTrusted :
      (i k : Bytes) (t : TimePoint) (n : ℕ)
      → IsTrusted env k
          (find g k)
          (if str_eq i k then map_option (refreshed t n) (find g i) else find g k)
  refreshed-IsTrusted i k t n = elim (Bool-cases (str_eq i k)) [
    | inl e ↦ inr (inr (t, n, ground (arith, str_eq_iff i k)))
    | inr e ↦ inl (ground arith)
  ]

  perform-IsTrusted :
      (action : ControlAction) (command : ControlCommand) (k : Bytes)
      → IsTrusted env k (find g k) (find (perform env p g identity action command).registry k)
  unfolding perform
  perform-IsTrusted ControlAction.register command k =
      submit-IsTrusted command.registration (codes "registered") k
  perform-IsTrusted ControlAction.merge command k =
      submit-IsTrusted command.registration (codes "merged") k
  perform-IsTrusted ControlAction.heartbeat command k =
      unfold handle_heartbeat in
      rw find-refresh_heartbeat (
        refreshed-IsTrusted command.agent_id k (env.now + p.lifecycle.heartbeat_ttl)
          command.registration.revision)
  perform-IsTrusted _ command k = inl refl

  -- Where signatures are required, whatever a line changes under a key is a record of that key whose
  -- signature is verified, or the expiry and the revision of the record that stood there.
  pub handle_line-IsTrusted :
      (line k : Bytes)
      → IsTrusted env k (find g k) (find (handle_line env p g identity line).registry k)
  unfolding handle_line
  handle_line-IsTrusted line k =
      let c = parse_command env.now p.lifecycle line in
      elim (Bool-cases (not (is_empty (ControlCommand.error c)))) [
        | inl e ↦ rw e (inl refl)
        | inr e ↦ rw e (perform-IsTrusted (ControlCommand.action c) c k)
      ]
