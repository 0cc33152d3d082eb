-- ===== src/Control/Heartbeats.antt =====
-- What a HEARTBEAT line of src/beacon/control_protocol.cpp, which carries no signature, can do to the agent
-- that it names.
use beacon_node.Base.{
  ◌+◌, ◌≤◌, ◌<◌, List, [], ◌∷◌, false, ◌≡◌, Option, none, some, arith, refl, subst, sym,
}
use beacon_node.Base.Text.{Bytes, codes, str_eq_self}
use beacon_node.Types.{AgentRecord}
use beacon_node.Identity.{IdentityService}
use beacon_node.Registry.{AgentRegistry, upsert, find, refuses}
use beacon_node.Registry.Refinement.{find-refresh_heartbeat, refresh_heartbeat_accepts}
use beacon_node.Merge.Invariant.{Advances, Advances-refl, Advances-trans}
use beacon_node.Control.{ControlProtocol, Env, HandleResult, handle_heartbeat, perform, handle_line}
use beacon_node.Control.Command.{ControlAction, ControlCommand, parse_command}
use beacon_node.Control.Safety.{handle_line-Advances}

-- The registry after more lines, each at its own time.
unfoldable pub after_lines :
    ControlProtocol → AgentRegistry → Option IdentityService → List (Env × Bytes) → AgentRegistry
after_lines p g identity [] = g
after_lines p g identity ((env, line) ∷ lines) =
    let handled = handle_line env p g identity line in
    after_lines p (HandleResult.registry handled) (HandleResult.identity handled) lines

after_lines-Advances :
    (p : ControlProtocol) (lines : List (Env × Bytes)) (g : AgentRegistry)
    (identity : Option IdentityService) (k : Bytes)
    → Advances (find g k) (find (after_lines p g identity lines) k)
unfolding after_lines
after_lines-Advances p [] g identity k = Advances-refl (find g k)
after_lines-Advances p ((env, line) ∷ lines) g identity k =
    let handled = handle_line env p g identity line in
    Advances-trans (find g k) (find (HandleResult.registry handled) k)
      (find (after_lines p handled.registry handled.identity lines) k)
      (handle_line-Advances env p g identity line k)
      (after_lines-Advances p lines handled.registry handled.identity k)

-- A record that is older than the stored one is refused.
upsert_older :
    (g : AgentRegistry) (r x : AgentRecord)
    → r.revision < x.revision
    → Advances (some x) (find g r.agent_id)
    → (upsert g r).accepted ≡ false
unfolding upsert find refuses
upsert_older g r x lt adv = by_found (find g r.agent_id) refl adv
  where
    by_found :
        (found : Option AgentRecord)
        → find g r.agent_id ≡ found
        → Advances (some x) found
        → (upsert g r).accepted ≡ false
    by_found none e h = absurd h
    by_found (some y) e h = ground (arith, e, h, lt)

module _ (env : Env) (p : ControlProtocol) (g : AgentRegistry) (identity : Option IdentityService)
    (line : Bytes) (existing r : AgentRecord) where
  abbrev command : ControlCommand
  command = parse_command env.now p.lifecycle line

  -- What a heartbeat leaves under the id of its agent.
  abbrev blocked : AgentRecord
  blocked = record existing {
    expires_at = env.now + p.lifecycle.heartbeat_ttl;
    revision = command.registration.revision;
  }

  -- A line without an error is handled by its action.
  handle_line-heartbeat :
      command.error ≡ []
      → command.action ≡ ControlAction.heartbeat
      → handle_line env p g identity line ≡ handle_heartbeat env p.lifecycle g identity command
  unfolding handle_line perform
  handle_line-heartbeat ok action = rw (ok, action) refl

  handle_heartbeat_accepts :
      find g command.agent_id ≡ some existing
      → existing.revision ≤ command.registration.revision
      → let h = handle_heartbeat env p.lifecycle g identity command in
        (h.response ≡ codes "OK message=heartbeat\n")
        × (find h.registry command.agent_id ≡ some blocked)
  unfolding handle_heartbeat
  handle_heartbeat_accepts found le =
      let t = env.now + p.lifecycle.heartbeat_ttl in
      let n = command.registration.revision in
      ground (
        arith,
        find-refresh_heartbeat g command.agent_id t n command.agent_id,
        str_eq_self command.agent_id,
        refresh_heartbeat_accepts g command.agent_id t n existing,
      )

  -- Whatever the trust settings, a line HEARTBEAT for an agent of the registry, with a revision that is not
  -- below the agent's, is accepted and sets the revision; and whatever lines follow on the control port,
  -- every record of the agent with a smaller revision is then refused.
  pub heartbeat_blocks :
      (later : List (Env × Bytes))
      → command.error ≡ []
      → command.action ≡ ControlAction.heartbeat
      → find g command.agent_id ≡ some existing
      → existing.revision ≤ command.registration.revision
      → r.agent_id ≡ command.agent_id
      → r.revision < command.registration.revision
      → let h = handle_line env p g identity line in
        (h.response ≡ codes "OK message=heartbeat\n")
        × (find h.registry command.agent_id ≡ some blocked)
        × ((upsert (after_lines p h.registry h.identity later) r).accepted ≡ false)
  heartbeat_blocks later ok action found le same lt = rw (handle_line-heartbeat ok action) (
      let h = handle_heartbeat env p.lifecycle g identity command in
      let accepted = handle_heartbeat_accepts found le in
      let kept : Advances (some blocked)
          (find (after_lines p h.registry h.identity later) r.agent_id) =
        subst (λ k. Advances (some blocked) (find (after_lines p h.registry h.identity later) k))
          (sym same)
          (subst
            (λ o. Advances o (find (after_lines p h.registry h.identity later) command.agent_id))
            accepted.1 (after_lines-Advances p later h.registry h.identity command.agent_id)) in
      (
        accepted.0,
        accepted.1,
        upsert_older (after_lines p h.registry h.identity later) r blocked lt kept,
      ))
