-- ===== src/Control/Safety.antt =====
-- What every line of the control port keeps.
use beacon_node.Base.{ℕ, ◌+◌, [], true, false, ◌≡◌, Option, arith, refl}
use beacon_node.Base.Text.{Bytes, codes, str_eq_iff}
use beacon_node.Types.{AgentRecord, TimePoint}
use beacon_node.Identity.{IdentityService}
use beacon_node.Tokens.{starts_with}
use beacon_node.Registry.{AgentRegistry, upsert, find, refresh_heartbeat}
use beacon_node.Registry.Lookup.{map_option}
use beacon_node.Registry.Distinct.{IsValid}
use beacon_node.Registry.Invariant.{upsert-IsValid, refresh_heartbeat-IsValid}
use beacon_node.Registry.Refinement.{refreshed, find-refresh_heartbeat}
use beacon_node.Merge.Invariant.{Advances, Advances-refl, upsert-Advances}
use beacon_node.Control.{
  ControlProtocol, Env, HandleResult, submit, handle_heartbeat, perform, handle_line,
}
use beacon_node.Control.Command.{ControlAction, ControlCommand, parse_command}

module _ (env : Env) (p : ControlProtocol) (g : AgentRegistry)
    (identity : Option IdentityService) where
  submit-IsValid :
      (r : AgentRecord) (message : Bytes)
      → IsValid g
      → IsValid (submit env p.trust g identity r message).registry
  unfolding submit
  submit-IsValid r message v = ground (arith, upsert-IsValid g r v)

  handle_heartbeat-IsValid :
      (command : ControlCommand)
      → IsValid g
      → IsValid (handle_heartbeat env p.lifecycle g identity command).registry
  unfolding handle_heartbeat
  handle_heartbeat-IsValid command v =
      refresh_heartbeat-IsValid g command.agent_id (env.now + p.lifecycle.heartbeat_ttl)
        command.registration.revision v

  perform-IsValid :
      (action : ControlAction) (command : ControlCommand)
      → IsValid g
      → IsValid (perform env p g identity action command).registry
  unfolding perform
  perform-IsValid ControlAction.register command v =
      submit-IsValid command.registration (codes "registered") v
  perform-IsValid ControlAction.merge command v =
      submit-IsValid command.registration (codes "merged") v
  perform-IsValid ControlAction.heartbeat command v = handle_heartbeat-IsValid command v
  perform-IsValid _ command v = v

  -- A line keeps the agent ids of the registry distinct.
  pub handle_line-IsValid :
      (line : Bytes) → IsValid g → IsValid (handle_line env p g identity line).registry
  unfolding handle_line
  handle_line-IsValid line v = ground (
    arith,
    perform-IsValid (parse_command env.now p.lifecycle line).action
        (parse_command env.now p.lifecycle line) v,
  )

  submit-Advances :
      (r : AgentRecord) (message k : Bytes)
      → Advances (find g k) (find (submit env p.trust g identity r message).registry k)
  unfolding submit
  submit-Advances r message k = ground (arith, upsert-Advances g r k, Advances-refl (find g k))

  Advances-refreshed :
      (t : TimePoint) (n : ℕ) (o : Option AgentRecord) → Advances o (map_option (refreshed t n) o)
  Advances-refreshed t n o = ground arith

  handle_heartbeat-Advances :
      (command : ControlCommand) (k : Bytes)
      → Advances (find g k) (find (handle_heartbeat env p.lifecycle g identity command).registry k)
  unfolding handle_heartbeat
  handle_heartbeat-Advances command k =
      let t = env.now + p.lifecycle.heartbeat_ttl in
      let n = command.registration.revision in
      rw find-refresh_heartbeat (
        ground (
          arith,
          str_eq_iff command.agent_id k,
          Advances-refl (find g k),
          Advances-refreshed t n (find g k),
        ))

  perform-Advances :
      (action : ControlAction) (command : ControlCommand) (k : Bytes)
      → Advances (find g k) (find (perform env p g identity action command).registry k)
  unfolding perform
  perform-Advances ControlAction.register command k =
      submit-Advances command.registration (codes "registered") k
  perform-Advances ControlAction.merge command k =
      submit-Advances command.registration (codes "merged") k
  perform-Advances ControlAction.heartbeat command k = handle_heartbeat-Advances command k
  perform-Advances _ command k = Advances-refl (find g k)

  -- No line loses an agent or lowers an agent's revision.
  pub handle_line-Advances :
      (line k : Bytes) → Advances (find g k) (find (handle_line env p g identity line).registry k)
  unfolding handle_line
  handle_line-Advances line k = ground (
    arith,
    Advances-refl (find g k),
    perform-Advances (parse_command env.now p.lifecycle line).action
        (parse_command env.now p.lifecycle line) k,
  )

  -- The response is an error.
  abbrev pub IsError : HandleResult → Type 0
  IsError h = starts_with (HandleResult.response h) (codes "ERR") ≡ true

  -- Nothing has changed, and the callback was not called.
  abbrev pub ChangesNothing : HandleResult → Type 0
  ChangesNothing h =
      (HandleResult.registry h ≡ g)
      × (HandleResult.identity h ≡ identity)
      × (HandleResult.notified h ≡ [])

  upsert_refused :
      (r : AgentRecord)
      → (upsert g r).accepted ≡ false
      → ((upsert g r).registry ≡ g) × ((upsert g r).notified ≡ [])
  unfolding upsert
  upsert_refused r h = ground arith

  submit_error :
      (r : AgentRecord) (message : Bytes)
      → IsError (submit env p.trust g identity r message)
      → ChangesNothing (submit env p.trust g identity r message)
  unfolding submit starts_with
  submit_error r message h = ground (arith, upsert_refused r)

  heartbeat_refused :
      (i : Bytes) (t : TimePoint) (n : ℕ)
      → (refresh_heartbeat g i t n).1 ≡ false
      → (refresh_heartbeat g i t n).0 ≡ g
  unfolding refresh_heartbeat
  heartbeat_refused i t n h = ground arith

  handle_heartbeat_error :
      (command : ControlCommand)
      → IsError (handle_heartbeat env p.lifecycle g identity command)
      → ChangesNothing (handle_heartbeat env p.lifecycle g identity command)
  unfolding handle_heartbeat starts_with
  handle_heartbeat_error command h = ground (
    arith,
    heartbeat_refused command.agent_id (env.now + p.lifecycle.heartbeat_ttl)
        command.registration.revision,
  )

  perform_error :
      (action : ControlAction) (command : ControlCommand)
      → IsError (perform env p g identity action command)
      → ChangesNothing (perform env p g identity action command)
  unfolding perform
  perform_error ControlAction.register command h =
      submit_error command.registration (codes "registered") h
  perform_error ControlAction.merge command h = submit_error command.registration (codes "merged") h
  perform_error ControlAction.heartbeat command h = handle_heartbeat_error command h
  perform_error _ command h = (refl, refl, refl)

  -- A line that is answered with an error changes neither the registry nor the trusted keys, and the
  -- callback is not called.
  pub handle_line_error :
      (line : Bytes)
      → IsError (handle_line env p g identity line)
      → ChangesNothing (handle_line env p g identity line)
  unfolding handle_line
  handle_line_error line = ground (
    arith,
    perform_error (parse_command env.now p.lifecycle line).action
        (parse_command env.now p.lifecycle line),
  )
