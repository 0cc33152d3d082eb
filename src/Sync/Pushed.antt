-- ===== src/Sync/Pushed.antt =====
-- A record that a node offers with MERGE, at the control port of src/beacon/control_protocol.cpp.
use beacon_node.Base.{false, ◌+◌, ◌≡◌, ◌++◌, Option, none, some, true, arith, refl}
use beacon_node.Base.Text.{Bytes, codes, str_eq, str_eq_self}
use beacon_node.Config.{LifecycleConfig}
use beacon_node.Types.{AgentRecord}
use beacon_node.Crypto.{verify_agent_signature}
use beacon_node.Identity.{IdentityService}
use beacon_node.Registry.{AgentRegistry, find, upsert}
use beacon_node.Registry.Refinement.{find-upsert}
use beacon_node.Merge.Pulled.{Accepts}
use beacon_node.Control.{Env, ControlProtocol, handle_line, perform, submit, signature_error}
use beacon_node.Control.Fields.{FitsLine}
use beacon_node.Sync.{encode_merge_command}
use beacon_node.Sync.Lines.{parse_command-encode_merge_command}

upsert_accepted :
    (g : AgentRegistry) (r : AgentRecord)
    → Accepts (find g r.agent_id) r
    → (upsert g r).accepted ≡ true
unfolding upsert find
upsert_accepted g r h = ground (arith, h)

upsert_stored :
    (g : AgentRegistry) (r : AgentRecord)
    → Accepts (find g r.agent_id) r
    → find (upsert g r).registry r.agent_id ≡ some r
upsert_stored g r h = ground (arith, h, find-upsert g r r.agent_id, str_eq_self r.agent_id)

-- The record as the node stores it.
abbrev pub pushed : Env → ControlProtocol → AgentRecord → AgentRecord
pushed env p r = record r {
  expires_at = Env.now env + LifecycleConfig.heartbeat_ttl (ControlProtocol.lifecycle p);
}

-- The trust settings of the node admit the record's signature, or its absence.
abbrev pub Admits : Env → ControlProtocol → AgentRecord → Type 0
Admits env p r =
    signature_error (ControlProtocol.trust p) (verify_agent_signature (Env.sodium env) r) ≡ none

module _ (env : Env) (p : ControlProtocol) (g : AgentRegistry)
    (identity : Option IdentityService) where
  submit_accepted :
      (r : AgentRecord) (message : Bytes)
      → Admits env p r
      → Accepts (find g r.agent_id) r
      → let h = submit env p.trust g identity r message in
        (find h.registry r.agent_id ≡ some r)
        × (h.response ≡ codes "OK message=" ++ (message ++ codes "\n"))
  unfolding submit
  submit_accepted r message admitted accepts =
      rw (admitted, upsert_accepted g r accepts, submit) (upsert_stored g r accepts, refl)

  submit_other :
      (r : AgentRecord) (message k : Bytes)
      → str_eq r.agent_id k ≡ false
      → find (submit env p.trust g identity r message).registry k ≡ find g k
  unfolding submit
  submit_other r message k other = ground (arith, find-upsert g r k, other)

  -- A node answers OK to the MERGE of a record that fits a line, if its trust settings admit the record and the
  -- stored record of the agent does not refuse it, and stores it with the expiry of a registration.
  pub handle_line-encode_merge_command :
      (r : AgentRecord)
      → FitsLine r
      → Admits env p (pushed env p r)
      → Accepts (find g r.agent_id) (pushed env p r)
      → let h = handle_line env p g identity (encode_merge_command r) in
        (find h.registry r.agent_id ≡ some (pushed env p r))
        × (h.response ≡ codes "OK message=merged\n")
  unfolding handle_line perform
  handle_line-encode_merge_command r fits admitted accepts =
      rw (parse_command-encode_merge_command env.now p.lifecycle r fits, handle_line)
        (submit_accepted (pushed env p r) (codes "merged") admitted accepts)

  -- It leaves every other agent as it was.
  pub handle_line-encode_merge_command_other :
      (r : AgentRecord) (k : Bytes)
      → FitsLine r
      → str_eq r.agent_id k ≡ false
      → find (handle_line env p g identity (encode_merge_command r)).registry k ≡ find g k
  unfolding handle_line perform
  handle_line-encode_merge_command_other r k fits other =
      rw (parse_command-encode_merge_command env.now p.lifecycle r fits, handle_line)
        (submit_other (pushed env p r) (codes "merged") k other)
