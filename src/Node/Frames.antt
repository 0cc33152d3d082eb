-- ===== src/Node/Frames.antt =====
-- The framed requests of the control port as runs of steps.
use beacon_node.Base.{
  ◌+◌, ◌≡◌, ◌||◌, inl, inr, refl, Option, none, some, is_empty, Bool-cases, false,
}
use beacon_node.Base.Text.{Bytes, codes}
use beacon_node.Types.{AgentRecord}
use beacon_node.Crypto.{verify_agent_signature}
use beacon_node.Registry.{upsert}
use beacon_node.Control.{Env, ControlProtocol, signature_error}
use beacon_node.ControlProtobuf.{
  ControlCodec, ControlRequest, register_agent, sync_merge, heartbeat, from_proto,
}
use beacon_node.ControlProtobuf.Requests.{
  pin_identity, submit_record, handle_request, handle_control_frame,
}
use beacon_node.ControlProtobuf.Cases.{frame_keeps}
use beacon_node.Node.{Node, renew, pin, Reach, here, next}
use beacon_node.Node.Handlers.{settle, settle-here, settle-store, Reach-trans}

module _ (env : Env) (moved : AgentRecord → AgentRecord) (p : ControlProtocol) (n : Node) where
  submit_record-Reach :
      (r : AgentRecord) (message : Bytes)
      → let h = submit_record env moved p.trust n.registry (some n.identity) r message in
        Reach env.fresh env.sodium n (settle n h.registry h.identity h.notified)
  unfolding submit_record pin_identity
  submit_record-Reach r message =
      elim (Bool-cases (is_empty r.agent_id || (is_empty r.node_id || is_empty r.endpoint))) [
        | inl e ↦ rw (e, submit_record) (settle-here env.fresh env.sodium n)
        | inr e ↦ by_error e (signature_error p.trust (verify_agent_signature env.sodium r)) refl
      ]
    where
      by_error :
          (is_empty r.agent_id || (is_empty r.node_id || is_empty r.endpoint)) ≡ false
          → (error : Option Bytes)
          → signature_error p.trust (verify_agent_signature env.sodium r) ≡ error
          → let h = submit_record env moved p.trust n.registry (some n.identity) r message in
            Reach env.fresh env.sodium n (settle n h.registry h.identity h.notified)
      by_error e (some _) q = rw (e, q, submit_record) (settle-here env.fresh env.sodium n)
      by_error e none q = elim (Bool-cases (upsert n.registry r).accepted) [
        | inl a ↦
            rw (e, q, a, submit_record)
              (next (settle-store env.fresh env.sodium n r) (pin (moved r)))
        | inr a ↦ rw (e, q, a, submit_record) (settle-store env.fresh env.sodium n r)
      ]

  handle_request-Reach :
      (request : ControlRequest)
      → let h = handle_request env moved p n.registry (some n.identity) request in
        Reach env.fresh env.sodium n (settle n h.registry h.identity h.notified)
  unfolding handle_request
  handle_request-Reach (register_agent proto) =
      submit_record-Reach (from_proto env.now p.lifecycle proto) (codes "registered")
  handle_request-Reach (sync_merge proto) =
      submit_record-Reach (from_proto env.now p.lifecycle proto) (codes "merged")
  handle_request-Reach (heartbeat i k) =
      Reach-trans env.fresh env.sodium (next here (renew i (env.now + p.lifecycle.heartbeat_ttl) k))
        (settle-here env.fresh env.sodium _)
  handle_request-Reach _ = settle-here env.fresh env.sodium n

  -- What a frame on the control port does to a node is a run of steps.
  pub handle_control_frame-Reach :
      (codec : ControlCodec) (frame_bytes : Bytes)
      → let h = handle_control_frame env moved codec p n.registry (some n.identity) frame_bytes in
        Reach env.fresh env.sodium n (settle n h.registry h.identity h.notified)
  handle_control_frame-Reach codec frame_bytes =
      frame_keeps env moved p n.registry (some n.identity)
        (λ g i l. Reach env.fresh env.sodium n (settle n g i l)) codec frame_bytes
        (settle-here env.fresh env.sodium n) handle_request-Reach
