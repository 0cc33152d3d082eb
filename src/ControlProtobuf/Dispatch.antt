-- ===== src/ControlProtobuf/Dispatch.antt =====
-- What a framed request keeps and what it does not do.
use beacon_node.Base.{◌+◌, true, ◌≡◌, ◌⊎◌, inl, inr, Option, some, is_empty, arith, refl}
use beacon_node.Base.Text.{Bytes, codes, str_eq_iff}
use beacon_node.Types.{AgentRecord}
use beacon_node.Crypto.{valid, verify_agent_signature}
use beacon_node.Identity.{IdentityService, verify_and_register}
use beacon_node.Registry.{AgentRegistry, find, refuses}
use beacon_node.Registry.Distinct.{IsValid}
use beacon_node.Registry.Invariant.{upsert-IsValid, refresh_heartbeat-IsValid}
use beacon_node.Registry.Refinement.{find-upsert, find-refresh_heartbeat}
use beacon_node.Control.{ControlProtocol, Env}
use beacon_node.Control.Trust.{IsTrusted, refreshed-IsTrusted, is_valid→eq, admitted}
use beacon_node.ControlProtobuf.{
  ControlCodec, ControlRequest, register_agent, sync_merge, heartbeat, from_proto,
}
use beacon_node.ControlProtobuf.Requests.{
  submit_record, handle_request, handle_control_frame, pin_identity,
}
use beacon_node.ControlProtobuf.Cases.{frame_keeps}

module _ (env : Env) (moved : AgentRecord → AgentRecord) (p : ControlProtocol) (g : AgentRegistry)
    (identity : Option IdentityService) where
  handle_request-IsValid :
      (request : ControlRequest)
      → IsValid g
      → IsValid (handle_request env moved p g identity request).registry
  unfolding handle_request submit_record
  handle_request-IsValid (register_agent proto) v =
      ground (arith, upsert-IsValid g (from_proto env.now p.lifecycle proto) v)
  handle_request-IsValid (sync_merge proto) v =
      ground (arith, upsert-IsValid g (from_proto env.now p.lifecycle proto) v)
  handle_request-IsValid (heartbeat i n) v =
      refresh_heartbeat-IsValid g i (env.now + p.lifecycle.heartbeat_ttl) n v
  handle_request-IsValid _ v = v

  -- A frame keeps the agent ids of the registry distinct.
  pub handle_control_frame-IsValid :
      (codec : ControlCodec) (frame_bytes : Bytes)
      → IsValid g
      → IsValid (handle_control_frame env moved codec p g identity frame_bytes).registry
  handle_control_frame-IsValid codec frame_bytes v =
      frame_keeps env moved p g identity (λ h i l. IsValid h) codec frame_bytes v
        (λ request. handle_request-IsValid request v)

  submit_record_trusted :
      (strict : p.trust.require_signatures ≡ true) (r : AgentRecord) (message k : Bytes)
      → (find (submit_record env moved p.trust g identity r message).registry k ≡ find g k)
        ⊎ ((find (submit_record env moved p.trust g identity r message).registry k ≡ some r)
            × (r.agent_id ≡ k)
            × (verify_agent_signature env.sodium r ≡ valid))
  unfolding submit_record refuses
  submit_record_trusted strict r message k = ground (
    arith,
    find-upsert g r k,
    str_eq_iff r.agent_id k,
    admitted env p g identity strict (verify_agent_signature env.sodium r),
    is_valid→eq env p g identity strict (verify_agent_signature env.sodium r),
  )

  submit_record-IsTrusted :
      (strict : p.trust.require_signatures ≡ true) (r : AgentRecord) (message k : Bytes)
      → IsTrusted env k
          (find g k)
          (find (submit_record env moved p.trust g identity r message).registry k)
  submit_record-IsTrusted strict r message k = elim (submit_record_trusted strict r message k) [
    | inl same ↦ inl same
    | inr new ↦ inr (inl (r, new.0, new.1, new.2))
  ]

  handle_request-IsTrusted :
      (strict : p.trust.require_signatures ≡ true) (request : ControlRequest) (k : Bytes)
      → IsTrusted env k (find g k) (find (handle_request env moved p g identity request).registry k)
  unfolding handle_request
  handle_request-IsTrusted strict (register_agent proto) k =
      submit_record-IsTrusted strict (from_proto env.now p.lifecycle proto) (codes "registered") k
  handle_request-IsTrusted strict (sync_merge proto) k =
      submit_record-IsTrusted strict (from_proto env.now p.lifecycle proto) (codes "merged") k
  handle_request-IsTrusted strict (heartbeat i n) k =
      rw find-refresh_heartbeat
        (refreshed-IsTrusted env p g identity strict i k (env.now + p.lifecycle.heartbeat_ttl) n)
  handle_request-IsTrusted strict _ k = inl refl

  -- Where signatures are required, whatever a frame changes under a key is a record of that key whose
  -- signature is verified, or the expiry and the revision of the record that stood there.
  pub handle_control_frame-IsTrusted :
      (strict : p.trust.require_signatures ≡ true) (codec : ControlCodec) (frame_bytes k : Bytes)
      → IsTrusted env k
          (find g k)
          (find (handle_control_frame env moved codec p g identity frame_bytes).registry k)
  handle_control_frame-IsTrusted strict codec frame_bytes k =
      frame_keeps env moved p g identity (λ h i l. IsTrusted env k (find g k) (find h k)) codec
        frame_bytes (inl refl) (λ request. handle_request-IsTrusted strict request k)

  pin_identity_moved :
      (r : AgentRecord) → is_empty r.public_key_hex ≡ true → pin_identity env identity r ≡ identity
  unfolding pin_identity verify_and_register verify_agent_signature
  pin_identity_moved r h = ground arith

  handle_request_identity :
      (request : ControlRequest)
      → ((r : AgentRecord) → is_empty (moved r).public_key_hex ≡ true)
      → (handle_request env moved p g identity request).identity ≡ identity
  unfolding handle_request submit_record
  handle_request_identity (register_agent proto) h =
      let r = from_proto env.now p.lifecycle proto in
      ground (arith, pin_identity_moved (moved r) (h r))
  handle_request_identity (sync_merge proto) h =
      let r = from_proto env.now p.lifecycle proto in
      ground (arith, pin_identity_moved (moved r) (h r))
  handle_request_identity (heartbeat i n) h = refl
  handle_request_identity _ h = refl

  -- If moving a record leaves its public key empty, as a string of the usual C++ libraries is, no frame pins
  -- a key: the identity service stays as it is, also after a signed registration that is accepted.
  pub handle_control_frame_never_pins :
      (codec : ControlCodec) (frame_bytes : Bytes)
      → ((r : AgentRecord) → is_empty (moved r).public_key_hex ≡ true)
      → (handle_control_frame env moved codec p g identity frame_bytes).identity ≡ identity
  handle_control_frame_never_pins codec frame_bytes h =
      frame_keeps env moved p g identity (λ r i l. i ≡ identity) codec frame_bytes refl
        (λ request. handle_request_identity request h)
