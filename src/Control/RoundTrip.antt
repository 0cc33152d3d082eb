-- ===== src/Control/RoundTrip.antt =====
-- Reading an agent line with src/beacon/control_protocol.cpp.
use beacon_node.Base.{
  ℕ, ◌<◌, List, [], ◌∷◌, ◌++◌, true, ◌≡◌, refl, arith, All, append_assoc, append-nil, ◌∙◌, ap, sym,
  subst,
}
use beacon_node.Base.Text.{Bytes, codes}
use beacon_node.Metadata
use beacon_node.Metadata.{Metadata, IsOrdered, Above, str_lt, set_last}
use beacon_node.Types.{AgentRecord, TimePoint}
use beacon_node.Numbers.{to_string, u64_bound}
use beacon_node.Numbers.RoundTrip.{parse_number-to_string}
use beacon_node.Tokens.{get_value, starts_with, after_equals, before_equals}
use beacon_node.Tokens.Words.{IsName, after_equals-name, before_equals-name}
use beacon_node.Control.Command.{
  ControlAction, ControlCommand, new_command, apply_token, apply_tokens, add_metadata, with_expiry,
}
use beacon_node.Control.Fields.{agent_tokens, optional_token, metadata_tokens, FitsLine, IsEntry}

-- The command with another registration.
abbrev with_registration : ControlCommand → AgentRecord → ControlCommand
with_registration c r = record c { registration = r }

module _ (c : ControlCommand) where
  apply_agent_id :
      (v : Bytes)
      → apply_token c (codes "agent_id=" ++ v)
        ≡ record c { agent_id = v; registration = record c.registration { agent_id = v } }
  unfolding apply_token starts_with get_value
  apply_agent_id v = refl

  apply_node_id :
      (v : Bytes)
      → apply_token c (codes "node_id=" ++ v)
        ≡ with_registration c (record c.registration { node_id = v })
  unfolding apply_token starts_with get_value
  apply_node_id v = refl

  apply_endpoint :
      (v : Bytes)
      → apply_token c (codes "endpoint=" ++ v)
        ≡ with_registration c (record c.registration { endpoint = v })
  unfolding apply_token starts_with get_value
  apply_endpoint v = refl

  apply_revision :
      (n : ℕ)
      → n < u64_bound
      → apply_token c (codes "revision=" ++ to_string n)
        ≡ with_registration c (record c.registration { revision = n })
  unfolding apply_token starts_with get_value
  apply_revision n h = rw (parse_number-to_string u64_bound 0 n h)

  apply_public_key :
      (v : Bytes)
      → apply_token c (codes "public_key=" ++ v)
        ≡ with_registration c (record c.registration { public_key_hex = v })
  unfolding apply_token starts_with get_value
  apply_public_key v = refl

  apply_signature :
      (v : Bytes)
      → apply_token c (codes "signature=" ++ v)
        ≡ with_registration c (record c.registration { signature_hex = v })
  unfolding apply_token starts_with get_value
  apply_signature v = refl

  apply_metadata :
      (k v : Bytes)
      → IsName k
      → apply_token c (codes "metadata." ++ (k ++ (codes "=" ++ v)))
        ≡ with_registration c
            (record c.registration { metadata = Metadata.set k v c.registration.metadata })
  unfolding apply_token starts_with add_metadata after_equals before_equals
  apply_metadata k v h = ground (arith, after_equals-name k v h, before_equals-name k v h)

pub apply_tokens_step :
    (c d : ControlCommand) (t : Bytes) (ts : List Bytes)
    → apply_token c t ≡ d
    → d.error ≡ []
    → apply_tokens c (t ∷ ts) ≡ apply_tokens d ts
unfolding apply_tokens
apply_tokens_step c d t ts e h = ground arith

-- The keys of a map come before the key of a later entry.
keys_before :
    (j : Bytes) (done : Metadata) (k v : Bytes) (m : Metadata)
    → Above j (done ++ (k, v) ∷ m)
    → str_lt j k ≡ true
keys_before j [] k v m h = h.0
keys_before j (e ∷ done) k v m h = keys_before j done k v m h.1

pub ordered_before :
    (done : Metadata) (k v : Bytes) (m : Metadata)
    → IsOrdered (done ++ (k, v) ∷ m)
    → All (λ (e : Bytes × Bytes). str_lt e.0 k ≡ true) done
ordered_before [] k v m h = tt
ordered_before ((j, w) ∷ done) k v m (above, h) =
    (keys_before j done k v m above, ordered_before done k v m h)

-- The command with the metadata `m`.
abbrev holding : ControlCommand → Metadata → ControlCommand
holding c m = with_registration c (record c.registration { metadata = m })

apply_metadata_tokens :
    (m done : Metadata) (c : ControlCommand)
    → c.error ≡ []
    → All IsEntry m
    → IsOrdered (done ++ m)
    → apply_tokens (holding c done) (metadata_tokens m) ≡ holding c (done ++ m)
apply_metadata_tokens [] done c e h o =
    unfold apply_tokens in ap (holding c) (sym (append-nil done))
apply_metadata_tokens ((k, v) ∷ m) done c e ((hk, hn, hv), h) o =
    apply_tokens_step (holding c done) (holding c (done ++ (k, v) ∷ [])) _ (metadata_tokens m)
      (apply_metadata (holding c done) k v hn
        ∙ ap (holding c) (set_last k v done (ordered_before done k v m o)))
      e
    ∙ apply_metadata_tokens m (done ++ (k, v) ∷ []) c e h
        (subst IsOrdered (sym (append_assoc done ((k, v) ∷ []) m)) o)
    ∙ ap (holding c) (append_assoc done ((k, v) ∷ []) m)

-- A field whose value is not empty is applied; one that is empty is not sent.
apply_optional :
    (name value : Bytes) (c d : ControlCommand) (ts : List Bytes)
    → (value ≡ [] → c ≡ d)
    → apply_token c (name ++ value) ≡ d
    → d.error ≡ []
    → apply_tokens c (optional_token name value ++ ts) ≡ apply_tokens d ts
apply_optional name [] c d ts same e h = ap (λ x. apply_tokens x ts) (same refl)
apply_optional name (b ∷ value) c d ts same e h = apply_tokens_step c d (name ++ b ∷ value) ts e h

-- The command on the way, with the fields that have been read.
abbrev read_so_far :
    TimePoint
    → TimePoint
    → ControlAction
    → Bytes
    → Bytes
    → Bytes
    → ℕ
    → Bytes
    → Bytes
    → Metadata
    → ControlCommand
read_so_far now t a agent_id node_id endpoint revision public_key signature m =
    record (new_command now) {
      action = a;
      agent_id = agent_id;
      registration = record {
        agent_id = agent_id;
        node_id = node_id;
        endpoint = endpoint;
        metadata = m;
        revision = revision;
        expires_at = t;
        public_key_hex = public_key;
        signature_hex = signature;
      };
    }

-- The tokens of a record that fits a line give a command its agent id and its registration, all but the
-- expiry.
pub apply_tokens-agent_tokens :
    (now t : TimePoint) (a : ControlAction) (r : AgentRecord)
    → FitsLine r
    → apply_tokens (with_expiry t (new_command now) a) (agent_tokens r) ≡ record (new_command now) {
      action = a;
      registration = record r { expires_at = t };
      agent_id = r.agent_id;
    }
apply_tokens-agent_tokens now t a r f =
    let c = read_so_far now t a in
    let i = r.agent_id in
    let n = r.node_id in
    let e = r.endpoint in
    let v = r.revision in
    let pk = r.public_key_hex in
    let sig = r.signature_hex in
    let sig_tokens = optional_token (codes "signature=") sig in
    let m_tokens = metadata_tokens r.metadata in
    apply_tokens_step (c [] [] [] 0 [] [] []) (c i [] [] 0 [] [] []) _ _ (apply_agent_id _ i) refl
    ∙ apply_tokens_step (c i [] [] 0 [] [] []) (c i n [] 0 [] [] []) _ _ (apply_node_id _ n) refl
    ∙ apply_tokens_step (c i n [] 0 [] [] []) (c i n e 0 [] [] []) _ _ (apply_endpoint _ e) refl
    ∙ apply_tokens_step (c i n e 0 [] [] []) (c i n e v [] [] []) _ _
        (apply_revision _ v f.revision) refl
    ∙ apply_optional (codes "public_key=") pk (c i n e v [] [] []) (c i n e v pk [] [])
        (sig_tokens ++ m_tokens) (λ q. ap (λ x. c i n e v x [] []) (sym q)) (apply_public_key _ pk)
        refl
    ∙ apply_optional (codes "signature=") sig (c i n e v pk [] []) (c i n e v pk sig []) m_tokens
        (λ q. ap (λ x. c i n e v pk x []) (sym q)) (apply_signature _ sig) refl
    ∙ apply_metadata_tokens r.metadata [] (c i n e v pk sig []) refl f.entries f.ordered
