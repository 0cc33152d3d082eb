-- ===== src/Sync/Replies.antt =====
-- The records that the control port writes as src/beacon_net/sync_client.cpp reads them.
use beacon_node.Base.{
  ℕ, ◌+◌, List, [], ◌∷◌, ◌++◌, true, false, ◌≡◌, ◌≢◌, refl, arith, ◌∙◌, ap, sym, map, All,
  All-append, All-map, append_assoc, append-nil, ◌==◌, some,
}
use beacon_node.Base.Text.{Bytes, codes, str_eq}
use beacon_node.Types.{AgentRecord, TimePoint, new_record}
use beacon_node.Numbers.{parse_number, u64_bound}
use beacon_node.Tokens.{scan_tokens, split_tokens, starts_with, get_value}
use beacon_node.Tokens.Words.{IsWord, IsGraphic, IsLine}
use beacon_node.Tokens.Joined.{spaced, IsToken, split_tokens-spaced}
use beacon_node.Control.{encode_agent_line, agent_lines, list_response}
use beacon_node.Control.Command.{
  ControlAction, ControlCommand, new_command, with_expiry, apply_token, apply_tokens,
}
use beacon_node.Control.Fields.{agent_tokens, agent_fields-spaced, agent_tokens-IsToken, FitsLine}
use beacon_node.Control.RoundTrip.{apply_tokens-agent_tokens}
use beacon_node.Sync.Client.{
  scan_lines, read_field, read_fields, read_agent, read_agents, add_read, parse_agent_lines,
  one_minute,
}

-- A token does not start with two texts whose first bytes differ.
starts_with_other :
    (t ps qs : Bytes) (p q : ℕ)
    → p ≢ q
    → starts_with t (p ∷ ps) ≡ true
    → starts_with t (q ∷ qs) ≡ false
unfolding starts_with
starts_with_other [] ps qs p q ne h = refl
starts_with_other (c ∷ t) ps qs p q ne h = ground arith

-- A number that is read whole does not depend on what the variable held.
parse_number_old :
    (bound old s : ℕ) (text : Bytes)
    → (parse_number bound old text).succeeded ≡ true
    → (parse_number bound s text).variable ≡ (parse_number bound old text).variable
unfolding parse_number
parse_number_old bound old s text h = ground arith

-- The client reads a token as the control port does, where that has no error.
read_field-apply_token :
    (c : ControlCommand) (t : Bytes)
    → c.error ≡ []
    → (apply_token c t).error ≡ []
    → read_field c.registration t ≡ (apply_token c t).registration
unfolding read_field apply_token
read_field-apply_token c t e h = ground (
  arith,
  parse_number_old u64_bound 0 c.registration.revision (get_value t),
  starts_with_other t (codes "fter_revision=") (codes "ublic_key=") b'a' b'p',
  starts_with_other t (codes "fter_revision=") (codes "ignature=") b'a' b's',
  starts_with_other t (codes "fter_revision=") (codes "etadata.") b'a' b'm',
  starts_with_other t (codes "imit=") (codes "ublic_key=") b'l' b'p',
  starts_with_other t (codes "imit=") (codes "ignature=") b'l' b's',
  starts_with_other t (codes "imit=") (codes "etadata.") b'l' b'm',
)

read_fields-apply_tokens :
    (ts : List Bytes) (c : ControlCommand)
    → c.error ≡ []
    → (apply_tokens c ts).error ≡ []
    → read_fields c.registration ts ≡ (apply_tokens c ts).registration
unfolding read_fields apply_tokens
read_fields-apply_tokens [] c e h = refl
read_fields-apply_tokens (t ∷ ts) c e h =
    with_error (apply_token c t).error refl (λ q. read_fields-apply_tokens ts (apply_token c t) q)
  where
    with_error :
        (error : Bytes)
        → (apply_token c t).error ≡ error
        → ((apply_token c t).error ≡ []
            → (apply_tokens (apply_token c t) ts).error ≡ []
            → read_fields (apply_token c t).registration ts
              ≡ (apply_tokens (apply_token c t) ts).registration)
        → read_fields c.registration (t ∷ ts) ≡ (apply_tokens c (t ∷ ts)).registration
    with_error [] q rest = ground (arith, q, read_field-apply_token c t e q, rest q)
    with_error (b ∷ error) q rest = ground (arith, q)

read_fields-agent_tokens :
    (t : TimePoint) (r : AgentRecord)
    → FitsLine r
    → read_fields (new_record t) (agent_tokens r) ≡ record r { expires_at = t }
read_fields-agent_tokens t r f =
    let c = with_expiry t (new_command t) ControlAction.register in
    let read = apply_tokens-agent_tokens t t ControlAction.register r f in
    read_fields-apply_tokens (agent_tokens r) c refl (ap (λ (d : ControlCommand). d.error) read)
    ∙ ap (λ (d : ControlCommand). d.registration) read

read_agent-agent_tokens :
    (now : TimePoint) (r : AgentRecord)
    → FitsLine r
    → read_agent now (codes "AGENT" ∷ agent_tokens r)
      ≡ some (record r { expires_at = now + one_minute })
unfolding read_agent str_eq
read_agent-agent_tokens now r f =
    ground (arith, read_fields-agent_tokens (now + one_minute) r f, f.agent_id.1)

IsWord-IsLine : (s : Bytes) → IsWord s → IsLine s
IsWord-IsLine s h = All-map IsGraphic (λ c. (c == b'\n') ≡ false) (λ c g. ground arith) s h

pub spaced-IsLine : (ts : List Bytes) → All IsToken ts → IsLine (spaced ts)
unfolding spaced
spaced-IsLine [] h = tt
spaced-IsLine (w ∷ ts) ((hw, full), h) = (
  refl,
  All-append (λ c. (c == b'\n') ≡ false) w (spaced ts) (IsWord-IsLine w hw) (spaced-IsLine ts h),
)

pub scan_lines-line :
    (s line rest : Bytes)
    → IsLine s
    → scan_lines line (s ++ b'\n' ∷ rest) ≡ (line ++ s) ∷ scan_lines [] rest
unfolding scan_lines
scan_lines-line [] line rest h = ap (λ t. t ∷ scan_lines [] rest) (sym (append-nil line))
scan_lines-line (c ∷ s) line rest (hc, h) =
    rw (hc, scan_lines)
      (scan_lines-line s (line ++ c ∷ []) rest h
        ∙ ap (λ t. t ∷ scan_lines [] rest) (append_assoc line (c ∷ []) s))

-- A record as the client reads it.
abbrev pub received : TimePoint → AgentRecord → AgentRecord
received now r = record r { expires_at = now + one_minute }

agent-IsToken : IsToken (codes "AGENT")
agent-IsToken = ((refl, (refl, (refl, (refl, (refl, tt))))), refl)

-- The line of a record, with any text behind it.
read_agents-line :
    (now : TimePoint) (r : AgentRecord) (rest : Bytes)
    → FitsLine r
    → read_agents now (scan_lines [] (encode_agent_line r ++ rest))
      ≡ received now r ∷ read_agents now (scan_lines [] rest)
unfolding encode_agent_line read_agents
read_agents-line now r rest f =
    let line = codes "AGENT" ++ spaced (agent_tokens r) in
    let tokens = agent_tokens-IsToken r f in
    ap (λ t. read_agents now (scan_lines [] ((codes "AGENT" ++ (t ++ b'\n' ∷ [])) ++ rest)))
      (agent_fields-spaced r)
    ∙ ap (λ t. read_agents now (scan_lines [] (codes "AGENT" ++ t)))
        (append_assoc (spaced (agent_tokens r)) (b'\n' ∷ []) rest)
    ∙ ap (read_agents now) (
        scan_lines-line line [] rest (
          All-append (λ c. (c == b'\n') ≡ false) (codes "AGENT") (spaced (agent_tokens r))
            (IsWord-IsLine (codes "AGENT") agent-IsToken.0)
            (spaced-IsLine (agent_tokens r) tokens)))
    ∙ ap (λ o. add_read o (read_agents now (scan_lines [] rest)))
        (ap (read_agent now)
            (split_tokens-spaced (codes "AGENT") (agent_tokens r) agent-IsToken tokens)
          ∙ read_agent-agent_tokens now r f)

read_agents-agent_lines :
    (now : TimePoint) (rs : List AgentRecord)
    → All FitsLine rs
    → read_agents now (scan_lines [] (agent_lines rs ++ codes "END\n")) ≡ map (received now) rs
unfolding agent_lines scan_lines read_agents read_agent split_tokens scan_tokens str_eq
read_agents-agent_lines now [] h = refl
read_agents-agent_lines now (r ∷ rs) (f, h) =
    ap (λ t. read_agents now (scan_lines [] t))
      (append_assoc (encode_agent_line r) (agent_lines rs) (codes "END\n"))
    ∙ read_agents-line now r (agent_lines rs ++ codes "END\n") f
    ∙ ap (λ t. received now r ∷ t) (read_agents-agent_lines now rs h)

-- The client reads from the answer to SYNC_PULL the records that it lists, if they fit a line: all of them,
-- in their order, with every field but the expiry, which the client sets a minute ahead.
pub parse_agent_lines-list_response :
    (now : TimePoint) (rs : List AgentRecord)
    → All FitsLine rs
    → parse_agent_lines now (list_response (codes "OK message=sync_pull\n") rs)
      ≡ map (received now) rs
unfolding parse_agent_lines scan_lines read_agents read_agent split_tokens scan_tokens str_eq
parse_agent_lines-list_response now rs h = read_agents-agent_lines now rs h
