-- ===== src/Examples/RegistryTests.antt =====
-- tests/cpp/agent_registry_tests.cpp, run on the model: the assertions of `main` in their order, the ones
-- that belong together as one definition. The node has no libsodium here; the test signs nothing.
use beacon_node.Base.{
  ◌+◌, List, [], ◌∷◌, ◌≡◌, Bool, true, false, ◌&&◌, ◌||◌, not, Option, none, some, ◌==◌, refl,
  is_empty, length, find_if, filter, modify_first,
}
use beacon_node.Base.Text.{Bytes, codes, str_eq}
use beacon_node.Config.{default_config}
use beacon_node.Types.{AgentRecord, TimePoint, new_record}
use beacon_node.Registry.{
  cap_selected, entries_after_revision, has_id, refuses, AgentRegistry, new_registry, upsert, find,
  stats, highest_revision, refresh_heartbeat, purge_expired, list,
}
use beacon_node.Gossip.{select_push_entries}
use beacon_node.Reputation.{find_count, increment, new_engine, accepts_peer, record_malformed}
use beacon_node.Control.{
  signature_error, stats_response, agent_fields, agent_lines, encode_agent_line, handle_heartbeat,
  metadata_fields, perform, register_identity, submit, Env, ControlProtocol, HandleResult,
  handle_line,
}
use beacon_node.Control.Command.{
  parse_command, apply_tokens, apply_token, add_metadata, check_required, parse_tokens,
  start_command,
}
use beacon_node.Metadata.{set, str_lt}
use beacon_node.Sync.{pop_newline, SyncPlan, plan_push_pull, encode_merge_command}
use beacon_node.Handshake.{
  PeerHello, PeerWelcome, encode_peer_hello, decode_peer_hello, encode_peer_welcome,
  decode_peer_welcome,
}
use beacon_node.Framing.{
  append_u16, append_u32, read_u16, read_u32, Frame, gossip_envelope, encode_frame, decode_frame,
}
use beacon_node.Crypto.{
  canonical_metadata, signature_status_message, canonical_agent_payload, verify_agent_signature,
  SignatureStatus, missing, valid, invalid, unsupported,
}
use beacon_node.Tokens.{
  after_equals, before_equals, scan_tokens, starts_with, split_tokens, get_value,
}
use beacon_node.Numbers.{
  from_chars, read_digits, starts_with_digit, write_digits, to_string, parse_number,
}
use beacon_node.Examples.Data.{zeros}
use beacon_node.Examples.Sort.{insertion_sort, insertion_sorter}

-- Whether `text.find(part) != std::string::npos`.
contains : Bytes → Bytes → Bool
contains [] part = is_empty part
contains (c ∷ text) part = let rest = contains text part in starts_with (c ∷ text) part || rest

abbrev holds {ℓ} : {A : Type ℓ} → (A → Bool) → Option A → Bool
holds test none = false
holds test (some a) = test a

abbrev front {ℓ} : {A : Type ℓ} → List A → Option A
front [] = none
front (a ∷ rest) = some a

abbrev is_missing : SignatureStatus → Bool
is_missing missing = true
is_missing valid = false
is_missing invalid = false
is_missing unsupported = false

abbrev now : TimePoint
now = 1000

abbrev first : AgentRecord
first = record (new_record now) {
  agent_id = codes "agent-1";
  node_id = codes "node-1";
  endpoint = codes "127.0.0.1:9000";
  revision = 1;
  expires_at = now + 5000;
}

abbrev stale : AgentRecord
stale = record first { endpoint = codes "127.0.0.1:9999"; revision = 0 }

stored : AgentRegistry
stored = (upsert new_registry first).registry

-- The assertions on the first record and on a stale one, lines 25 to 34.
stores : Bool
unfolding stored
stores =
    (upsert new_registry first).accepted
    && (holds (λ r. true) (find stored (codes "agent-1"))
        && ((stats stored).active_agents == 1
            && ((stats stored).highest_revision == 1
                && (not (upsert stored stale).accepted
                    && holds (λ (r : AgentRecord). str_eq r.endpoint (codes "127.0.0.1:9000"))
                        (find (upsert stored stale).registry (codes "agent-1"))))))

stores_passes : stores ≡ true
unfolding stores find upsert stats highest_revision find_if str_eq has_id refuses
stores_passes = refl

refreshed : AgentRegistry × Bool
unfolding stored
refreshed = refresh_heartbeat (upsert stored stale).registry (codes "agent-1") (now + 10000) 2

-- The assertions on the heartbeat and on the purge, lines 36 to 39.
expires : Bool
unfolding refreshed
expires =
    let purged = purge_expired refreshed.0 (now + 11000) in
    refreshed.1
    && ((stats refreshed.0).highest_revision == 2
        && (purged.1 == 1 && (stats purged.0).active_agents == 0))

expires_passes : expires ≡ true
unfolding expires refresh_heartbeat purge_expired upsert stats highest_revision find_if modify_first
    str_eq has_id refuses filter
expires_passes = refl

-- The assertions on the gossip of the emptied registry and on the reputation of a peer, lines 41 to 47.
gossips : Bool
unfolding refreshed
gossips =
    let reputation = new_engine default_config.trust in
    is_empty (
      select_push_entries insertion_sorter default_config.gossip
        (list (purge_expired refreshed.0 (now + 11000)).0))
    && (accepts_peer reputation (codes "peer-1")
        && accepts_peer (record_malformed reputation (codes "peer-1")) (codes "peer-1"))

gossips_passes : gossips ≡ true
unfolding gossips refresh_heartbeat purge_expired upsert find_if modify_first str_eq has_id refuses
    select_push_entries list accepts_peer find_count record_malformed increment insertion_sort
    filter
gossips_passes = refl

-- The assertions on the texts of the handshake, lines 62 to 71.
greets : Bool
greets =
    holds (λ (h : PeerHello). str_eq h.node_id (codes "node-3") && h.listen_port == 43170)
      (decode_peer_hello
        (encode_peer_hello (record { node_id = codes "node-3"; listen_port = 43170 })))
    && holds (λ (w : PeerWelcome). w.registry_revision == 7)
        (decode_peer_welcome
          (encode_peer_welcome (record { node_id = codes "node-4"; registry_revision = 7 })))

greets_passes : greets ≡ true
unfolding greets decode_peer_hello split_tokens encode_peer_hello str_eq starts_with to_string
    parse_number get_value decode_peer_welcome encode_peer_welcome
greets_passes = refl

-- The assertions on a frame, lines 73 to 78.
frames : Bool
frames =
    let payload = codes "ok" in
    holds (λ (f : Frame). f.kind == gossip_envelope && str_eq f.payload payload)
      (decode_frame (encode_frame (record { kind = gossip_envelope; payload = payload })))

frames_passes : frames ≡ true
unfolding frames encode_frame append_u16 append_u32 decode_frame read_u16 read_u32 str_eq
frames_passes = refl

abbrev env : Env
env = record { fresh = zeros; sodium = none; sorter = insertion_sorter; now = now }

abbrev control : ControlProtocol
control = record { lifecycle = default_config.lifecycle; trust = default_config.trust }

-- `control.handle_line(registry, line)`, without an identity service
send_line : AgentRegistry → Bytes → HandleResult
send_line g line = handle_line env control g none line

abbrev register_line : Bytes
register_line =
    codes
      "REGISTER agent_id=agent-2 node_id=node-2 endpoint=127.0.0.1:9001 revision=1 metadata.role=worker"

registered : HandleResult
unfolding send_line
registered = send_line new_registry register_line

beaten : HandleResult
unfolding send_line registered
beaten =
    send_line (HandleResult.registry registered) (codes "HEARTBEAT agent_id=agent-2 revision=2")

-- The assertions on the control lines, lines 50 to 54; the registry is empty before them.
controls : Bool
unfolding send_line registered beaten
controls =
    let g = HandleResult.registry beaten in
    str_eq (HandleResult.response registered) (codes "OK message=registered\n")
    && (str_eq (HandleResult.response beaten) (codes "OK message=heartbeat\n")
        && (contains (HandleResult.response (send_line g (codes "STATS"))) (codes "active_agents=1")
            && (contains (HandleResult.response (send_line g (codes "LIST")))
                  (codes "AGENT agent_id=agent-2")
                && contains
                    (HandleResult.response
                      (send_line g (codes "SYNC_PULL after_revision=1 limit=10")))
                    (codes "AGENT agent_id=agent-2"))))

-- The assertions on what a node offers, lines 56 to 60.
plans : Bool
unfolding beaten
plans =
    let plan = plan_push_pull insertion_sorter 10 (HandleResult.registry beaten) 0 in
    SyncPlan.local_revision plan == 2
    && (length (SyncPlan.push_entries plan) == 1
        && holds (λ r. starts_with (encode_merge_command r) (codes "MERGE agent_id=agent-2"))
            (front (SyncPlan.push_entries plan)))

-- The assertions on the payload and on the signature of the offered record, lines 80 and 81.
signs : Bool
unfolding beaten
signs =
    let plan = plan_push_pull insertion_sorter 10 (HandleResult.registry beaten) 0 in
    holds
      (λ r.
        contains (canonical_agent_payload r) (codes "agent_id=agent-2")
        && is_missing (verify_agent_signature none r))
      (front (SyncPlan.push_entries plan))

controls_passes : (controls ≡ true) × (plans ≡ true) × (signs ≡ true)
unfolding controls contains str_eq handle_line parse_command split_tokens apply_tokens apply_token
    starts_with parse_number get_value signature_error verify_agent_signature upsert find_if
    refresh_heartbeat has_id stats_response filter modify_first add_metadata check_required
    parse_tokens start_command agent_fields agent_lines encode_agent_line handle_heartbeat
    metadata_fields perform register_identity submit canonical_agent_payload canonical_metadata
    signature_status_message set str_lt from_chars read_digits starts_with_digit to_string
    write_digits cap_selected entries_after_revision highest_revision list refuses stats
    after_equals before_equals scan_tokens insertion_sort plans plan_push_pull encode_merge_command
    pop_newline signs
controls_passes = (refl, refl, refl)
