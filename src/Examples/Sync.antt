-- ===== src/Examples/Sync.antt =====
-- Synchronisations of small nodes, and a session of a framed request.
use beacon_node.Base.{[], ◌∷◌, ◌++◌, ◌≡◌, refl, none, some, true, find_if, filter, arith, inr}
use beacon_node.Base.Text.{codes, str_eq}
use beacon_node.Types.{AgentRecord}
use beacon_node.Crypto.{
  verify_agent_signature, decode_hex, decode_pairs, hex_value, canonical_agent_payload,
}
use beacon_node.Identity.{find_key}
use beacon_node.Framing.{Frame, encode_frame}
use beacon_node.Registry.{
  entries_after_revision, cap_selected, AgentRegistry, has_id, find, stats, highest_revision,
  new_registry,
}
use beacon_node.Registry.Distinct.{IsValid}
use beacon_node.Control.{signature_error}
use beacon_node.Control.Fields.{FitsLine}
use beacon_node.ControlProtobuf.Requests.{handle_control_frame}
use beacon_node.ControlServer.{Server, serve_session, replied}
use beacon_node.ControlServer.Sessions.{serve_session-encode_frame}
use beacon_node.Sync.Convergence.{synced, synced-merge, sync_with_peer_pulls, sync_with_peer_misses}
use beacon_node.Sync.BothWays.{synced_peer, sync_with_peer_pushes}
use beacon_node.Merge.{merge}
use beacon_node.Examples.Data.{agent, signed, two_agents, no_keys}
use beacon_node.Examples.Control.{env, strict, agent_c-FitsLine}
use beacon_node.Examples.ControlProtobuf.{emptied, plain_codec}
use beacon_node.Examples.Node.{server}
use beacon_node.Examples.Sort.{insertion_sort}

abbrev agent_d : AgentRecord
agent_d = agent (codes "d") 4 0

agent_d-FitsLine : FitsLine agent_d
agent_d-FitsLine = record {
  agent_id = (ground arith, refl);
  node_id = (ground arith, refl);
  endpoint = (ground arith, refl);
  revision = omega arith;
  public_key = ground arith;
  signature = ground arith;
  entries = (ground arith, tt);
  ordered = (tt, tt);
}

abbrev other_node : AgentRegistry
other_node = record { records = agent_d ∷ []; has_callback = true }

other_node-IsValid : IsValid other_node
unfolding find_if
other_node-IsValid = record { distinct = (refl, tt) }

sync_with_peer_misses_example :
    find (synced server 9 env 256 two_agents (some no_keys) other_node none) (codes "d") ≡ none
unfolding find find_if has_id str_eq stats highest_revision
sync_with_peer_misses_example =
    sync_with_peer_misses server 9 env 256 two_agents (some no_keys) other_node none (codes "d")
      other_node-IsValid (agent_d-FitsLine, tt) (omega arith) (omega arith) (omega arith) refl

abbrev agent_c : AgentRecord
agent_c = signed (agent (codes "c") 9 0)

abbrev signed_node : AgentRegistry
signed_node = record { records = agent_c ∷ []; has_callback = true }

signed_node-IsValid : IsValid signed_node
unfolding find_if
signed_node-IsValid = record { distinct = (refl, tt) }

sync_with_peer_pulls_example :
    find (synced server 9 env 256 new_registry (some no_keys) signed_node none) (codes "c")
    ≡ some (signed (agent (codes "c") 9 61000))
unfolding find find_if has_id str_eq verify_agent_signature decode_hex decode_pairs hex_value
    canonical_agent_payload stats highest_revision find_key
sync_with_peer_pulls_example =
    sync_with_peer_pulls server 9 env 256 new_registry (some no_keys) signed_node none (codes "c")
      agent_c signed_node-IsValid (agent_c-FitsLine, tt) (omega arith) (omega arith) refl
      (omega arith) (inr (refl, tt)) tt

abbrev strict_server : Server
strict_server = record server { protocol = strict }

-- The other node's records are not beyond the node's, so that the pull brings nothing.
pulled_nothing : synced strict_server 9 env 256 signed_node none two_agents none ≡ signed_node
unfolding entries_after_revision filter cap_selected stats highest_revision merge insertion_sort
pulled_nothing =
    synced-merge strict_server 9 env 256 signed_node none two_agents none (omega arith)
      (omega arith) tt

sync_with_peer_pushes_example :
    find (synced_peer strict_server 9 env 256 signed_node none two_agents none) (codes "c")
    ≡ some (signed (agent (codes "c") 9 31000))
unfolding find find_if has_id str_eq verify_agent_signature decode_hex decode_pairs hex_value
    canonical_agent_payload signature_error stats highest_revision
sync_with_peer_pushes_example =
    sync_with_peer_pushes strict_server 9 env 256 signed_node none two_agents none (codes "c")
      agent_c signed_node-IsValid (omega arith) (omega arith)
      (rw pulled_nothing (agent_c-FitsLine, tt)) (rw pulled_nothing (omega arith))
      (rw pulled_nothing refl) (omega arith) refl tt

abbrev register_d : Frame
register_d = record { kind = 1; payload = codes "d" }

serve_session-encode_frame_example :
    serve_session server two_agents (some no_keys) 9 (encode_frame register_d ++ codes "more")
    ≡ replied (
        handle_control_frame env emptied plain_codec server.protocol two_agents
          (some no_keys)
          (encode_frame register_d))
serve_session-encode_frame_example =
    serve_session-encode_frame server two_agents (some no_keys) 9 register_d (codes "more") refl
      (omega arith) (omega arith)
