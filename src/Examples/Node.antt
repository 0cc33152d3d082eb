-- ===== src/Examples/Node.antt =====
-- A node that stores an agent, serves two clients, gossips, and starts again.
use beacon_node.Base.{
  [], ◌∷◌, ◌≡◌, refl, none, some, true, false, find_if, modify_first, arith, List,
}
use beacon_node.Base.Text.{Bytes, codes, str_eq}
use beacon_node.Config.{default_config}
use beacon_node.Types.{AgentRecord}
use beacon_node.Identity.{new_identity_service, find_key, verify_and_register}
use beacon_node.Registry.{AgentRegistry, has_id, refuses, find, upsert, refresh_heartbeat}
use beacon_node.ControlServer.{Server, Connection, run}
use beacon_node.ControlServer.Trusted.{IsAdmitted, served, run-IsAdmitted}
use beacon_node.Gossip.{GossipPeer}
use beacon_node.Gossip.Service.{Network, GossipService}
use beacon_node.Gossip.Timer
use beacon_node.Gossip.Timer.{Schedule, expired}
use beacon_node.Persistence.{Codec, RegistryEntry}
use beacon_node.Persistence.Wal.{IsSaved}
use beacon_node.Engine.Restart.{entry_of, start_registry}
use beacon_node.Node.{Renewed, Node, first_start, Reach, here, next, store, log, pin, renew}
use beacon_node.Node.Invariant.{Inv, Reach-Inv, Reach-find_key}
use beacon_node.Node.Rounds.{Completes}
use beacon_node.Node.Timer.{run-Completes}
use beacon_node.Node.Durability.{Survives, start_registry-Life}
use beacon_node.Node.Replay.{log_of, started, start_registry-log_of}
use beacon_node.Node.Restart.{
  wrote, failed, no_more, Descends, Life, born, lives, starts_again, restarted, Life-Inv,
}
use beacon_node.Sync.Exchange.{Peer, send_command}
use beacon_node.Examples.Data.{agent, signed, two_agents, zeros, length-zeros, first_byte_sodium}
use beacon_node.Examples.Control.{env, strict}
use beacon_node.Examples.ControlProtobuf.{emptied, plain_codec, request_frame}
use beacon_node.Examples.Identity.{one_key, short_key}
use beacon_node.Examples.Peers.{peer, unshuffled}

abbrev agent_a : AgentRecord
agent_a = agent (codes "a") 3 100

abbrev one_logged : Node
one_logged = record first_start {
  registry = record { records = agent_a ∷ []; has_callback = true };
  logged = agent_a ∷ [];
}

one_stored : Reach zeros (some first_byte_sodium) first_start one_logged
unfolding upsert find_if
one_stored = next (next here (store agent_a)) (log [] [] agent_a refl)

Reach-Inv_example : Inv Renewed one_logged
Reach-Inv_example = Reach-Inv zeros (some first_byte_sodium) length-zeros one_stored

Reach-find_key_example :
    find_key
      (codes "b")
      (verify_and_register zeros (some first_byte_sodium) one_key (signed agent_a)).0.trust_store
    ≡ some short_key
Reach-find_key_example =
    Reach-find_key zeros (some first_byte_sodium) {m = record first_start { identity = one_key }}
      (codes "b") short_key (next here (pin (signed agent_a))) (unfold find_key str_eq in refl)

abbrev pub server : Server
server = record {
  env = env;
  moved = emptied;
  codec = plain_codec;
  protobuf_enabled = true;
  protocol = record { lifecycle = default_config.lifecycle; trust = default_config.trust };
}

-- A line, a frame, a client that closes in the middle of a line, and two that come behind `stop`.
abbrev visits : List Connection
visits =
    record {
      peeked = 9;
      sent = codes "HEARTBEAT agent_id=b revision=9\n";
      now = 1000;
      stopping = false;
    }
    ∷ record { peeked = 9; sent = request_frame; now = 1001; stopping = false }
    ∷ record { peeked = 4; sent = codes "STAT"; now = 1002; stopping = false }
    ∷ record { peeked = 9; sent = request_frame; now = 1003; stopping = true }
    ∷ record { peeked = 9; sent = request_frame; now = 1004; stopping = true }
    ∷ []

abbrev strict_server : Server
strict_server = record server { protocol = strict }

run-IsAdmitted_example :
    let s = run strict_server two_agents none visits in
    IsAdmitted
      (some first_byte_sodium)
      (codes "b")
      (find two_agents (codes "b"))
      (find s.registry (codes "b"))
    × (s ≡ run strict_server two_agents none (served visits))
run-IsAdmitted_example = run-IsAdmitted strict_server refl (codes "b") two_agents none visits

abbrev network : Network Peer
network = record { send = λ p. send_command server 9; datagram = λ p w bytes. w }

abbrev gossip_service : GossipService
gossip_service = record {
  config = default_config.node;
  gossip_config = default_config.gossip;
  shuffler = unshuffled;
}

abbrev two_peers : List GossipPeer
two_peers = peer 2 ∷ peer 3 ∷ []

-- Two rounds, and a third one that finds `stopping_` set.
abbrev schedules : List Schedule
schedules =
    record {
      stopping = false;
      waited = expired;
      stopping_then = false;
      now = 2000;
      peers = two_peers;
    }
    ∷ record { stopping = false; waited = expired; stopping_then = false; now = 4000; peers = [] }
    ∷ record {
      stopping = false;
      waited = expired;
      stopping_then = true;
      now = 6000;
      peers = two_peers;
    }
    ∷ []

run-Completes_example : Completes network gossip_service env first_start (
    Timer.run network gossip_service env first_start.registry
      (some first_start.identity)
      (two_agents, none)
      schedules)
run-Completes_example =
    run-Completes network gossip_service env schedules first_start (two_agents, none)

-- A codec for the one entry.
abbrev one_entry : Codec
one_entry = record {
  serialize = λ (e : RegistryEntry). some (1 ∷ []);
  parse = λ bytes. some (entry_of agent_a);
}

agent_a_saved : IsSaved one_entry (entry_of agent_a)
agent_a_saved = record {
  serialized = 1 ∷ [];
  serialize_some = refl;
  parse_some = refl;
  serialized_le = omega arith;
}

start_registry-Life_example :
    (o : Node) × Life zeros (some first_byte_sodium) one_entry o
    × (start_registry one_entry 500 (log_of one_entry (agent_a ∷ [])) ≡ some o.registry)
    × (o.identity ≡ new_identity_service)
    × ((k : Bytes) (x : AgentRecord)
        → find one_logged.registry k ≡ some x
        → Survives Descends (agent_a ∷ []) x (find o.registry k))
start_registry-Life_example =
    start_registry-Life zeros (some first_byte_sodium) length-zeros one_entry 500
      (lives born one_stored) refl (agent_a_saved, tt) (omega arith, tt)

-- The node starts again, although a write to its log failed, and renews its agent.
abbrev two_logged : Node
two_logged = record one_logged { logged = agent_a ∷ agent_a ∷ [] }

twice_stored : Reach zeros (some first_byte_sodium) first_start two_logged
unfolding upsert find_if has_id str_eq refuses modify_first
twice_stored = next (next one_stored (store agent_a)) (log [] [] agent_a refl)

abbrev again : AgentRegistry
again = started 500 (agent_a ∷ [])

renewed_again :
    Life zeros (some first_byte_sodium) one_entry (record (restarted again (agent_a ∷ [])) {
      registry = (refresh_heartbeat again (codes "a") 900 7).0;
    })
renewed_again =
    lives
      (starts_again 500 (agent_a ∷ []) (lives born twice_stored)
        (wrote agent_a (failed agent_a no_more)) (agent_a_saved, tt)
        (start_registry-log_of one_entry 500 (agent_a ∷ []) (agent_a_saved, tt)))
      (next here (renew (codes "a") 900 7))

Life-Inv_example : Inv Descends (record (restarted again (agent_a ∷ [])) {
  registry = (refresh_heartbeat again (codes "a") 900 7).0;
})
Life-Inv_example = Life-Inv zeros (some first_byte_sodium) length-zeros one_entry renewed_again
