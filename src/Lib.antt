-- ===== src/Lib.antt =====
-- BeaconNode: a node that keeps a registry of agents and spreads it to its peers.
--
-- Agents register, renew and list themselves over a line protocol on a control port. A record may be
-- signed; an identity service pins the first verified key of each agent. Nodes exchange records in rounds
-- of gossip: a sync client asks a peer for its highest revision, pulls the newer records, merges them, and
-- pushes its own. A log and a snapshot restore the registry after a restart.
--
-- The files, and the code that each is about (paths from the repository's root):
--   Base          what all files share: texts as lists of bytes, Boolean tests, lists
--   Config, Types, Metadata
--                 src/beacon/config.hpp, types.hpp: settings, `AgentRecord`, its ordered map
--   Sorting       `std::sort` as a parameter, with what the standard says of it
--   Registry      src/beacon/agent_registry.cpp: each method of `AgentRegistry` but `merge`
--   Merge         `AgentRegistry::merge`
--   Numbers       `std::from_chars` and `std::to_string`, and the `parse_...` functions around them
--   Tokens        `split_tokens`, `get_value`, `starts_with`, which several sources define alike
--   Crypto        src/beacon/crypto.cpp: hexadecimal text, the signed payload, verification, signing
--   SecureBuffer  src/beacon_net/secure_buffer.hpp; SecureBuffer/Wiping is what it frees
--   Identity      src/beacon/identity_service.cpp
--   Control       src/beacon/control_protocol.cpp; Control/Command is `parse_command`
--   ControlProtobuf
--                 src/beacon/control_protobuf.cpp, its handlers in the child Requests
--   Sync          src/beacon/registry_sync.cpp; Sync/Client is src/beacon_net/sync_client.cpp,
--                 and Sync/Exchange a connection of it that another node serves
--   Framing       src/beacon/framing.cpp
--   Handshake     src/beacon/peer_handshake.cpp; Handshake/Responder is the loop of
--                 src/beacon_net/udp_handshake_responder.cpp
--   Threads       `start` and `stop` of src/beacon_net/udp_handshake_responder.cpp and its worker, as steps
--                 that interleave
--   Gossip        src/beacon/gossip_scheduler.cpp, and of src/beacon_net/gossip_service.cpp the peers;
--                 Gossip/Service is a round, Gossip/Timer the timer that starts the rounds, and Gossip/Thread
--                 `start` and `stop` with the worker, as steps that interleave
--   Reputation    src/beacon/reputation.cpp
--   Persistence   src/beacon_net/persistence_service.cpp; Persistence/Recovery is `recover`
--   SecurePath    `resolve_secure_path`, which src/beacon/identity_store.cpp and persistence_service.cpp hold
--   IdentityStore src/beacon/identity_store.cpp
--   ControlServer src/beacon_net/control_server.cpp: sessions, and the loop over connections
--   Engine        src/beacon_engine/main.cpp: arguments and seed nodes; Engine/Restart is the log's callback,
--                 the restart and a tick, and Engine/Main the whole of `main` up to its loop
--   Node          a running node: the calls of its threads on the registry and the identity service, and the
--                 registry's callbacks, as the relation `Step`, and the states that it reaches;
--                 Node/Restart has its lives, from a start to the next one
--   Examples      concrete data at which the theorems are applied; RegistryTests and PersistenceTests run
--                 the assertions of tests/cpp on the model
-- A child named for a property holds lemmas and theorems on the definitions of its parent.
--
-- State is passed explicitly: an operation takes the registry, the identity service or the files and
-- returns them with its result. An operation that holds a mutex from its beginning to its end is one step.
-- The control server, the gossip service and the main loop share the registry and the identity
-- service; Node has the calls of all of them as steps.
-- Integers of 16, 32 and 64 bits are natural numbers; where the code can wrap around or cast, the remainder
-- is written out. Revisions come from parsed 64-bit numbers.
--
-- What is not in the repository is a parameter: libsodium (`Sodium`, none in a build without it), the
-- allocator (`Allocator`), `std::sort` (`Sorter`), `std::shuffle` (`Shuffler`), the clock, the generated
-- protobuf code (`Codec`, `ControlCodec`), the success of file operations
-- (`FileSystem`), `std::filesystem` (`PathSystem`), the connection to a peer and the sending of datagrams
-- (`Network`), and what a client sends (`Connection`).
--
-- Loops are recursions on the list that they read. Two have fuel: the digits of a number, for which the
-- number itself is enough, and the replay of the log, whose every round reads eight bytes, so that the
-- length of the log is enough (Persistence/Termination).
--
-- Not modelled: sockets and log output; the permissions of files and the creation of directories;
-- `SecureAllocator`, which nothing uses; the initialisation of libsodium; the Python package, which is a
-- client of the control port.
pub mod Base
pub mod Config
pub mod Metadata
pub mod Types
pub mod Sorting
pub mod Registry
pub mod Framing
pub mod Numbers
pub mod Crypto
pub mod SecureBuffer
pub mod Identity
pub mod Merge
pub mod Reputation
pub mod Gossip
pub mod Tokens
pub mod Control
pub mod ControlProtobuf
pub mod Sync
pub mod Handshake
pub mod Persistence
pub mod ControlServer
pub mod SecurePath
pub mod IdentityStore
pub mod Engine
pub mod Node
pub mod Threads
mod Examples
