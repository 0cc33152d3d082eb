-- ===== src/ControlServer.antt =====
-- src/beacon_net/control_server.cpp: the sessions of the control port, the loop that accepts connections,
-- and its start and stop.
--
-- A connection is the bytes that the client sends until it closes its side. `peeked` is what
-- `socket.receive` with `message_peek` returns, the number of bytes that have arrived by then, nine at
-- most. A session whose reads fail ends in the handler of `std::exception`, and writes nothing.
-- `protobuf_enabled` is the build's BEACONNODE_ENABLE_PROTOBUF.
pub mod Cases
pub mod Sessions
pub mod Runs
pub mod Trusted
use beacon_node.Base.{
  ℕ, ◌+◌, List, [], ◌∷◌, Bool, true, false, not, ◌&&◌, Option, none, some, if◌then◌else◌, length,
  take, ltb, leb, ◌==◌, ◌++◌,
}
use beacon_node.Base.Text.{Bytes, codes}
use beacon_node.Types.{AgentRecord, TimePoint}
use beacon_node.Framing.{byte_at, read_u32, header_size, magic0, magic1}
use beacon_node.Identity.{IdentityService}
use beacon_node.Registry.{AgentRegistry}
use beacon_node.Control.{Env, ControlProtocol, HandleResult, handle_line}
use beacon_node.ControlProtobuf.{ControlCodec}
use beacon_node.ControlProtobuf.Requests.{handle_control_frame}

-- What a session takes besides the state: the surroundings, what a move leaves of a record, the codec of
-- the messages, the build flag and the protocol.
pub record Server : Type 0 where
  pub env : Env
  pub moved : AgentRecord → AgentRecord
  pub codec : ControlCodec
  pub protobuf_enabled : Bool
  pub protocol : ControlProtocol

-- The state after a session, what it wrote, and the records handed to the callback.
pub record Session : Type 0 where
  pub registry : AgentRegistry
  pub identity : Option IdentityService
  pub written : Option Bytes
  pub notified : List AgentRecord

unfoldable pub is_binary_frame_header : Bytes → Bool
is_binary_frame_header header = byte_at header 0 == magic0 && byte_at header 1 == magic1

-- `read_until` and `std::getline`: the bytes before the first line feed, none if the client closes first.
unfoldable pub read_line : Bytes → Option Bytes
read_line [] = none
read_line (c ∷ s) =
    let rest = read_line s in
    if c == b'\n' then some [] else elim rest [ none ↦ none | some line ↦ some (c ∷ line) ]

-- The header and the payload that it announces, none if the client closes first.
unfoldable pub read_frame : Bytes → Option Bytes
read_frame sent =
    let payload_length = read_u32 sent 5 in
    if ltb (length sent) (header_size + payload_length)
    then none
    else some (take (header_size + payload_length) sent)

abbrev pub closed : AgentRegistry → Option IdentityService → Session
closed g identity = record { registry = g; identity = identity; written = none; notified = [] }

abbrev pub replied : HandleResult → Session
replied h = record {
  registry = HandleResult.registry h;
  identity = HandleResult.identity h;
  written = some (HandleResult.response h);
  notified = HandleResult.notified h;
}

-- The branch of a binary frame, in a build with protobuf.
unfoldable pub serve_frame : Server → AgentRegistry → Option IdentityService → Bytes → Session
unfolding read_frame
serve_frame server g identity sent = elim (read_frame sent) [
  | none ↦ closed g identity
  | some frame_bytes ↦ replied (
      handle_control_frame server.env server.moved server.codec server.protocol g identity
        frame_bytes)
]

unfoldable pub serve_line : Server → AgentRegistry → Option IdentityService → Bytes → Session
unfolding read_line
serve_line server g identity sent = elim (read_line sent) [
  | none ↦ closed g identity
  | some line ↦ replied (handle_line server.env server.protocol g identity line)
]

unfoldable pub serve_session : Server → AgentRegistry → Option IdentityService → ℕ → Bytes → Session
unfolding serve_frame serve_line is_binary_frame_header
serve_session server g identity peeked sent =
    if leb header_size peeked && is_binary_frame_header sent
    then if server.protobuf_enabled
      then serve_frame server g identity sent
      else record (closed g identity) {
        written = some (codes "ERR message=protobuf_control_disabled\n");
      }
    else serve_line server g identity sent

-- A connection that `accept` returns: the bytes that have arrived at the peek, all that the client sends,
-- the clock's reading, and whether `stopping_` is set when it is accepted.
pub record Connection : Type 0 where
  pub peeked : ℕ
  pub sent : Bytes
  pub now : TimePoint
  pub stopping : Bool

abbrev pub server_at : Server → TimePoint → Server
server_at server now = record server { env = record (Server.env server) { now = now } }

-- What the loop has done: the state, the answer of each session, and the records handed to the callback.
pub record Served : Type 0 where
  pub registry : AgentRegistry
  pub identity : Option IdentityService
  pub answers : List (Option Bytes)
  pub notified : List AgentRecord

-- The loop of `run`: a connection that is accepted after `stopping_` was set is not served, and ends it.
unfoldable pub run : Server → AgentRegistry → Option IdentityService → List Connection → Served
unfolding serve_session
run server g identity [] = record { registry = g; identity = identity; answers = []; notified = [] }
run server g identity (c ∷ connections) =
    let session = serve_session (server_at server c.now) g identity c.peeked c.sent in
    let rest = run server (Session.registry session) (Session.identity session) connections in
    if c.stopping
    then record { registry = g; identity = identity; answers = []; notified = [] }
    else record rest {
      answers = Session.written session ∷ Served.answers rest;
      notified = Session.notified session ++ Served.notified rest;
    }

-- The members that `start` and `stop` change: whether the worker can be joined, and `stopping_`.
pub record Worker : Type 0 where
  pub joinable : Bool
  pub stopping : Bool

unfoldable pub start : Worker → Worker
start w = if w.joinable then w else record { joinable = true; stopping = false }

unfoldable pub stop : Worker → Worker
stop w = record { joinable = false; stopping = true }
