-- ===== src/Handshake/Responder.antt =====
-- The loop of src/beacon_net/udp_handshake_responder.cpp, and what a node that says hello gets.
use beacon_node.Base.{
  ℕ, ◌<◌, ◌≤◌, ◌^◌, List, [], ◌∷◌, Bool, false, true, Option, none, some, if◌then◌else◌, take,
  length, ◌≡◌, refl, take_all,
}
use beacon_node.Base.Text.{Bytes}
use beacon_node.Config.{NodeConfig}
use beacon_node.Tokens.Joined.{IsToken}
use beacon_node.Registry.{AgentRegistry, stats}
use beacon_node.Handshake.{
  PeerHello, respond, encode_peer_hello, encode_peer_welcome, decode_peer_welcome,
}
use beacon_node.Handshake.RoundTrip.{
  decode_peer_hello-encode_peer_hello, decode_peer_welcome-encode_peer_welcome,
}

-- `std::array<char, 1024> data`; what does not fit is cut off.
abbrev pub data_size : ℕ
data_size = 1024

-- A datagram that `receive_from` returns, with the registry of that time, whether `stopping_` is set, and
-- whether `send_to` reaches the sender, or throws.
pub record Datagram : Type 0 where
  pub bytes : Bytes
  pub registry : AgentRegistry
  pub stopping : Bool
  pub sends : Bool

-- The loop of `run`: what is sent back for each datagram, up to the one that finds `stopping_` set or whose
-- answer throws; the handler of that exception stands behind the loop.
unfoldable pub run : NodeConfig → List Datagram → List (Option Bytes)
run config [] = []
run config (d ∷ datagrams) =
    let rest = run config datagrams in
    if d.stopping
    then []
    else elim (respond config (Datagram.registry d) (take data_size (Datagram.bytes d))) [
      | none ↦ none ∷ rest
      | some response ↦ if d.sends then some response ∷ rest else []
    ]

-- A node that says hello, with an id that is a word and a port from 1 to 65535, in a datagram that fits the
-- buffer and has an answer that can be sent, gets a welcome with the responder's id and the highest revision of its registry, and the loop
-- goes on with the next datagram.
pub run-encode_peer_hello :
    (config : NodeConfig) (hello : PeerHello) (g : AgentRegistry) (datagrams : List Datagram)
    → IsToken hello.node_id
    → 1 ≤ hello.listen_port
    → hello.listen_port < 2 ^ 16
    → length (encode_peer_hello hello) ≤ data_size
    → IsToken config.node_id
    → (stats g).highest_revision < 2 ^ 64
    → (response : Bytes) × (run config (
          record { bytes = encode_peer_hello hello; registry = g; stopping = false; sends = true }
          ∷ datagrams)
        ≡ some response ∷ run config datagrams)
      × (decode_peer_welcome response
          ≡ some
              (record { node_id = config.node_id; registry_revision = (stats g).highest_revision }))
unfolding run respond
run-encode_peer_hello config hello g datagrams id lo hi fits own bound = (
  encode_peer_welcome
      (record { node_id = config.node_id; registry_revision = (stats g).highest_revision }),
  rw (take_all data_size (encode_peer_hello hello) fits, run)
      (rw (decode_peer_hello-encode_peer_hello hello id lo hi, respond) refl),
  decode_peer_welcome-encode_peer_welcome
      (record { node_id = config.node_id; registry_revision = (stats g).highest_revision }) own
      bound,
)
