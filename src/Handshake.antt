-- ===== src/Handshake.antt =====
-- src/beacon/peer_handshake.hpp and peer_handshake.cpp: the texts of the UDP handshake; of
-- src/beacon_net/udp_handshake_responder.cpp the answer to a datagram, and of gossip_service.cpp the
-- heartbeat that a node sends to the same port.
pub mod RoundTrip
pub mod Responder
use beacon_node.Base.{
  ℕ, ◌+◌, ◌<◌, List, [], ◌∷◌, ◌++◌, Bool, true, false, not, ◌&&◌, ◌||◌, Option, none, some,
  if◌then◌else◌, is_empty, ◌==◌, ltb,
}
use beacon_node.Base.Text.{Bytes, codes, str_eq}
use beacon_node.Config.{NodeConfig}
use beacon_node.Numbers.{to_string, Parsed, parse_number, u64_bound, u32_bound}
use beacon_node.Tokens.{split_tokens, get_value, starts_with}
use beacon_node.Types.{RegistryStats}
use beacon_node.Registry.{AgentRegistry, stats}

pub record PeerHello : Type 0 where
  pub node_id : Bytes
  pub listen_port : ℕ

pub record PeerWelcome : Type 0 where
  pub node_id : Bytes
  pub registry_revision : ℕ

-- `parse_u16` into a variable that holds `old`: the number is read into 32 bits, and compared.
unfoldable pub parse_u16 : ℕ → Bytes → Parsed
parse_u16 old value =
    let parsed = parse_number u32_bound 0 value in
    if not (Parsed.succeeded parsed) || ltb 65535 (Parsed.variable parsed)
    then record { succeeded = false; variable = old }
    else parsed

unfoldable pub encode_peer_hello : PeerHello → Bytes
encode_peer_hello hello =
    codes "BEACON_HELLO node_id="
    ++ (hello.node_id ++ (codes " listen_port=" ++ to_string hello.listen_port))

unfoldable pub read_hello : PeerHello → List Bytes → Option PeerHello
unfolding parse_u16
read_hello hello [] = some hello
read_hello hello (token ∷ tokens) =
    let named = read_hello (record hello { node_id = get_value token }) tokens in
    let parsed = parse_u16 hello.listen_port (get_value token) in
    let ported = read_hello (record hello { listen_port = Parsed.variable parsed }) tokens in
    let other = read_hello hello tokens in
    if starts_with token (codes "node_id=")
    then named
    else if starts_with token (codes "listen_port=")
    then if Parsed.succeeded parsed then ported else none
    else other

abbrev pub check_hello : PeerHello → Option PeerHello
check_hello hello = if is_empty hello.node_id || hello.listen_port == 0 then none else some hello

abbrev pub bind_hello : Option PeerHello → Option PeerHello
bind_hello none = none
bind_hello (some hello) = check_hello hello

unfoldable pub hello_of_tokens : List Bytes → Option PeerHello
unfolding read_hello
hello_of_tokens [] = none
hello_of_tokens (first ∷ tokens) =
    if not (str_eq first (codes "BEACON_HELLO"))
    then none
    else bind_hello (read_hello (record { node_id = []; listen_port = 0 }) tokens)

unfoldable pub decode_peer_hello : Bytes → Option PeerHello
unfolding hello_of_tokens
decode_peer_hello payload = hello_of_tokens (split_tokens payload)

unfoldable pub encode_peer_welcome : PeerWelcome → Bytes
encode_peer_welcome welcome =
    codes "BEACON_WELCOME node_id="
    ++ (welcome.node_id ++ (codes " registry_revision=" ++ to_string welcome.registry_revision))

unfoldable pub read_welcome : PeerWelcome → List Bytes → Option PeerWelcome
read_welcome welcome [] = some welcome
read_welcome welcome (token ∷ tokens) =
    let named = read_welcome (record welcome { node_id = get_value token }) tokens in
    let parsed = parse_number u64_bound welcome.registry_revision (get_value token) in
    let counted =
      read_welcome (record welcome { registry_revision = Parsed.variable parsed }) tokens in
    let other = read_welcome welcome tokens in
    if starts_with token (codes "node_id=")
    then named
    else if starts_with token (codes "registry_revision=")
    then if Parsed.succeeded parsed then counted else none
    else other

abbrev pub bind_welcome : Option PeerWelcome → Option PeerWelcome
bind_welcome none = none
bind_welcome (some welcome) = if is_empty welcome.node_id then none else some welcome

unfoldable pub welcome_of_tokens : List Bytes → Option PeerWelcome
unfolding read_welcome
welcome_of_tokens [] = none
welcome_of_tokens (first ∷ tokens) =
    if not (str_eq first (codes "BEACON_WELCOME"))
    then none
    else bind_welcome (read_welcome (record { node_id = []; registry_revision = 0 }) tokens)

unfoldable pub decode_peer_welcome : Bytes → Option PeerWelcome
unfolding welcome_of_tokens
decode_peer_welcome payload = welcome_of_tokens (split_tokens payload)

-- One round of `UdpHandshakeResponder::run` on a datagram: the response that is sent, if any.
unfoldable pub respond : NodeConfig → AgentRegistry → Bytes → Option Bytes
respond config g payload = elim (decode_peer_hello payload) [
  | none ↦ none
  | some hello ↦ some (
      encode_peer_welcome (record {
        node_id = config.node_id;
        registry_revision = RegistryStats.highest_revision (stats g);
      }))
]

-- The text that `GossipService::send_udp_heartbeat` sends.
unfoldable pub gossip_heartbeat : NodeConfig → Bytes
gossip_heartbeat config =
    codes "GOSSIP_HEARTBEAT node_id="
    ++ (config.node_id
        ++ (codes " listen_port="
            ++ (to_string config.listen_port
                ++ (codes " control_port=" ++ to_string config.control_port))))
