-- ===== src/Handshake/RoundTrip.antt =====
-- The handshake texts, both ways, and what happens to a gossip heartbeat.
use beacon_node.Base.{
  ℕ, ◌<◌, ◌≤◌, ◌^◌, List, [], ◌∷◌, ◌++◌, true, false, none, some, is_empty, ◌≡◌, refl, arith, ◌∙◌,
  ap, append_assoc, append-nil,
}
use beacon_node.Base.Text.{Bytes, codes, str_eq}
use beacon_node.Config.{NodeConfig}
use beacon_node.Numbers.{to_string, u64_bound, u32_bound}
use beacon_node.Numbers.RoundTrip.{parse_number-to_string, to_string-IsDigit}
use beacon_node.Tokens.{split_tokens, get_value, starts_with}
use beacon_node.Tokens.Words.{IsWord, split_tokens_word}
use beacon_node.Tokens.Joined.{spaced, IsToken, split_tokens-spaced}
use beacon_node.Registry.{AgentRegistry}
use beacon_node.Control.Fields.{named-IsToken, digits-IsWord, all_graphic, literal-IsToken}
use beacon_node.Handshake.{
  PeerHello, PeerWelcome, parse_u16, encode_peer_hello, read_hello, hello_of_tokens,
  decode_peer_hello, encode_peer_welcome, read_welcome, welcome_of_tokens, decode_peer_welcome,
  respond, gossip_heartbeat,
}

-- A text of a verb and two fields is split into its three tokens.
two_fields :
    (verb first x second : Bytes) (n : ℕ)
    → all_graphic first ≡ true
    → is_empty first ≡ false
    → all_graphic second ≡ true
    → is_empty second ≡ false
    → IsToken verb
    → IsWord x
    → split_tokens (verb ++ (b' ' ∷ (first ++ (x ++ (b' ' ∷ (second ++ to_string n))))))
      ≡ verb ∷ (first ++ x) ∷ (second ++ to_string n) ∷ []
two_fields verb first x second n g e g' e' v w =
    ap split_tokens (ap (λ s. verb ++ s) same)
    ∙ split_tokens-spaced verb ((first ++ x) ∷ (second ++ to_string n) ∷ []) v (
      named-IsToken first x g e w,
      (
        named-IsToken second (to_string n) g' e'
            (digits-IsWord (to_string n) (to_string-IsDigit n)),
        tt,
      ),
    )
  where
    same :
        b' ' ∷ (first ++ (x ++ (b' ' ∷ (second ++ to_string n))))
        ≡ spaced ((first ++ x) ∷ (second ++ to_string n) ∷ [])
    same = unfold spaced in simp (append_assoc, append-nil)

parse_u16-to_string :
    (old n : ℕ)
    → n < 2 ^ 16
    → parse_u16 old (to_string n) ≡ record { succeeded = true; variable = n }
unfolding parse_u16
parse_u16-to_string old n h = ground (arith, parse_number-to_string u32_bound 0 n)

hello_fields :
    (hello : PeerHello)
    → is_empty hello.node_id ≡ false
    → 1 ≤ hello.listen_port
    → hello.listen_port < 2 ^ 16
    → hello_of_tokens (
        codes "BEACON_HELLO"
        ∷ (codes "node_id=" ++ hello.node_id)
        ∷ (codes "listen_port=" ++ to_string hello.listen_port)
        ∷ [])
      ≡ some hello
unfolding hello_of_tokens read_hello starts_with get_value str_eq parse_u16
hello_fields hello full lo hi = ground (arith, parse_number-to_string u32_bound 0 hello.listen_port)

-- A hello with a node id that is a word and a port from 1 to 65535 is decoded from its text.
pub decode_peer_hello-encode_peer_hello :
    (hello : PeerHello)
    → IsToken hello.node_id
    → 1 ≤ hello.listen_port
    → hello.listen_port < 2 ^ 16
    → decode_peer_hello (encode_peer_hello hello) ≡ some hello
unfolding decode_peer_hello encode_peer_hello all_graphic
decode_peer_hello-encode_peer_hello hello (w, full) lo hi =
    ap hello_of_tokens (
      two_fields (codes "BEACON_HELLO") (codes "node_id=") hello.node_id (codes "listen_port=")
        hello.listen_port refl refl refl refl (literal-IsToken (codes "BEACON_HELLO") refl refl) w)
    ∙ hello_fields hello full lo hi

welcome_fields :
    (welcome : PeerWelcome)
    → is_empty welcome.node_id ≡ false
    → welcome.registry_revision < 2 ^ 64
    → welcome_of_tokens (
        codes "BEACON_WELCOME"
        ∷ (codes "node_id=" ++ welcome.node_id)
        ∷ (codes "registry_revision=" ++ to_string welcome.registry_revision)
        ∷ [])
      ≡ some welcome
unfolding welcome_of_tokens read_welcome starts_with get_value str_eq
welcome_fields welcome full hi =
    ground (arith, parse_number-to_string u64_bound 0 welcome.registry_revision)

-- A welcome with a node id that is a word and a 64-bit revision is decoded from its text.
pub decode_peer_welcome-encode_peer_welcome :
    (welcome : PeerWelcome)
    → IsToken welcome.node_id
    → welcome.registry_revision < 2 ^ 64
    → decode_peer_welcome (encode_peer_welcome welcome) ≡ some welcome
unfolding decode_peer_welcome encode_peer_welcome all_graphic
decode_peer_welcome-encode_peer_welcome welcome (w, full) hi =
    ap welcome_of_tokens (
      two_fields (codes "BEACON_WELCOME") (codes "node_id=") welcome.node_id
        (codes "registry_revision=") welcome.registry_revision refl refl refl refl
        (literal-IsToken (codes "BEACON_WELCOME") refl refl) w)
    ∙ welcome_fields welcome full hi

other_verb : (tokens : List Bytes) → hello_of_tokens (codes "GOSSIP_HEARTBEAT" ∷ tokens) ≡ none
unfolding hello_of_tokens str_eq
other_verb tokens = refl

not_hello : (sender : NodeConfig) → decode_peer_hello (gossip_heartbeat sender) ≡ none
unfolding decode_peer_hello gossip_heartbeat all_graphic
not_hello sender =
    ap hello_of_tokens (
      split_tokens_word (codes "GOSSIP_HEARTBEAT")
        (codes "node_id="
          ++ (sender.node_id
              ++ (codes " listen_port="
                  ++ (to_string sender.listen_port
                      ++ (codes " control_port=" ++ to_string sender.control_port)))))
        (literal-IsToken (codes "GOSSIP_HEARTBEAT") refl refl).0 refl)
    ∙ other_verb _

-- The responder does not answer the heartbeat that a node sends to its port, whatever the settings of the
-- two nodes and the registry: the text is no hello.
pub respond-gossip_heartbeat :
    (sender receiver : NodeConfig) (g : AgentRegistry)
    → respond receiver g (gossip_heartbeat sender) ≡ none
unfolding respond
respond-gossip_heartbeat sender receiver g = ground (arith, not_hello sender)
