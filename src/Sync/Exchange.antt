-- ===== src/Sync/Exchange.antt =====
-- A connection of src/beacon_net/sync_client.cpp to the control port of another node, as
-- src/beacon_net/control_server.cpp serves it.
use beacon_node.Base.{
  ℕ, ◌<◌, ◌^◌, ◌≡◌, [], ◌∷◌, ◌++◌, refl, arith, All-append, All-map, ◌==◌, false, some, Option,
  none,
}
use beacon_node.Base.Text.{Bytes, codes, str_eq}
use beacon_node.Numbers.{to_string}
use beacon_node.Numbers.RoundTrip.{IsDigit, to_string-IsDigit}
use beacon_node.Tokens.Words.{IsLine, one_line, one_line-IsLine}
use beacon_node.Tokens.{split_tokens, scan_tokens}
use beacon_node.Control.Command.{
  parse_command, parse_tokens, start_command, check_required, apply_tokens,
}
use beacon_node.Registry.{AgentRegistry, entries_after_revision, stats}
use beacon_node.Identity.{IdentityService}
use beacon_node.Control.{answer, handle_line, perform, list_response, stats_response}
use beacon_node.ControlServer.{Server, Session, is_binary_frame_header, serve_session}
use beacon_node.ControlServer.Sessions.{IsText, serve_session-line}
use beacon_node.Sync.{encode_sync_pull_command}
use beacon_node.Sync.Commands.{parse_command-encode_sync_pull_command}

-- The other node.
abbrev pub Peer : Type 0
Peer = AgentRegistry × Option IdentityService

-- What `read` returns at the end of the stream: nothing where the session wrote nothing.
abbrev pub read_all : Option Bytes → Bytes
read_all none = []
read_all (some bytes) = bytes

-- `SyncClient::send_command`, where the connection works: a session on the command and a line feed.
unfoldable pub send_command : Server → ℕ → Peer → Bytes → Peer × Option Bytes
send_command server peeked peer command =
    let s = serve_session server peer.0 peer.1 peeked (command ++ b'\n' ∷ []) in
    ((Session.registry s, Session.identity s), some (read_all (Session.written s)))

number-IsLine : (n : ℕ) → IsLine (to_string n)
number-IsLine n =
    All-map IsDigit (λ c. (c == b'\n') ≡ false) (λ c d. ground arith) (to_string n)
      (to_string-IsDigit n)

pull-IsLine : (revision limit : ℕ) → IsLine (encode_sync_pull_command revision limit)
unfolding encode_sync_pull_command one_line
pull-IsLine revision limit =
    let P : ℕ → Type 0 = λ c. (c == b'\n') ≡ false in
    All-append P (codes "SYNC_PULL after_revision=")
      (to_string revision ++ (codes " limit=" ++ to_string limit))
      (one_line-IsLine (codes "SYNC_PULL after_revision=") refl)
      (All-append P (to_string revision) (codes " limit=" ++ to_string limit)
        (number-IsLine revision)
        (All-append P (codes " limit=") (to_string limit) (one_line-IsLine (codes " limit=") refl)
          (number-IsLine limit)))

module _ (server : Server) (peeked : ℕ) (g : AgentRegistry)
    (identity : Option IdentityService) where
  send_command-line :
      (command response : Bytes)
      → IsLine command
      → IsText peeked (command ++ b'\n' ∷ [])
      → handle_line server.env server.protocol g identity command ≡ answer g identity response
      → send_command server peeked (g, identity) command ≡ ((g, identity), some response)
  unfolding send_command
  send_command-line command response line text h =
      rw (serve_session-line server g identity peeked command [] line text, h) refl

  -- A node answers STATS with its statistics.
  pub send_command-stats :
      send_command server peeked (g, identity) (codes "STATS")
      ≡ ((g, identity), some (stats_response (stats g)))
  unfolding handle_line parse_command parse_tokens start_command check_required apply_tokens
      split_tokens scan_tokens perform is_binary_frame_header str_eq
  send_command-stats =
      send_command-line (codes "STATS") (stats_response (stats g))
        (refl, (refl, (refl, (refl, (refl, tt))))) (ground arith) refl

  -- A node answers SYNC_PULL with the records that `entries_after_revision` selects.
  pub send_command_pull :
      (revision limit : ℕ)
      → revision < 2 ^ 64
      → limit < 2 ^ 64
      → send_command server peeked (g, identity) (encode_sync_pull_command revision limit) ≡ (
        (g, identity),
        some (
            list_response
              (codes "OK message=sync_pull\n")
              (entries_after_revision server.env.sorter g revision limit)),
      )
  unfolding handle_line perform
  send_command_pull revision limit hr hl =
      send_command-line (encode_sync_pull_command revision limit)
        (list_response (codes "OK message=sync_pull\n")
          (entries_after_revision server.env.sorter g revision limit))
        (pull-IsLine revision limit)
        (unfold encode_sync_pull_command is_binary_frame_header in ground arith)
        (rw
          (
            parse_command-encode_sync_pull_command server.env.now server.protocol.lifecycle revision
                limit hr hl,
            handle_line,
          )
          refl)
