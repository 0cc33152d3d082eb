-- ===== src/Sync/Commands.antt =====
-- The commands of src/beacon_net/sync_client.cpp at the control port of src/beacon_net/control_server.cpp:
-- the text of STATS and SYNC_PULL, and how the control port parses it.
use beacon_node.Base.{
  ℕ, ◌<◌, ◌^◌, ◌≡◌, [], ◌∷◌, ◌++◌, refl, ◌∙◌, ap, arith, append_assoc, append-nil, false, true,
  is_empty,
}
use beacon_node.Base.Text.{Bytes, codes, str_eq}
use beacon_node.Config.{LifecycleConfig}
use beacon_node.Types.{TimePoint}
use beacon_node.Numbers.{to_string, u64_bound}
use beacon_node.Numbers.RoundTrip.{parse_number-to_string, to_string-IsDigit}
use beacon_node.Tokens.{split_tokens, get_value, starts_with}
use beacon_node.Tokens.Joined.{spaced, IsToken, split_tokens-spaced}
use beacon_node.Control.Command.{
  ControlAction, new_command, start_command, check_required, parse_tokens, parse_command,
  apply_token, apply_tokens,
}
use beacon_node.Control.Fields.{named-IsToken, digits-IsWord, literal-IsToken, all_graphic}
use beacon_node.Sync.{encode_sync_pull_command}

pub number-IsToken :
    (name : Bytes) (n : ℕ)
    → all_graphic name ≡ true
    → is_empty name ≡ false
    → IsToken (name ++ to_string n)
number-IsToken name n g e =
    named-IsToken name (to_string n) g e (digits-IsWord (to_string n) (to_string-IsDigit n))

-- The tokens of SYNC_PULL.
pull_tokens :
    (revision limit : ℕ)
    → split_tokens (encode_sync_pull_command revision limit)
      ≡ codes "SYNC_PULL"
        ∷ (codes "after_revision=" ++ to_string revision)
        ∷ (codes "limit=" ++ to_string limit)
        ∷ []
unfolding encode_sync_pull_command all_graphic
pull_tokens revision limit =
    ap split_tokens (ap (λ s. codes "SYNC_PULL" ++ s) same)
    ∙ split_tokens-spaced (codes "SYNC_PULL")
        ((codes "after_revision=" ++ to_string revision) ∷ (codes "limit=" ++ to_string limit) ∷ [])
        (literal-IsToken (codes "SYNC_PULL") refl refl)
        (
          number-IsToken (codes "after_revision=") revision refl refl,
          (number-IsToken (codes "limit=") limit refl refl, tt),
        )
  where
    same :
        b' '
          ∷ (codes "after_revision="
              ++ (to_string revision ++ (codes " limit=" ++ to_string limit)))
        ≡ spaced (
            (codes "after_revision=" ++ to_string revision)
            ∷ (codes "limit=" ++ to_string limit)
            ∷ [])
    same = unfold spaced in simp (append_assoc, append-nil)

pub parse_command-encode_sync_pull_command :
    (now : TimePoint) (lifecycle : LifecycleConfig) (revision limit : ℕ)
    → revision < 2 ^ 64
    → limit < 2 ^ 64
    → parse_command now lifecycle (encode_sync_pull_command revision limit)
      ≡ record (new_command now) {
        action = ControlAction.sync_pull;
        after_revision = revision;
        limit = limit;
      }
unfolding parse_command parse_tokens start_command check_required apply_token apply_tokens
    starts_with get_value str_eq
parse_command-encode_sync_pull_command now lifecycle revision limit hr hl =
    ap (parse_tokens now lifecycle) (pull_tokens revision limit)
    ∙ ground (
      arith,
      parse_number-to_string u64_bound 0 revision,
      parse_number-to_string u64_bound 0 limit,
    )
