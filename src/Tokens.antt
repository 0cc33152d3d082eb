-- ===== src/Tokens.antt =====
-- The text functions that the line protocol, the handshake and the sync client share: each of their
-- files has its own copy of `split_tokens` and of the function behind a '='.
-- `stream >> token` skips the white space of the C locale and reads up to the next one.
pub mod Words
pub mod Joined
use beacon_node.Base.{
  ℕ, zero, suc, ◌+◌, ◌-◌, List, [], ◌∷◌, ◌++◌, Bool, true, false, ◌&&◌, ◌||◌, Option, none, some,
  leb, ◌==◌, if◌then◌else◌, is_empty, drop,
}
use beacon_node.Base.Text.{Bytes}

-- `std::isspace`: the space, and the bytes 9 to 13
abbrev pub is_space : ℕ → Bool
is_space c = c == b' ' || (leb 9 c && leb c 13)

-- The token that has been read so far, if any.
abbrev pub flush : Bytes → List Bytes → List Bytes
flush [] tokens = tokens
flush (c ∷ s) tokens = (c ∷ s) ∷ tokens

unfoldable pub scan_tokens : Bytes → Bytes → List Bytes
scan_tokens token [] = flush token []
scan_tokens token (c ∷ s) = elim (is_space c) [
  | true ↦ flush token (scan_tokens [] s)
  | false ↦ scan_tokens (token ++ c ∷ []) s
]

unfoldable pub split_tokens : Bytes → List Bytes
unfolding scan_tokens
split_tokens line = scan_tokens [] line

-- What follows the first '=', `token.substr(token.find('=') + 1)`; `none` without one.
unfoldable pub after_equals : Bytes → Option Bytes
after_equals [] = none
after_equals (c ∷ s) = if c == b'=' then some s else after_equals s

-- What comes before it.
unfoldable pub before_equals : Bytes → Bytes
before_equals [] = []
before_equals (c ∷ s) = if c == b'=' then [] else c ∷ before_equals s

-- `get_value`, `value_after` and `field_value`
unfoldable pub get_value : Bytes → Bytes
unfolding after_equals
get_value token = elim (after_equals token) [ none ↦ [] | some v ↦ v ]

-- `token.rfind(prefix, 0) == 0`
unfoldable pub starts_with : Bytes → Bytes → Bool
starts_with token [] = true
starts_with [] (p ∷ prefix) = false
starts_with (c ∷ token) (p ∷ prefix) = c == p && starts_with token prefix
