-- ===== src/Control/Fields.antt =====
-- The fields of an agent line as tokens, and the records that fit in a line.
use beacon_node.Tokens.{is_space}
use beacon_node.Base.{
  ◌<◌, ◌^◌, List, [], ◌∷◌, ◌++◌, Bool, true, false, ◌≡◌, refl, is_empty, arith, All, All-append,
  All-map, append_assoc, append-nil, not, ◌&&◌,
}
use beacon_node.Base.Text.{Bytes, codes}
use beacon_node.Metadata.{Metadata, IsOrdered}
use beacon_node.Types.{AgentRecord}
use beacon_node.Numbers.{to_string}
use beacon_node.Numbers.RoundTrip.{IsDigit, to_string-IsDigit}
use beacon_node.Tokens.Words.{IsWord, IsName, IsGraphic}
use beacon_node.Tokens.Joined.{spaced, spaced-append, IsToken}
use beacon_node.Control.{metadata_fields, optional_field, agent_fields}

-- One token, if the value is not empty.
abbrev pub optional_token : Bytes → Bytes → List Bytes
optional_token name [] = []
optional_token name (c ∷ value) = (name ++ (c ∷ value)) ∷ []

abbrev pub metadata_tokens : Metadata → List Bytes
metadata_tokens [] = []
metadata_tokens ((key, value) ∷ m) =
    (codes "metadata." ++ (key ++ (codes "=" ++ value))) ∷ metadata_tokens m

abbrev pub agent_tokens : AgentRecord → List Bytes
agent_tokens r =
    (codes "agent_id=" ++ r.agent_id)
    ∷ (codes "node_id=" ++ r.node_id)
    ∷ (codes "endpoint=" ++ r.endpoint)
    ∷ (codes "revision=" ++ to_string r.revision)
    ∷ (optional_token (codes "public_key=") r.public_key_hex
        ++ (optional_token (codes "signature=") r.signature_hex ++ metadata_tokens r.metadata))

-- A key is a word without '=', and a value is a word.
abbrev pub IsEntry : Bytes × Bytes → Type 0
IsEntry e = IsWord e.0 × IsName e.0 × IsWord e.1

-- A record that an agent line carries whole: no value holds white space, the three fields that a
-- submission must have are not empty, and the revision is a 64-bit number.
pub record FitsLine (r : AgentRecord) : Type 0 where
  pub agent_id : IsToken r.agent_id
  pub node_id : IsToken r.node_id
  pub endpoint : IsToken r.endpoint
  pub revision : r.revision < 2 ^ 64
  pub public_key : IsWord r.public_key_hex
  pub signature : IsWord r.signature_hex
  pub entries : All IsEntry r.metadata
  pub ordered : IsOrdered r.metadata

metadata_fields-spaced : (m : Metadata) → metadata_fields m ≡ spaced (metadata_tokens m)
unfolding metadata_fields spaced
metadata_fields-spaced [] = refl
metadata_fields-spaced ((k, v) ∷ m) = simp (metadata_fields-spaced m, append_assoc)

optional_field-spaced :
    (name value : Bytes) → optional_field (b' ' ∷ name) value ≡ spaced (optional_token name value)
unfolding spaced
optional_field-spaced name [] = refl
optional_field-spaced name (c ∷ value) = simp append-nil

pub agent_fields-spaced : (r : AgentRecord) → agent_fields r ≡ spaced (agent_tokens r)
unfolding agent_fields spaced
agent_fields-spaced r = simp (
  metadata_fields-spaced,
  spaced-append,
  optional_field-spaced (codes "public_key=") r.public_key_hex,
  optional_field-spaced (codes "signature=") r.signature_hex,
)

unfoldable pub all_graphic : Bytes → Bool
all_graphic [] = true
all_graphic (c ∷ s) = not (is_space c) && all_graphic s

all_graphic-IsWord : (s : Bytes) → all_graphic s ≡ true → IsWord s
unfolding all_graphic
all_graphic-IsWord [] h = tt
all_graphic-IsWord (c ∷ s) h = ground (arith, all_graphic-IsWord s)

-- A name in front of a value makes a token.
pub named-IsToken :
    (name value : Bytes)
    → all_graphic name ≡ true
    → is_empty name ≡ false
    → IsWord value
    → IsToken (name ++ value)
named-IsToken [] value g e h = cc
named-IsToken (c ∷ name) value g e h =
    (All-append IsGraphic (c ∷ name) value (all_graphic-IsWord (c ∷ name) g) h, refl)

pub literal-IsToken : (s : Bytes) → all_graphic s ≡ true → is_empty s ≡ false → IsToken s
literal-IsToken s g e = (all_graphic-IsWord s g, e)

optional-IsToken :
    (name value : Bytes)
    → all_graphic name ≡ true
    → is_empty name ≡ false
    → IsWord value
    → All IsToken (optional_token name value)
optional-IsToken name [] g e h = tt
optional-IsToken name (c ∷ value) g e h = (named-IsToken name (c ∷ value) g e h, tt)

pub digits-IsWord : (s : Bytes) → All IsDigit s → IsWord s
digits-IsWord s h = All-map IsDigit IsGraphic (λ c d. ground arith) s h

metadata_tokens-IsToken : (m : Metadata) → All IsEntry m → All IsToken (metadata_tokens m)
unfolding all_graphic
metadata_tokens-IsToken [] h = tt
metadata_tokens-IsToken ((k, v) ∷ m) ((hk, hn, hv), h) = (
  named-IsToken (codes "metadata.") (k ++ (codes "=" ++ v)) refl refl
      (All-append IsGraphic k (codes "=" ++ v) hk (refl, hv)),
  metadata_tokens-IsToken m h,
)

-- The fields of a record that fits a line are tokens.
pub agent_tokens-IsToken : (r : AgentRecord) → FitsLine r → All IsToken (agent_tokens r)
unfolding all_graphic
agent_tokens-IsToken r f = (
  named-IsToken (codes "agent_id=") r.agent_id refl refl f.agent_id.0,
  (
    named-IsToken (codes "node_id=") r.node_id refl refl f.node_id.0,
    (
      named-IsToken (codes "endpoint=") r.endpoint refl refl f.endpoint.0,
      (
        named-IsToken (codes "revision=") (to_string r.revision) refl refl
            (digits-IsWord (to_string r.revision) (to_string-IsDigit r.revision)),
        All-append IsToken (optional_token (codes "public_key=") r.public_key_hex) _
            (optional-IsToken (codes "public_key=") r.public_key_hex refl refl f.public_key)
            (All-append IsToken (optional_token (codes "signature=") r.signature_hex)
              (metadata_tokens r.metadata)
              (optional-IsToken (codes "signature=") r.signature_hex refl refl f.signature)
              (metadata_tokens-IsToken r.metadata f.entries)),
      ),
    ),
  ),
)
