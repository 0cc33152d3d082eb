-- ===== src/Crypto.antt =====
-- src/beacon/crypto.hpp and crypto.cpp: hexadecimal text, the payload that an agent signs, and the
-- verification of a record's signature.
--
-- libsodium is a parameter: `Sodium` holds the verification function, and a build without
-- BEACONNODE_ENABLE_LIBSODIUM is `none`.
pub mod Hex
pub mod Status
pub mod Signing
pub mod Payload
use Prim.Native.Nat.{bit_or}
use beacon_node.Base.{
  ℕ, zero, suc, ◌+◌, ◌-◌, ◌*◌, ◌/◌, ◌%◌, ◌^◌, List, [], ◌∷◌, ◌++◌, Bool, true, false, not, ◌&&◌,
  ◌||◌, Option, none, some, ltb, leb, ◌==◌, if◌then◌else◌, is_empty, length,
}
use beacon_node.Base.Text.{Bytes, codes}
use beacon_node.Metadata.{Metadata}
use beacon_node.Types.{AgentRecord}
use beacon_node.Numbers.{to_string}

-- `hex_value`; `none` is the result -1.
unfoldable pub hex_value : ℕ → Option ℕ
hex_value c =
    if leb b'0' c && leb c b'9'
    then some (c - b'0')
    else if leb b'a' c && leb c b'f'
    then some (10 + c - b'a')
    else if leb b'A' c && leb c b'F'
    then some (10 + c - b'A')
    else none

-- The loop of `decode_hex`, which has read `bytes` and stands before the rest of the text. The text has
-- even length, so the clause for one digit is not reached.
unfoldable pub decode_pairs : Bytes → Bytes → Bytes
decode_pairs bytes [] = bytes
decode_pairs bytes (c ∷ []) = []
decode_pairs bytes (c ∷ d ∷ s) = elim (hex_value c) [
  | none ↦ []
  | some high ↦ elim (hex_value d) [
    | none ↦ []
    | some low ↦ decode_pairs (bytes ++ bit_or (high * 2 ^ 4) low % 256 ∷ []) s
  ]
]

unfoldable pub decode_hex : Bytes → Bytes
unfolding decode_pairs
decode_hex hex = if not (length hex % 2 == 0) then [] else decode_pairs [] hex

-- A digit of `std::hex`.
unfoldable pub hex_digit : ℕ → ℕ
hex_digit n = if ltb n 10 then b'0' + n else b'a' + (n - 10)

-- Each byte is written with `std::setw(2)` and the fill '0'.
unfoldable pub encode_hex : Bytes → Bytes
encode_hex [] = []
encode_hex (b ∷ bs) = hex_digit (b / 16) ∷ hex_digit (b % 16) ∷ encode_hex bs

-- `"metadata." << key << "=" << value << "\n"`
unfoldable pub canonical_metadata : Metadata → Bytes
canonical_metadata [] = []
canonical_metadata ((key, value) ∷ m) =
    codes "metadata." ++ (key ++ (codes "=" ++ (value ++ (codes "\n" ++ canonical_metadata m))))

unfoldable pub canonical_agent_payload : AgentRecord → Bytes
unfolding canonical_metadata
canonical_agent_payload r =
    codes "agent_id="
    ++ (r.agent_id
        ++ (codes "\n"
            ++ (codes "node_id="
                ++ (r.node_id
                    ++ (codes "\n"
                        ++ (codes "endpoint="
                            ++ (r.endpoint
                                ++ (codes "\n"
                                    ++ (codes "revision="
                                        ++ (to_string r.revision
                                            ++ (codes "\n"
                                                ++ canonical_metadata r.metadata)))))))))))

unfoldable pub canonical_entry_payload : Bytes → Bytes → Bytes → ℕ → Bytes
canonical_entry_payload agent_id capability endpoint timestamp =
    codes "agent_id="
    ++ (agent_id
        ++ (codes "\n"
            ++ (codes "capability="
                ++ (capability
                    ++ (codes "\n"
                        ++ (codes "endpoint="
                            ++ (endpoint
                                ++ (codes "\n"
                                    ++ (codes "timestamp="
                                        ++ (to_string timestamp ++ codes "\n"))))))))))

pub data SignatureStatus : Type 0 where
  valid missing invalid unsupported : SignatureStatus

abbrev pub public_key_bytes : ℕ
public_key_bytes = 32

abbrev pub signature_bytes : ℕ
signature_bytes = 64

-- `crypto_sign_verify_detached(signature, payload, public_key) == 0`, and `sodium_memcmp(a, b, size) == 0`
-- for two blocks of one size.
pub record Sodium : Type 0 where
  pub verify_detached : Bytes → Bytes → Bytes → Bool
  pub memcmp : Bytes → Bytes → Bool

unfoldable pub verify_agent_signature : Option Sodium → AgentRecord → SignatureStatus
verify_agent_signature sodium r =
    if is_empty r.public_key_hex || is_empty r.signature_hex
    then missing
    else let public_key = decode_hex r.public_key_hex in
      let signature = decode_hex r.signature_hex in
      if is_empty public_key || is_empty signature then invalid else elim sodium [
        | none ↦ unsupported
        | some lib ↦
            if not (length public_key == public_key_bytes)
              || not (length signature == signature_bytes)
            then invalid
            else if Sodium.verify_detached lib signature (canonical_agent_payload r) public_key
            then valid
            else invalid
      ]

unfoldable pub signature_status_message : SignatureStatus → Bytes
signature_status_message valid = codes "valid"
signature_status_message missing = codes "missing_signature"
signature_status_message invalid = codes "invalid_signature"
signature_status_message unsupported = codes "signature_verification_unsupported"

-- `verify_ed25519`
unfoldable pub verify_ed25519 : Option Sodium → Bytes → Bytes → Bytes → Bool
verify_ed25519 none payload signature public_key = false
verify_ed25519 (some lib) payload signature public_key =
    if not (length public_key == public_key_bytes) || not (length signature == signature_bytes)
    then false
    else Sodium.verify_detached lib signature payload public_key

pub record Ed25519Keypair : Type 0 where
  pub public_key : Bytes
  pub secret_key : Bytes

-- `generate_ed25519_keypair`: what `crypto_sign_keypair` writes to the two buffers, or, without libsodium,
-- the empty buffers.
unfoldable pub generate_ed25519_keypair : Option Ed25519Keypair → Ed25519Keypair
generate_ed25519_keypair none = record { public_key = []; secret_key = [] }
generate_ed25519_keypair (some generated) = generated

abbrev pub secret_key_bytes : ℕ
secret_key_bytes = 64

-- `sign_ed25519`; `crypto_sign_detached` is a parameter, which returns what it writes.
unfoldable pub sign_ed25519 : Option (Bytes → Bytes → Bytes) → Bytes → Bytes → Bytes
sign_ed25519 none payload private_key = []
sign_ed25519 (some sign_detached) payload private_key =
    if not (length private_key == secret_key_bytes) then [] else sign_detached payload private_key
