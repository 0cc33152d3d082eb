-- ===== src/Crypto/Status.antt =====
-- When a record's signature is found valid.
use beacon_node.Base.{
  [], ◌∷◌, true, false, ◌≡◌, ◌↔◌, Option, none, some, length, is_empty, arith, refl,
}
use beacon_node.Base.Text.{Bytes}
use beacon_node.Types.{AgentRecord}
use beacon_node.Crypto.{Sodium, valid, decode_hex, verify_agent_signature, canonical_agent_payload}

-- Ed25519 verifies the canonical payload of the record under its key.
pub record IsSigned (sodium : Option Sodium) (r : AgentRecord) : Type 0 where
  pub lib : Sodium
  pub built : sodium ≡ some lib
  pub key_size : length (decode_hex r.public_key_hex) ≡ 32
  pub signature_size : length (decode_hex r.signature_hex) ≡ 64
  pub verified :
      Sodium.verify_detached lib
        (decode_hex r.signature_hex)
        (canonical_agent_payload r)
        (decode_hex r.public_key_hex)
      ≡ true

decode_hex-nil : decode_hex [] ≡ []
unfolding decode_hex
decode_hex-nil = refl

is_empty→nil : (s : Bytes) → is_empty s ≡ true → s ≡ []
is_empty→nil [] h = refl
is_empty→nil (c ∷ s) h = cc

valid→IsSigned :
    (sodium : Option Sodium) (r : AgentRecord)
    → verify_agent_signature sodium r ≡ valid
    → IsSigned sodium r
unfolding verify_agent_signature
valid→IsSigned none r h = ground arith
valid→IsSigned (some lib) r h = record {
  lib = lib;
  built = refl;
  key_size = ground arith;
  signature_size = ground arith;
  verified = ground arith;
}

pub IsSigned→valid :
    (sodium : Option Sodium) (r : AgentRecord)
    → IsSigned sodium r
    → verify_agent_signature sodium r ≡ valid
unfolding verify_agent_signature
IsSigned→valid sodium r v = ground (
  arith,
  v.built,
  decode_hex-nil,
  is_empty→nil r.public_key_hex,
  is_empty→nil r.signature_hex,
  is_empty→nil (decode_hex r.public_key_hex),
  is_empty→nil (decode_hex r.signature_hex),
  v.key_size,
  v.signature_size,
  v.verified,
)

-- A record's signature is valid exactly if the build has libsodium, the key and the signature decode to
-- 32 and 64 bytes, and the library verifies the signature of the canonical payload.
pub verify_agent_signature_iff :
    (sodium : Option Sodium) (r : AgentRecord)
    → (verify_agent_signature sodium r ≡ valid) ↔ IsSigned sodium r
verify_agent_signature_iff sodium r = (valid→IsSigned sodium r, IsSigned→valid sodium r)

-- A verified record has a key that is not empty.
pub verified_key :
    (sodium : Option Sodium) (r : AgentRecord)
    → verify_agent_signature sodium r ≡ valid
    → is_empty (decode_hex r.public_key_hex) ≡ false
unfolding verify_agent_signature
verified_key sodium r h = ground arith
