-- ===== src/Crypto/Signing.antt =====
-- Records that are signed with the functions of src/beacon/crypto.cpp.
use beacon_node.Base.{◌≡◌, All, Option, some, true, length, refl, ap, ◌∙◌}
use beacon_node.Base.Text.{Bytes, IsByte}
use beacon_node.Types.{AgentRecord}
use beacon_node.Crypto.{
  Sodium, valid, encode_hex, canonical_agent_payload, verify_agent_signature, Ed25519Keypair,
  generate_ed25519_keypair, sign_ed25519, public_key_bytes, signature_bytes, secret_key_bytes,
}
use beacon_node.Crypto.Hex.{decode_hex-encode_hex}
use beacon_node.Crypto.Status.{IsSigned→valid}

-- The documented behaviour of libsodium: the sizes of what it generates and signs, and that it verifies what
-- it has signed with the secret key of a pair under the public key.
pub record IsSigner (lib : Sodium) (sign_detached : Bytes → Bytes → Bytes)
    (generated : Ed25519Keypair) : Type 0 where
  pub public_size : length generated.public_key ≡ public_key_bytes
  pub secret_size : length generated.secret_key ≡ secret_key_bytes
  pub public_bytes : All IsByte generated.public_key
  pub signature_size :
      (payload : Bytes) → length (sign_detached payload generated.secret_key) ≡ signature_bytes
  pub signature_all_bytes :
      (payload : Bytes) → All IsByte (sign_detached payload generated.secret_key)
  pub verifies :
      (payload : Bytes)
      → Sodium.verify_detached lib
          (sign_detached payload generated.secret_key)
          payload
          generated.public_key
        ≡ true

-- The record with the public key and the signature of its canonical payload.
abbrev pub signed_with : (Bytes → Bytes → Bytes) → Option Ed25519Keypair → AgentRecord → AgentRecord
signed_with sign_detached generated r =
    let pair = generate_ed25519_keypair generated in
    record r {
      public_key_hex = encode_hex (Ed25519Keypair.public_key pair);
      signature_hex = encode_hex (
          sign_ed25519 (some sign_detached) (canonical_agent_payload r)
            (Ed25519Keypair.secret_key pair));
    }

-- Where libsodium behaves as documented, a record that is signed with a generated key pair is valid.
pub verify_agent_signature-sign_ed25519 :
    (lib : Sodium) (sign_detached : Bytes → Bytes → Bytes) (generated : Ed25519Keypair)
    (r : AgentRecord)
    → IsSigner lib sign_detached generated
    → verify_agent_signature (some lib) (signed_with sign_detached (some generated) r) ≡ valid
unfolding generate_ed25519_keypair sign_ed25519 canonical_agent_payload
verify_agent_signature-sign_ed25519 lib sign_detached generated r s =
    let payload = canonical_agent_payload r in
    let signature = sign_detached payload generated.secret_key in
    let pk = decode_hex-encode_hex generated.public_key s.public_bytes in
    let sig = decode_hex-encode_hex signature (s.signature_all_bytes payload) in
    rw s.secret_size (
      IsSigned→valid (some lib) _ (record {
        lib = lib;
        built = refl;
        key_size = ap length pk ∙ s.public_size;
        signature_size = ap length sig ∙ s.signature_size payload;
        verified = rw (pk, sig) (s.verifies payload);
      }))
