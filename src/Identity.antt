-- ===== src/Identity.antt =====
-- src/beacon/identity_service.hpp and identity_service.cpp: the public key of each agent, pinned by the
-- first record whose signature is verified.
-- `trust_store_` is an association list; the program never iterates over it. Each method holds the
-- mutex for its whole access to the store.
pub mod Pinning
use beacon_node.Base.{
  ℕ, List, [], ◌∷◌, Bool, true, false, not, Option, none, some, if◌then◌else◌, length, is_empty,
  filter,
}
use beacon_node.Base.Text.{Bytes, str_eq}
use beacon_node.Types.{AgentRecord}
use beacon_node.Crypto.{
  Sodium, SignatureStatus, valid, missing, invalid, unsupported, decode_hex, verify_agent_signature,
}
use beacon_node.SecureBuffer.{
  SecureBuffer, Allocator, MemoryTest, of_size, write_front, constant_time_equals,
}

abbrev pub TrustStore : Type 0
TrustStore = List (Bytes × SecureBuffer)

pub record IdentityService : Type 0 where
  pub trust_store : TrustStore

abbrev pub new_identity_service : IdentityService
new_identity_service = record { trust_store = [] }

-- `trust_store_.find(agent_id)`
unfoldable pub find_key : Bytes → TrustStore → Option SecureBuffer
find_key k [] = none
find_key k ((j, b) ∷ m) = if str_eq j k then some b else find_key k m

abbrev pub memory_test : Option Sodium → MemoryTest
memory_test none = none
memory_test (some lib) = some (Sodium.memcmp lib)

-- `SecureBuffer public_key(bytes.size())` and the copy into it
unfoldable pub to_buffer : Allocator → Bytes → SecureBuffer
to_buffer fresh bytes = write_front bytes (of_size fresh (length bytes))

-- The part of `verify_and_register` under the lock.
unfoldable pub register_key :
    Option Sodium → IdentityService → Bytes → SecureBuffer → IdentityService × SignatureStatus
register_key sodium s agent_id public_key = elim (find_key agent_id s.trust_store) [
  | none ↦ (record { trust_store = (agent_id, public_key) ∷ s.trust_store }, valid)
  | some existing ↦
      if not (constant_time_equals (memory_test sodium) existing public_key)
      then (s, invalid)
      else (s, valid)
]

abbrev pub is_valid : SignatureStatus → Bool
is_valid valid = true
is_valid missing = false
is_valid invalid = false
is_valid unsupported = false

unfoldable pub verify_and_register :
    Allocator → Option Sodium → IdentityService → AgentRecord → IdentityService × SignatureStatus
verify_and_register fresh sodium s r =
    let status = verify_agent_signature sodium r in
    if not (is_valid status)
    then (s, status)
    else let public_key = decode_hex r.public_key_hex in
      if is_empty public_key
      then (s, invalid)
      else register_key sodium s r.agent_id (to_buffer fresh public_key)

unfoldable pub check_key_consistency : Option Sodium → IdentityService → Bytes → SecureBuffer → Bool
check_key_consistency sodium s agent_id public_key = elim (find_key agent_id s.trust_store) [
  | none ↦ true
  | some existing ↦ constant_time_equals (memory_test sodium) existing public_key
]

unfoldable pub forget_key : IdentityService → Bytes → IdentityService
forget_key s agent_id = record {
  trust_store = filter (λ (e : Bytes × SecureBuffer). not (str_eq e.0 agent_id)) s.trust_store;
}

unfoldable pub trusted_agents : IdentityService → ℕ
trusted_agents s = length s.trust_store
