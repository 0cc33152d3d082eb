-- ===== src/Identity/Pinning.antt =====
-- The pinned keys of src/beacon/identity_service.cpp.
use beacon_node.Crypto.Status.{verified_key}
use beacon_node.Base.{
  ℕ, ◌≤◌, [], ◌∷◌, false, ◌≡◌, ◌↔◌, Option, none, some, length, is_empty, arith, refl, append-nil,
  drop, zero, suc,
}
use beacon_node.Base.Text.{Bytes, str_eq_iff}
use beacon_node.Types.{AgentRecord}
use beacon_node.Crypto.{Sodium, valid, decode_hex, verify_agent_signature}
use beacon_node.SecureBuffer.{
  SecureBuffer, Allocator, MemoryTest, of_size, write_front, constant_time_equals,
}
use beacon_node.SecureBuffer
use beacon_node.SecureBuffer.Equality.{IsExact, constant_time_equals_iff}
use beacon_node.Identity.{
  TrustStore, IdentityService, find_key, memory_test, to_buffer, register_key, verify_and_register,
}

drop-length : (xs : Bytes) (n : ℕ) → length xs ≤ n → drop n xs ≡ []
drop-length [] zero h = refl
drop-length [] (suc n) h = refl
drop-length (x ∷ xs) zero h = absurd (omega arith)
drop-length (x ∷ xs) (suc n) h = drop-length xs n (omega arith)

-- The buffer holds the bytes that were copied into it.
pub block-to_buffer :
    (fresh : Allocator) (bs : Bytes)
    → ((k : ℕ) → length (fresh k) ≡ k)
    → is_empty bs ≡ false
    → (to_buffer fresh bs).block ≡ some bs
unfolding to_buffer of_size write_front
block-to_buffer fresh bs sized h =
    ground (arith, sized (length bs), drop-length (fresh (length bs)) (length bs), append-nil bs)

pub to_buffer-IsValid :
    (fresh : Allocator) (bs : Bytes)
    → ((k : ℕ) → length (fresh k) ≡ k)
    → is_empty bs ≡ false
    → SecureBuffer.IsValid (to_buffer fresh bs)
unfolding to_buffer of_size write_front
to_buffer-IsValid fresh [] sized h = cc
to_buffer-IsValid fresh (b ∷ bs) sized h = ground (
  arith,
  sized (length (b ∷ bs)),
  drop-length (fresh (length (b ∷ bs))) (length (b ∷ bs)),
  append-nil (b ∷ bs),
)

-- A pinned key stays, whatever record is verified.
pub find_key-verify_and_register :
    (fresh : Allocator) (sodium : Option Sodium) (s : IdentityService) (r : AgentRecord) (k : Bytes)
    (key : SecureBuffer)
    → find_key k s.trust_store ≡ some key
    → find_key k (verify_and_register fresh sodium s r).0.trust_store ≡ some key
unfolding verify_and_register register_key find_key
find_key-verify_and_register fresh sodium s r k key h = ground (arith, str_eq_iff r.agent_id k)

-- Every buffer of the store is valid.
abbrev pub HasValidKeys : TrustStore → Type 0
HasValidKeys [] = Unit
HasValidKeys ((k, b) ∷ m) = SecureBuffer.IsValid b × HasValidKeys m

HasValidKeys-find_key :
    (k : Bytes) (m : TrustStore) (b : SecureBuffer)
    → HasValidKeys m
    → find_key k m ≡ some b
    → SecureBuffer.IsValid b
unfolding find_key
HasValidKeys-find_key k [] b v h = cc
HasValidKeys-find_key k ((j, c) ∷ m) b (vc, v) h = ground (arith, HasValidKeys-find_key k m b v)

-- Where the allocator returns blocks of the size asked for, the buffers of a store stay valid.
pub verify_and_register-HasValidKeys :
    (fresh : Allocator) (sodium : Option Sodium) (s : IdentityService) (r : AgentRecord)
    → ((k : ℕ) → length (fresh k) ≡ k)
    → HasValidKeys s.trust_store
    → HasValidKeys (verify_and_register fresh sodium s r).0.trust_store
unfolding verify_and_register register_key
verify_and_register-HasValidKeys fresh sodium s r sized v =
    ground (arith, to_buffer-IsValid fresh (decode_hex r.public_key_hex) sized)

-- What the pinned key of the record's agent must be for the record to pass.
abbrev pub Agrees : Option SecureBuffer → Bytes → Type 0
Agrees none public_key = Unit
Agrees (some pinned) public_key = pinned.block ≡ some public_key

pinned_iff :
    (sodium : Option Sodium) (pinned : Option SecureBuffer) (key : SecureBuffer)
    (public_key : Bytes) (s : IdentityService) (agent_id : Bytes)
    → IsExact (memory_test sodium)
    → find_key agent_id s.trust_store ≡ pinned
    → ((b : SecureBuffer) → pinned ≡ some b → SecureBuffer.IsValid b)
    → SecureBuffer.IsValid key
    → key.block ≡ some public_key
    → ((register_key sodium s agent_id key).1 ≡ valid) ↔ Agrees pinned public_key
unfolding register_key
pinned_iff sodium none key pk s i exact f vp vk e = (λ h. tt, λ h. ground arith)
pinned_iff sodium (some b) key pk s i exact f vp vk e =
    let same = constant_time_equals_iff (memory_test sodium) b key exact (vp b refl) vk in
    (λ h. ground (arith, same), λ h. ground (arith, same))

-- A record is valid exactly if its signature is verified and its public key is the pinned key of its
-- agent, if there is one.
pub verify_and_register_iff :
    (fresh : Allocator) (sodium : Option Sodium) (s : IdentityService) (r : AgentRecord)
    → ((k : ℕ) → length (fresh k) ≡ k)
    → IsExact (memory_test sodium)
    → HasValidKeys s.trust_store
    → ((verify_and_register fresh sodium s r).1 ≡ valid) ↔ (
        (verify_agent_signature sodium r ≡ valid)
        × Agrees (find_key r.agent_id s.trust_store) (decode_hex r.public_key_hex))
unfolding verify_and_register
verify_and_register_iff fresh sodium s r sized exact v = (
  λ h. ground (arith, verified_key sodium r, agreed),
  λ h. ground (arith, verified_key sodium r, agreed),
)
  where
    agreed :
        is_empty (decode_hex r.public_key_hex) ≡ false
        → ((register_key sodium s r.agent_id (to_buffer fresh (decode_hex r.public_key_hex))).1
            ≡ valid)
          ↔ Agrees (find_key r.agent_id s.trust_store) (decode_hex r.public_key_hex)
    agreed h =
        pinned_iff sodium (find_key r.agent_id s.trust_store)
          (to_buffer fresh (decode_hex r.public_key_hex)) (decode_hex r.public_key_hex) s r.agent_id
          exact refl (λ b. HasValidKeys-find_key r.agent_id s.trust_store b v)
          (to_buffer-IsValid fresh _ sized h) (block-to_buffer fresh _ sized h)
