-- ===== src/Examples/Identity.antt =====
-- A service that has pinned one key.
use beacon_node.Base.{[], ◌∷◌, ◌≡◌, ◌↔◌, refl, some, arith}
use beacon_node.Base.Text.{codes}
use beacon_node.Crypto.{verify_agent_signature, valid, decode_hex}
use beacon_node.SecureBuffer.{SecureBuffer, IsValid}
use beacon_node.Identity.{IdentityService, find_key, verify_and_register}
use beacon_node.Identity.Pinning.{Agrees, verify_and_register_iff}
use beacon_node.Examples.Data.{
  agent, signed, zeros, length-zeros, first_byte_sodium, first_byte_sodium-IsExact,
}

abbrev pub short_key : SecureBuffer
short_key = record { block = some (1 ∷ 2 ∷ []); size = 2 }

abbrev pub one_key : IdentityService
one_key = record { trust_store = (codes "b", short_key) ∷ [] }

short_key-IsValid : IsValid short_key
short_key-IsValid = record { owns = (refl, omega arith) }

verify_and_register_iff_example :
    ((verify_and_register zeros
        (some first_byte_sodium)
        one_key
        (signed (agent (codes "a") 3 100))).1
      ≡ valid)
    ↔ ((verify_agent_signature (some first_byte_sodium) (signed (agent (codes "a") 3 100)) ≡ valid)
        × Agrees
            (find_key (codes "a") one_key.trust_store)
            (decode_hex (signed (agent (codes "a") 3 100)).public_key_hex))
verify_and_register_iff_example =
    verify_and_register_iff zeros (some first_byte_sodium) one_key
      (signed (agent (codes "a") 3 100)) length-zeros first_byte_sodium-IsExact
      (short_key-IsValid, tt)
