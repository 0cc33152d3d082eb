-- ===== src/Examples/Data.antt =====
-- Records, keys and a stand-in for libsodium.
use beacon_node.Base.{ℕ, zero, suc, [], ◌∷◌, ◌≡◌, refl, length, take, some, true, ap, find_if}
use beacon_node.Base.Text.{Bytes, codes, str_eq, str_eq_iff}
use beacon_node.Types.{AgentRecord}
use beacon_node.Registry.{AgentRegistry, has_id}
use beacon_node.Registry.Distinct.{IsValid}
use beacon_node.Crypto.{Sodium}
use beacon_node.Identity.{IdentityService}
use beacon_node.SecureBuffer.Equality.{IsExact}

-- A memory that comes zeroed.
abbrev pub zeros : ℕ → Bytes
zeros zero = []
zeros (suc n) = 0 ∷ zeros n

pub length-zeros : (n : ℕ) → length (zeros n) ≡ n
length-zeros zero = refl
length-zeros (suc n) = ap (λ k. suc k) (length-zeros n)

-- A signature counts as one of the key if the two start with the same byte.
abbrev pub first_byte_sodium : Sodium
first_byte_sodium = record {
  verify_detached = λ signature payload key. str_eq (take 1 signature) (take 1 key);
  memcmp = str_eq;
}

pub first_byte_sodium-IsExact : IsExact (some first_byte_sodium.memcmp)
first_byte_sodium-IsExact = λ xs ys h. str_eq_iff xs ys

abbrev pub key_a : Bytes
key_a = codes "aaaaaaaaaaaaaaaaaaaaaaaaaaaaaaaaaaaaaaaaaaaaaaaaaaaaaaaaaaaaaaaa"

abbrev pub signature_a : Bytes
signature_a =
    codes
      "aaaaaaaaaaaaaaaaaaaaaaaaaaaaaaaaaaaaaaaaaaaaaaaaaaaaaaaaaaaaaaaaaaaaaaaaaaaaaaaaaaaaaaaaaaaaaaaaaaaaaaaaaaaaaaaaaaaaaaaaaaaaaaaa"

abbrev pub agent : Bytes → ℕ → ℕ → AgentRecord
agent name revision expires_at = record {
  agent_id = name;
  node_id = codes "n1";
  endpoint = codes "tcp://h:1";
  metadata = (codes "zone", codes "eu") ∷ [];
  revision = revision;
  expires_at = expires_at;
  public_key_hex = [];
  signature_hex = [];
}

abbrev pub signed : AgentRecord → AgentRecord
signed r = record r { public_key_hex = key_a; signature_hex = signature_a }

abbrev pub two_agents : AgentRegistry
two_agents = record {
  records = agent (codes "a") 3 100 ∷ agent (codes "b") 5 200 ∷ [];
  has_callback = true;
}

pub two_agents-IsValid : IsValid two_agents
unfolding find_if has_id str_eq
two_agents-IsValid = record { distinct = (refl, (refl, tt)) }

abbrev pub no_keys : IdentityService
no_keys = record { trust_store = [] }
