-- ===== src/Merge/Unsigned.antt =====
-- Records without a signature in a batch.
use beacon_node.Base.{[], ◌∷◌, ◌≡◌, arith, Option, none, some}
use beacon_node.Types.{AgentRecord}
use beacon_node.Crypto.{Sodium, missing, verify_agent_signature}
use beacon_node.SecureBuffer.{Allocator}
use beacon_node.Identity.{IdentityService, verify_and_register}
use beacon_node.Registry.{AgentRegistry, find}
use beacon_node.Registry.Refinement.{find-upsert}
use beacon_node.Base.Text.{str_eq_iff}
use beacon_node.Merge.{merge, merge_record, check_identity}

-- A merged record that is new to the registry and carries no signature is stored, with an identity
-- service as well: whether the node requires signatures is not asked here.
pub merge_unsigned :
    (fresh : Allocator) (sodium : Option Sodium) (g : AgentRegistry) (s : IdentityService)
    (r : AgentRecord)
    → find g r.agent_id ≡ none
    → verify_agent_signature sodium r ≡ missing
    → find (merge fresh sodium g (some s) (r ∷ [])).registry r.agent_id ≡ some r
unfolding merge merge_record check_identity verify_and_register
merge_unsigned fresh sodium g s r new unsigned =
    ground (arith, new, unsigned, find-upsert g r r.agent_id, str_eq_iff r.agent_id r.agent_id)
