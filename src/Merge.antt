-- ===== src/Merge.antt =====
-- `AgentRegistry::merge` of src/beacon/agent_registry.cpp: a batch of records, each checked by the
-- identity service where there is one, and then upserted.
-- The identity service is a pointer that may be null, hence an option.
pub mod Invariant
pub mod Convergence
pub mod Pulled
pub mod Unsigned
use beacon_node.Base.{
  ℕ, ◌+◌, List, [], ◌∷◌, ◌++◌, Bool, true, false, ◌||◌, Option, none, some, if◌then◌else◌,
}
use beacon_node.Types.{AgentRecord}
use beacon_node.Crypto.{Sodium, SignatureStatus, valid, missing, invalid, unsupported}
use beacon_node.SecureBuffer.{Allocator}
use beacon_node.Identity.{IdentityService, is_valid, verify_and_register}
use beacon_node.Registry.{AgentRegistry, UpsertResult, upsert}

-- The registry and the identity service after the call, the number of records that were accepted, and
-- the records handed to `on_upsert_`.
pub record MergeResult : Type 0 where
  pub registry : AgentRegistry
  pub identity : Option IdentityService
  pub accepted : ℕ
  pub notified : List AgentRecord

abbrev pub is_missing : SignatureStatus → Bool
is_missing missing = true
is_missing valid = false
is_missing invalid = false
is_missing unsupported = false

-- `status != Valid && status != Missing` skips the record; the service keeps what it registered.
unfoldable pub check_identity :
    Allocator → Option Sodium → Option IdentityService → AgentRecord → Option IdentityService × Bool
check_identity fresh sodium none r = (none, true)
check_identity fresh sodium (some s) r =
    let checked = verify_and_register fresh sodium s r in
    (some checked.0, is_valid checked.1 || is_missing checked.1)

unfoldable pub merge_record :
    Allocator → Option Sodium → AgentRegistry → Option IdentityService → AgentRecord → MergeResult
unfolding check_identity
merge_record fresh sodium g identity r =
    let checked = check_identity fresh sodium identity r in
    let done = upsert g r in
    if checked.1
    then record {
      registry = UpsertResult.registry done;
      identity = checked.0;
      accepted = (if UpsertResult.accepted done then 1 else 0);
      notified = UpsertResult.notified done;
    }
    else record { registry = g; identity = checked.0; accepted = 0; notified = [] }

unfoldable pub merge :
    Allocator
    → Option Sodium
    → AgentRegistry
    → Option IdentityService
    → List AgentRecord
    → MergeResult
merge fresh sodium g identity [] = record {
  registry = g;
  identity = identity;
  accepted = 0;
  notified = [];
}
merge fresh sodium g identity (r ∷ rs) =
    let first = merge_record fresh sodium g identity r in
    let rest = merge fresh sodium (MergeResult.registry first) (MergeResult.identity first) rs in
    record rest {
      accepted = MergeResult.accepted first + MergeResult.accepted rest;
      notified = MergeResult.notified first ++ MergeResult.notified rest;
    }
