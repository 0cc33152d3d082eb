-- ===== src/Node/Durability.antt =====
-- The log of a node and the registry that src/beacon_engine/main.cpp starts with after it.
use beacon_node.Base.{
  ℕ, ◌+◌, ◌≤◌, ◌≡◌, ◌⊎◌, inl, inr, List, [], ◌∷◌, ◌++◌, refl, ◌∙◌, ap, sym, subst, arith, All,
  All-find_if, find_if, Option, none, some, true, length, map, if◌then◌else◌, append-nil,
}
use beacon_node.Base.Text.{Bytes, str_eq}
use beacon_node.Types.{AgentRecord, TimePoint}
use beacon_node.Crypto.{Sodium}
use beacon_node.SecureBuffer.{Allocator}
use beacon_node.Registry.{new_registry, has_id, find, one_year, set_upsert_callback}
use beacon_node.Registry.Lookup.{lookup-has_id}
use beacon_node.Registry.Refinement.{loaded}
use beacon_node.Registry.Loading.{loaded_all, find-load_from_persistence}
use beacon_node.Merge.Invariant.{Advances, Advances-refl, Advances-trans}
use beacon_node.Persistence.{RegistryEntry, Codec}
use beacon_node.Persistence.Wal.{IsSaved}
use beacon_node.Node.Replay.{log_of, positive-All, started, start_registry-log_of}
use beacon_node.Engine.Restart.{entry_of, record_of, restore, start_registry}
use beacon_node.Node.{Node}
use beacon_node.Node.Covered.{IsOrigin, Covered}
use beacon_node.Node.Invariant.{Inv}
use beacon_node.Node.Restart.{
  Written-refl, Descends, Descends-IsOrigin, Life, starts_again, restarted, Life-Inv,
}
use beacon_node.Identity.{new_identity_service}

pub find-restore :
    (now : TimePoint) (entries : List RegistryEntry) (k : Bytes)
    → find (restore now entries) k
      ≡ loaded_all (now + one_year) k none (map (record_of now) entries)
unfolding restore find find_if
find-restore now [] k = refl
find-restore now (entry ∷ entries) k =
    find-load_from_persistence now new_registry (map (record_of now) (entry ∷ entries)) k

loaded-Advances :
    (t : TimePoint) (k : Bytes) (o : Option AgentRecord) (r : AgentRecord)
    → Advances o (if str_eq r.agent_id k then loaded t o r else o)
loaded-Advances t k o r = ground arith

-- A load loses no agent and lowers no revision.
loaded_all-Advances :
    (t : TimePoint) (k : Bytes) (o : Option AgentRecord) (rs : List AgentRecord)
    → Advances o (loaded_all t k o rs)
loaded_all-Advances t k o [] = Advances-refl o
loaded_all-Advances t k o (r ∷ rs) =
    let first = if str_eq r.agent_id k then loaded t o r else o in
    Advances-trans o first (loaded_all t k first rs) (loaded-Advances t k o r)
      (loaded_all-Advances t k first rs)

loaded_takes :
    (t now : TimePoint) (k : Bytes) (o : Option AgentRecord) (y : AgentRecord)
    → str_eq y.agent_id k ≡ true
    → let r = record_of now (entry_of y) in
      Advances (some y) (if str_eq r.agent_id k then loaded t o r else o)
unfolding record_of entry_of
loaded_takes t now k o y e = ground (arith, e)

-- The logged records as the start of the program restores them.
abbrev pub restored : TimePoint → List AgentRecord → List AgentRecord
restored now logged = map (record_of now) (map entry_of logged)

abbrev pub Among : List AgentRecord → AgentRecord → Type 0
Among [] z = ⊥
Among (y ∷ ys) z = (z ≡ y) ⊎ Among ys z

-- The record `x` comes from the logged record `entry`, and the record `after` is there and not older than
-- `entry`.
pub record Survives (R : AgentRecord → AgentRecord → Type 0) (logged : List AgentRecord)
    (x : AgentRecord) (after : Option AgentRecord) : Type 0 where
  pub entry : AgentRecord
  pub among : Among logged entry
  pub origin : R entry x
  pub advances : Advances (some entry) after

module _ (R : AgentRecord → AgentRecord → Type 0) (is_origin : IsOrigin R) where
  loaded_all-Survives :
      (t now : TimePoint) (k : Bytes) (x : AgentRecord)
      → str_eq x.agent_id k ≡ true
      → (logged : List AgentRecord) (o : Option AgentRecord) → Covered R logged x
      → Survives R logged x (loaded_all t k o (restored now logged))
  loaded_all-Survives t now k x same [] o h = absurd h
  loaded_all-Survives t now k x same (y ∷ ys) o (inl h) =
      let r = record_of now (entry_of y) in
      let first = if str_eq r.agent_id k then loaded t o r else o in
      record {
        entry = y;
        among = inl refl;
        origin = h;
        advances =
            Advances-trans (some y) first (loaded_all t k first (restored now ys))
              (loaded_takes t now k o y
                (subst (λ i. str_eq i k ≡ true) (is_origin.same_id y x h) same))
              (loaded_all-Advances t k first (restored now ys));
      }
  loaded_all-Survives t now k x same (y ∷ ys) o (inr h) =
      let r = record_of now (entry_of y) in
      let first = if str_eq r.agent_id k then loaded t o r else o in
      let rest = loaded_all-Survives t now k x same ys first h in
      record {
        entry = rest.entry;
        among = inr rest.among;
        origin = rest.origin;
        advances = rest.advances;
      }

  restore-Survives :
      {n : Node} (now : TimePoint) (k : Bytes) (x : AgentRecord)
      → Inv R n
      → n.pending ≡ []
      → All (λ r. 1 ≤ r.revision) n.logged
      → find n.registry k ≡ some x
      → Survives R n.logged x (find (started now n.logged) k)
  unfolding set_upsert_callback find
  restore-Survives {n} now k x inv idle whole found =
      subst (Survives R n.logged x)
        (sym (find-restore now (map entry_of n.logged) k)
          ∙ ap (λ l. find (restore now (map entry_of l)) k) (sym (positive-All n.logged whole)))
        (loaded_all-Survives (now + one_year) now k x (lookup-has_id k n.registry.records x found)
          n.logged none covered)
    where
      covered : Covered R n.logged x
      covered =
          subst (λ l. Covered R l x) (ap (λ l. n.logged ++ l) idle ∙ append-nil n.logged)
            (All-find_if (Covered R (n.logged ++ n.pending)) (has_id k) n.registry.records x
              inv.covered found)

module _ (fresh : Allocator) (sodium : Option Sodium) (sized : (k : ℕ) → length (fresh k) ≡ k)
    (codec : Codec) where
  -- A node that was started any number of times, stops when no callback is pending, and whose log was written
  -- without a failure, starts again with an empty trust store, if the log's entries are saved and no logged
  -- revision is 0. The state is one of the node's next life, and every agent that it had is there, with a
  -- revision not below that of a logged record which the agent's record descends from: one of the same agent,
  -- node and endpoint, with a key and a signature of the same bytes.
  pub start_registry-Life :
      {n : Node} (now : TimePoint)
      → Life fresh sodium codec n
      → n.pending ≡ []
      → All (IsSaved codec) (map entry_of n.logged)
      → All (λ r. 1 ≤ r.revision) n.logged
      → (o : Node) × Life fresh sodium codec o
        × (start_registry codec now (log_of codec n.logged) ≡ some o.registry)
        × (o.identity ≡ new_identity_service)
        × ((k : Bytes) (x : AgentRecord)
            → find n.registry k ≡ some x
            → Survives Descends n.logged x (find o.registry k))
  start_registry-Life {n} now life idle saved whole =
      let read = start_registry-log_of codec now n.logged saved in
      (
        restarted (started now n.logged) n.logged,
        starts_again now n.logged life (Written-refl n.logged) saved read,
        read,
        refl,
        λ k x found.
            restore-Survives Descends Descends-IsOrigin now k x
              (Life-Inv fresh sodium sized codec life) idle whole found,
      )
