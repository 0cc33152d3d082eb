-- ===== src/Sync/Batch.antt =====
-- The batch of records with which a node answers SYNC_PULL, as the node that asks receives it.
use mathlib.Core.List.Perm
use mathlib.Core.List.{Perm, Permᴰ}
use mathlib.Core.Logic.{∥∥₁_elim}
use beacon_node.Base.{
  ℕ, ◌≤◌, ◌<◌, ◌≡◌, List, refl, ◌∙◌, sym, subst, arith, All, All-permᴰ, All-filter_of, All-find_if,
  Option, none, some, false, not, ◌&&◌, is_empty, length, filter, length-filter, length-perm,
}
use beacon_node.Base.Text.{Bytes, str_eq}
use beacon_node.Types.{AgentRecord, TimePoint}
use beacon_node.Crypto.{Sodium, verify_agent_signature, canonical_agent_payload}
use beacon_node.SecureBuffer.{Allocator}
use beacon_node.Identity.{IdentityService}
use beacon_node.Registry.{
  AgentRegistry, has_id, find, stats, refuses, is_after, older_first, cap_selected,
  entries_after_revision,
}
use beacon_node.Registry.Lookup.{lookup, keep_if}
use beacon_node.Registry.Distinct.{Distinct, IsValid, lookup-filter, Distinct-filter}
use beacon_node.Registry.Rearranged.{lookup-perm, Distinct-perm}
use beacon_node.Registry.Statistics.{stats_lem}
use beacon_node.Sorting.{Sorter}
use beacon_node.Sorting.Prefix.{older_first-IsStrictWeak}
use beacon_node.Merge.Pulled.{Passes, Accepts}
use beacon_node.Control.Fields.{FitsLine}
use beacon_node.Sync.Replies.{received}

module _ (s : Sorter) (g : AgentRegistry) (revision limit : ℕ) where
  picked : List AgentRecord
  picked = filter (is_after revision) g.records

  -- Below the limit nothing is cut off.
  entries_all :
      length g.records ≤ limit
      → entries_after_revision s g revision limit ≡ Sorter.sort s older_first picked
  unfolding entries_after_revision cap_selected picked
  entries_all h = ground (
    arith,
    length-perm
        (s.sort-perm older_first (filter (is_after revision) g.records) older_first-IsStrictWeak),
    length-filter (is_after revision) g.records,
    h,
  )

  sorted-perm : Perm picked (Sorter.sort s older_first picked)
  sorted-perm = Perm.symm (s.sort-perm older_first picked older_first-IsStrictWeak)

-- The batch that a node of the registry `q` answers with holds the records after the revision.
pub record IsBatch (q : AgentRegistry) (revision : ℕ) (batch : List AgentRecord) : Type 0 where
  pub fits : All FitsLine batch
  pub distinct : Distinct batch
  pub answers : (k : Bytes) → lookup k batch ≡ keep_if (is_after revision) (find q k)

module _ (q : AgentRegistry) (revision : ℕ) (valid : IsValid q) (fit : All FitsLine q.records) where
  IsBatch-permᴰ :
      (batch : List AgentRecord)
      → Permᴰ (filter (is_after revision) q.records) batch
      → IsBatch q revision batch
  unfolding find
  IsBatch-permᴰ batch p =
      let after = filter (is_after revision) q.records in
      let d = Distinct-filter (is_after revision) q.records valid.distinct in
      record {
        fits = All-permᴰ FitsLine p (All-filter_of FitsLine (is_after revision) q.records fit);
        distinct = Distinct-perm ∣ p ∣₁ d;
        answers = λ k.
            sym (lookup-perm k ∣ p ∣₁ d)
            ∙ lookup-filter k (is_after revision) q.records valid.distinct;
      }

  -- The selection is such a batch, if a proposition is to follow.
  pub with_batch :
      (s : Sorter) (limit : ℕ) (G : Type 0)
      → length q.records ≤ limit
      → IsProp G
      → (IsBatch q revision (entries_after_revision s q revision limit) → G)
      → G
  unfolding picked
  with_batch s limit G le prop h = ∥∥₁_elim (sorted-perm s q revision limit) prop (λ p.
      h (subst (IsBatch q revision) (sym (entries_all s q revision limit le)) (IsBatch-permᴰ _ p)))

-- The stored record, if there is one, has no public key, or the record has none, or they agree.
abbrev pub SameKey : Option AgentRecord → AgentRecord → Type 0
SameKey none r = Unit
SameKey (some e) r =
    (not (is_empty e.public_key_hex)
      && (not (is_empty r.public_key_hex) && not (str_eq e.public_key_hex r.public_key_hex)))
    ≡ false

pub Accepts-newer :
    (t : TimePoint) (g : AgentRegistry) (k : Bytes) (x : AgentRecord)
    → (stats g).highest_revision < x.revision
    → SameKey (find g k) x
    → Accepts (find g k) (record x { expires_at = t })
Accepts-newer t g k x newer same = by_found (find g k) refl same
  where
    by_found :
        (found : Option AgentRecord)
        → find g k ≡ found
        → SameKey found x
        → Accepts found (record x { expires_at = t })
    by_found none e same = tt
    by_found (some y) e same =
        let le : y.revision ≤ (stats g).highest_revision =
          unfold find in
          All-find_if (λ r. r.revision ≤ (stats g).highest_revision) (has_id k) g.records y
            (stats_lem g).1 e in
        unfold refuses in ground (arith, le, newer, same)

pub Passes-received :
    (fresh : Allocator) (sodium : Option Sodium) (identity : Option IdentityService)
    (now : TimePoint) (x : AgentRecord)
    → Passes fresh sodium identity x
    → Passes fresh sodium identity (received now x)
unfolding verify_agent_signature canonical_agent_payload
Passes-received fresh sodium none now x h = tt
Passes-received fresh sodium (some s) now x h = h
