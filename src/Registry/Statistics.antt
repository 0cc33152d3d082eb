-- ===== src/Registry/Statistics.antt =====
-- What `stats` reports: the number of records, and the highest revision among them.
use beacon_node.Base.{ℕ, List, [], ◌∷◌, ◌≡◌, ◌≤◌, ◌⊎◌, inl, max, arith, All, length, refl}
use beacon_node.Types.{AgentRecord}
use beacon_node.Registry.{AgentRegistry, highest_revision, stats}

-- Some record has the revision `n`.
abbrev pub HasRevision : ℕ → List AgentRecord → Type 0
HasRevision n [] = ⊥
HasRevision n (r ∷ rs) = (r.revision ≡ n) ⊎ HasRevision n rs

highest_revision-ge : (acc : ℕ) (rs : List AgentRecord) → acc ≤ highest_revision acc rs
unfolding highest_revision
highest_revision-ge acc [] = omega arith
highest_revision-ge acc (r ∷ rs) = omega (arith, highest_revision-ge (max acc r.revision) rs)

highest_revision_bound :
    (acc : ℕ) (rs : List AgentRecord) → All (λ r. r.revision ≤ highest_revision acc rs) rs
unfolding highest_revision
highest_revision_bound acc [] = tt
highest_revision_bound acc (r ∷ rs) = (
  omega (arith, highest_revision-ge (max acc r.revision) rs),
  highest_revision_bound (max acc r.revision) rs,
)

highest_revision_reached :
    (acc : ℕ) (rs : List AgentRecord)
    → (highest_revision acc rs ≡ acc) ⊎ HasRevision (highest_revision acc rs) rs
unfolding highest_revision
highest_revision_reached acc [] = inl refl
highest_revision_reached acc (r ∷ rs) =
    ground (arith, highest_revision_reached (max acc r.revision) rs)

-- `stats` counts the records, and its highest revision bounds every record's revision; it is 0 or the
-- revision of some record.
pub stats_lem :
    (g : AgentRegistry)
    → ((stats g).active_agents ≡ length g.records)
      × All (λ r. r.revision ≤ (stats g).highest_revision) g.records
      × (((stats g).highest_revision ≡ 0) ⊎ HasRevision (stats g).highest_revision g.records)
unfolding stats
stats_lem g = (refl, highest_revision_bound 0 g.records, highest_revision_reached 0 g.records)
