-- ===== src/Reputation.antt =====
-- src/beacon/reputation.hpp and reputation.cpp: the malformed messages counted for each peer.
-- The map is an association list; the program never iterates over it. A count is a `std::uint32_t`
-- and wraps around.
pub mod Threshold
use beacon_node.Base.{
  ℕ, zero, suc, ◌+◌, ◌%◌, ◌^◌, List, [], ◌∷◌, Bool, true, Option, none, some, ltb, if◌then◌else◌,
}
use beacon_node.Base.Text.{Bytes, str_eq}
use beacon_node.Config.{TrustConfig}

pub record ReputationEngine : Type 0 where
  pub config : TrustConfig
  pub malformed_counts : List (Bytes × ℕ)

abbrev pub new_engine : TrustConfig → ReputationEngine
new_engine config = record { config = config; malformed_counts = [] }

unfoldable pub find_count : Bytes → List (Bytes × ℕ) → Option ℕ
find_count k [] = none
find_count k ((j, n) ∷ m) = if str_eq j k then some n else find_count k m

-- `malformed_counts_[peer_id] += 1`, where a new entry starts at 0
unfoldable pub increment : Bytes → List (Bytes × ℕ) → List (Bytes × ℕ)
increment k [] = (k, 1) ∷ []
increment k ((j, n) ∷ m) = if str_eq j k then (j, (n + 1) % 2 ^ 32) ∷ m else (j, n) ∷ increment k m

unfoldable pub record_malformed : ReputationEngine → Bytes → ReputationEngine
unfolding increment
record_malformed e peer_id = record e { malformed_counts = increment peer_id e.malformed_counts }

unfoldable pub accepts_peer : ReputationEngine → Bytes → Bool
accepts_peer e peer_id = elim (find_count peer_id e.malformed_counts) [
  | none ↦ true
  | some count ↦ ltb count e.config.malformed_threshold
]
