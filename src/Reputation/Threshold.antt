-- ===== src/Reputation/Threshold.antt =====
-- The counts of src/beacon/reputation.cpp and the threshold.
use beacon_node.Base.{
  ℕ, zero, suc, ◌+◌, ◌%◌, ◌^◌, ◌<◌, List, [], ◌∷◌, true, ◌≡◌, ◌≢◌, refl, Option, none, some, ltb,
  if◌then◌else◌, arith,
}
use beacon_node.Base.Text.{Bytes, str_eq, str_eq_iff, str_eq_self}
use beacon_node.Config.{TrustConfig}
use beacon_node.Reputation.{
  ReputationEngine, find_count, increment, record_malformed, accepts_peer, new_engine,
}

abbrev pub counted : Option ℕ → ℕ
counted none = 0
counted (some n) = n

find_count-increment :
    (k j : Bytes) (m : List (Bytes × ℕ))
    → find_count j (increment k m)
      ≡ (if str_eq k j then some ((counted (find_count k m) + 1) % 2 ^ 32) else find_count j m)
unfolding find_count increment
find_count-increment k j [] = ground arith
find_count-increment k j ((i, n) ∷ m) =
    ground (arith, find_count-increment k j m, str_eq_iff i k, str_eq_iff i j, str_eq_iff k j)

-- `n` malformed messages of one peer.
unfoldable pub record_times : ℕ → ReputationEngine → Bytes → ReputationEngine
record_times zero e peer = e
record_times (suc n) e peer = record_malformed (record_times n e peer) peer

config-record_times :
    (n : ℕ) (e : ReputationEngine) (peer : Bytes) → (record_times n e peer).config ≡ e.config
unfolding record_times record_malformed
config-record_times zero e peer = refl
config-record_times (suc n) e peer = config-record_times n e peer

count-record_times :
    (n : ℕ) (config : TrustConfig) (peer : Bytes)
    → n < 2 ^ 32
    → counted (find_count peer (record_times n (new_engine config) peer).malformed_counts) ≡ n
unfolding record_times record_malformed find_count
count-record_times zero config peer h = refl
count-record_times (suc n) config peer h = ground (
  arith,
  count-record_times n config peer,
  find_count-increment peer peer (record_times n (new_engine config) peer).malformed_counts,
  str_eq_self peer,
)

counted_test :
    (o : Option ℕ) (t : ℕ) → 0 < t → (elim o [ none ↦ true | some n ↦ ltb n t ]) ≡ ltb (counted o) t
counted_test o t h = ground arith

-- After `n` malformed messages of a peer, fewer than 2 ^ 32, a new engine with a positive threshold
-- accepts the peer exactly if `n` is below the threshold.
pub accepts_peer-record_times :
    (n : ℕ) (config : TrustConfig) (peer : Bytes)
    → n < 2 ^ 32
    → 0 < config.malformed_threshold
    → accepts_peer (record_times n (new_engine config) peer) peer ≡ ltb n config.malformed_threshold
unfolding accepts_peer
accepts_peer-record_times n config peer h pos = ground (
  arith,
  count-record_times n config peer h,
  config-record_times n (new_engine config) peer,
  counted_test (find_count peer (record_times n (new_engine config) peer).malformed_counts)
      config.malformed_threshold pos,
)

-- The messages of one peer do not count against another.
pub accepts_peer-record_malformed_ne :
    (e : ReputationEngine) (peer other : Bytes)
    → peer ≢ other
    → accepts_peer (record_malformed e peer) other ≡ accepts_peer e other
unfolding accepts_peer record_malformed
accepts_peer-record_malformed_ne e peer other ne =
    ground (arith, find_count-increment peer other e.malformed_counts, str_eq_iff peer other)
