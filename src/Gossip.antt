-- ===== src/Gossip.antt =====
-- src/beacon/gossip_scheduler.cpp, and of src/beacon_net/gossip_service.cpp the list of peers and the
-- choice of the peers of a round. `std::shuffle` is a parameter that returns a rearrangement.
pub mod Rounds
pub mod Selection
pub mod Service
pub mod Timer
pub mod Thread
use mathlib.Core.List.{Perm}
use beacon_node.Base.{
  ℕ, zero, suc, ◌+◌, List, [], ◌∷◌, ◌++◌, Bool, true, false, ◌&&◌, Option, none, some, ltb, ◌==◌,
  if◌then◌else◌, length, take, min, ◌≡◌,
}
use beacon_node.Base.Text.{Bytes, str_eq}
use beacon_node.Config.{GossipConfig}
use beacon_node.Types.{AgentRecord}
use beacon_node.Sorting.{Sorter}

-- The comparator of `GossipScheduler::select_push_entries`.
abbrev pub newer_first : AgentRecord → AgentRecord → Bool
newer_first left right = ltb right.revision left.revision

unfoldable pub select_push_entries : Sorter → GossipConfig → List AgentRecord → List AgentRecord
select_push_entries s config registry =
    let selected = Sorter.sort s newer_first registry in
    if ltb config.max_registry_items_per_round (length selected)
    then take config.max_registry_items_per_round selected
    else selected

pub record GossipPeer : Type 0 where
  pub node_id : Bytes
  pub host : Bytes
  pub listen_port : ℕ
  pub control_port : ℕ

abbrev pub same_address : GossipPeer → GossipPeer → Bool
same_address existing peer =
    str_eq existing.host peer.host && existing.control_port == peer.control_port

unfoldable pub has_peer : List GossipPeer → GossipPeer → Bool
has_peer [] peer = false
has_peer (existing ∷ peers) peer = if same_address existing peer then true else has_peer peers peer

-- `GossipService::add_peer`, on the vector `peers_`
unfoldable pub add_peer : List GossipPeer → GossipPeer → List GossipPeer
unfolding has_peer
add_peer peers peer = if has_peer peers peer then peers else peers ++ peer ∷ []

-- `std::shuffle` of the indices
pub record Shuffler : Type 0 where
  pub shuffle : List ℕ → List ℕ
  pub shuffle-perm : (xs : List ℕ) → Perm (shuffle xs) xs

-- `for (i = 0; i < count; ++i) indices[i] = i`, from `i` on
unfoldable pub indices_from : ℕ → ℕ → List ℕ
indices_from i zero = []
indices_from i (suc count) = i ∷ indices_from (i + 1) count

unfoldable pub pick_random_indices : Shuffler → ℕ → ℕ → List ℕ
unfolding indices_from
pick_random_indices s count fanout =
    if count == 0 then [] else take (min fanout count) (Shuffler.shuffle s (indices_from 0 count))

abbrev pub gossip_fanout : ℕ
gossip_fanout = 3
