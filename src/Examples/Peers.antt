-- ===== src/Examples/Peers.antt =====
-- Peers and their reputation.
use mathlib.Core.List.Perm
use beacon_node.Base.{ℕ, ◌≡◌, false, arith}
use beacon_node.Base.Text.{codes}
use beacon_node.Config.{default_config}
use beacon_node.Reputation.{new_engine, accepts_peer}
use beacon_node.Reputation.Threshold.{record_times, accepts_peer-record_times}
use beacon_node.Gossip.{GossipPeer, Shuffler}

accepts_peer-record_times_example :
    accepts_peer (record_times 5 (new_engine default_config.trust) (codes "p")) (codes "p") ≡ false
accepts_peer-record_times_example =
    accepts_peer-record_times 5 default_config.trust (codes "p") (omega arith) (omega arith)

abbrev pub peer : ℕ → GossipPeer
peer port = record { node_id = codes "n"; host = codes "h"; listen_port = 1; control_port = port }

abbrev pub unshuffled : Shuffler
unshuffled = record { shuffle = λ xs. xs; shuffle-perm = λ xs. Perm.refl xs }
