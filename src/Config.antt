-- ===== src/Config.antt =====
-- src/beacon/config.hpp and config.cpp: the settings of a node with their defaults.
-- A `std::chrono::milliseconds` is its number of milliseconds.
use beacon_node.Base.{ℕ, Bool, false}
use beacon_node.Base.Text.{Bytes, codes}

pub record NodeConfig : Type 0 where
  pub node_id : Bytes
  pub listen_host : Bytes
  pub listen_port : ℕ
  pub control_host : Bytes
  pub control_port : ℕ

pub record GossipConfig : Type 0 where
  pub interval : ℕ
  pub fanout : ℕ
  pub max_registry_items_per_round : ℕ

pub record LifecycleConfig : Type 0 where
  pub heartbeat_ttl : ℕ
  pub purge_interval : ℕ

pub record TrustConfig : Type 0 where
  pub malformed_threshold : ℕ
  pub rate_limit_per_minute : ℕ
  pub require_signatures : Bool

pub record BeaconConfig : Type 0 where
  pub node : NodeConfig
  pub gossip : GossipConfig
  pub lifecycle : LifecycleConfig
  pub trust : TrustConfig

abbrev pub default_config : BeaconConfig
default_config = record {
  node = record {
    node_id = codes "dev-node";
    listen_host = codes "0.0.0.0";
    listen_port = 43170;
    control_host = codes "127.0.0.1";
    control_port = 43171;
  };
  gossip = record { interval = 2000; fanout = 3; max_registry_items_per_round = 256 };
  lifecycle = record { heartbeat_ttl = 30000; purge_interval = 10000 };
  trust = record {
    malformed_threshold = 5;
    rate_limit_per_minute = 120;
    require_signatures = false;
  };
}
