-- ===== src/Config.antt =====
-- src/config.rs: the options of a node and their defaults.
use s2c_rs.Base.{ℕ, ◌*◌, Bool, true, false, Option, some, none}

pub record S2cRetryOptions : Type 0 where
  pub max_delay_seconds : ℕ  -- u64
  pub base_delay_ms : ℕ  -- u64
  pub max_attempts : Option ℕ  -- u32

pub record S2cNetworkOptions : Type 0 where
  pub connect_timeout_ms : ℕ
  pub throttle_delay_ms : ℕ
  pub handshake_timeout_ms : ℕ
  pub max_pending_reqs_per_client : ℕ
  pub max_pending_resps_per_client : ℕ
  pub max_pending_server_responses : ℕ

pub record S2cExactlyOnceOptions : Type 0 where
  pub out_of_seq_buffer_size : ℕ
  pub out_of_seq_buffer_gc_delay_sec : ℕ
  pub enabled : Bool

pub record S2cOptions : Type 0 where
  pub max_message_size : ℕ
  pub snapshotting_threshold : ℕ
  pub flush_interval_ms : ℕ
  pub batch_min_count : ℕ
  pub request_timeout_ms : ℕ
  pub leader_heartbeat_timeout_ms : ℕ
  pub max_missed_heartbeats : ℕ
  pub max_concurrent_state_requests_handling : ℕ
  pub leadership_delay_ms : ℕ
  pub log_lru_cache_size : ℕ
  pub max_batches_pending_for_apply : ℕ
  pub max_deduplicated_clients : ℕ
  pub read_index : Bool
  pub log_node_identity : Bool
  pub network : S2cNetworkOptions
  pub retry : S2cRetryOptions
  pub exactly_once : S2cExactlyOnceOptions

-- `S2cRetryOptions::to_unlimited`.
unfoldable pub to_unlimited : S2cRetryOptions → S2cRetryOptions
to_unlimited o = record {
  max_delay_seconds = o.max_delay_seconds;
  base_delay_ms = o.base_delay_ms;
  max_attempts = none;
}

abbrev pub default_retry : S2cRetryOptions
default_retry = record { max_delay_seconds = 5; base_delay_ms = 300; max_attempts = some 3 }

abbrev pub default_network : S2cNetworkOptions
default_network = record {
  connect_timeout_ms = 10_000;
  throttle_delay_ms = 10_000;
  handshake_timeout_ms = 10_000;
  max_pending_reqs_per_client = 1_000;
  max_pending_resps_per_client = 1_000;
  max_pending_server_responses = 1_000;
}

abbrev pub default_exactly_once : S2cExactlyOnceOptions
default_exactly_once = record {
  out_of_seq_buffer_size = 1_000;
  out_of_seq_buffer_gc_delay_sec = 30;
  enabled = true;
}

abbrev pub default_options : S2cOptions
default_options = record {
  max_message_size = 500 * 1024;
  snapshotting_threshold = 100;
  flush_interval_ms = 2_000;
  batch_min_count = 100;
  request_timeout_ms = 10_000;
  leader_heartbeat_timeout_ms = 5_000;
  max_missed_heartbeats = 10;
  max_concurrent_state_requests_handling = 100;
  leadership_delay_ms = 3_000;
  log_lru_cache_size = 1_000;
  max_batches_pending_for_apply = 1_000;
  max_deduplicated_clients = 1_000;
  read_index = true;
  log_node_identity = false;
  network = default_network;
  retry = default_retry;
  exactly_once = default_exactly_once;
}
