-- ===== src/Broker/Metrics.antt =====
-- broker/metrics.go. Each of the counters is an atomic int64; `now` is what time.Now returns.
use fin_kit.Prelude.{if◌then◌else◌, ◌==◌}
use fin_kit.Prelude.Int.{ℤ, pos, int_eq}
use fin_kit.Prelude.Int64.{add64}
use fin_kit.Core.{Time}
use fin_kit.Broker.Types.{zero_time, unix_nano}

pub record BrokerMetrics : Type 0 where
  pub update_count : ℤ
  pub snapshot_count : ℤ
  pub last_update_nanos : ℤ

abbrev pub new_metrics : BrokerMetrics
new_metrics = record { update_count = pos 0; snapshot_count = pos 0; last_update_nanos = pos 0 }

unfoldable pub last_update : BrokerMetrics → Time
last_update m = if m.last_update_nanos == pos 0 then zero_time else m.last_update_nanos

unfoldable pub record_update : Time → BrokerMetrics → BrokerMetrics
record_update now m = record m {
  update_count = add64 m.update_count (pos 1);
  last_update_nanos = unix_nano now;
}

unfoldable pub record_snapshot : BrokerMetrics → BrokerMetrics
record_snapshot m = record m { snapshot_count = add64 m.snapshot_count (pos 1) }
