-- ===== src/Admin/Metrics.antt =====
-- src/server/s5admin/metrics.c and metrics.h: the counters of the server. Their text is in Admin.Print.
pub mod Counts
use tpe_protos.Common.{ℕ, ◌+◌, ◌-◌, ◌%◌, ◌^◌, Bool, Option, none, some, ltb, if◌then◌else◌}

-- `server_metrics_t`, four fields of type `uint64_t`.
pub record ServerMetrics : Type 0 where
  pub total_connections : ℕ
  pub current_connections : ℕ
  pub bytes_transferred : ℕ
  pub errors : ℕ

unfoldable pub metrics_init : Bool → Option ServerMetrics
metrics_init allocated =
    if allocated
    then some (record {
      total_connections = 0;
      current_connections = 0;
      bytes_transferred = 0;
      errors = 0;
    })
    else none

unfoldable pub metrics_inc_total_conn : ServerMetrics → ServerMetrics
metrics_inc_total_conn m = record m { total_connections = (m.total_connections + 1) % 2 ^ 64 }

unfoldable pub metrics_inc_curr_conn : ServerMetrics → ServerMetrics
metrics_inc_curr_conn m = record m { current_connections = (m.current_connections + 1) % 2 ^ 64 }

unfoldable pub metrics_dec_curr_conn : ServerMetrics → ServerMetrics
metrics_dec_curr_conn m =
    if ltb 0 m.current_connections
    then record m { current_connections = m.current_connections - 1 }
    else m

unfoldable pub metrics_add_bytes : ServerMetrics → ℕ → ServerMetrics
metrics_add_bytes m bytes = record m { bytes_transferred = (m.bytes_transferred + bytes) % 2 ^ 64 }

unfoldable pub metrics_inc_errors : ServerMetrics → ServerMetrics
metrics_inc_errors m = record m { errors = (m.errors + 1) % 2 ^ 64 }
