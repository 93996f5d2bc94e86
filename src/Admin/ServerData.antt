-- ===== src/Admin/ServerData.antt =====
-- src/server/server_data.c and server_data.h: the settings that an administrator changes while the
-- server runs, with its counters and its register.
pub mod Settings
use tpe_protos.Common.{ℕ, Bool, Option, none, some, ℤ, pos, negsuc, List, ltb, if◌then◌else◌}
use tpe_protos.Admin.AccessRegister.{AccessEntry, AccessRegister, access_register_init}
use tpe_protos.Admin.Metrics.{ServerMetrics, metrics_init}

abbrev pub buff_default_len : ℕ
buff_default_len = 131072

abbrev pub buff_min_len : ℕ
buff_min_len = 256

abbrev pub max_conn_default : ℕ
max_conn_default = 500

-- `server_data_t`; a null pointer is `none`.
pub record ServerData : Type 0 where
  pub metrics : Option ServerMetrics
  pub access_register : Option AccessRegister
  pub buffer_size : ℕ
  pub max_conn : ℕ

-- What the three calls of `malloc` give: whether each succeeds, and the array of the register.
pub record Allocations : Type 0 where
  pub data_allocated : Bool
  pub metrics_allocated : Bool
  pub register_allocated : Bool
  pub storage : List AccessEntry

-- `none`: the process exits.
unfoldable pub server_data_init : Allocations → Option ServerData
server_data_init a =
    if a.data_allocated
    then some (record {
      metrics = metrics_init a.metrics_allocated;
      access_register = access_register_init a.register_allocated a.storage;
      buffer_size = buff_default_len;
      max_conn = max_conn_default;
    })
    else none

-- The `int` that a setter returns, with the settings behind it. A negative size is below the minimum.
unfoldable pub set_buffer_size : ServerData → ℤ → ℤ × ServerData
set_buffer_size d (negsuc n) = (negsuc 0, d)
set_buffer_size d (pos size) =
    if ltb size buff_min_len then (negsuc 0, d) else (pos 0, record d { buffer_size = size })

unfoldable pub set_max_conn : ServerData → ℤ → ℤ × ServerData
set_max_conn d (negsuc n) = (negsuc 0, d)
set_max_conn d (pos max_conn) =
    if ltb max_conn 1 then (negsuc 0, d) else (pos 0, record d { max_conn = max_conn })
