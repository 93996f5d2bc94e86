-- ===== src/Tests/Admin.antt =====
-- Counters, settings and the register of accesses.
use tpe_protos.Common.{
  ◌+◌, ◌≡◌, refl, List, [], ◌∷◌, some, true, pos, negsuc, replicate, length-replicate, arith,
}
use tpe_protos.Admin.AccessRegister.{Access, access_register_init}
use tpe_protos.Admin.AccessRegister.History.{
  blank, held, add_all, last_hundred, logged, access_register_add_entry_lem,
}
use tpe_protos.Admin.Metrics.{ServerMetrics, metrics_init}
use tpe_protos.Admin.Metrics.Counts.{
  Event, accepted, ended, moved, failed, record_all, accepts, ends, excess, current_connections_lem,
}
use tpe_protos.Admin.ServerData.{ServerData, Allocations, server_data_init}
use tpe_protos.Admin.ServerData.Settings.{
  Command, buffer_size_to, max_conn_to, obey_all, IsValid, last_of, sizes, limits, settings_lem,
}

abbrev zeros : ServerMetrics
zeros = record { total_connections = 0; current_connections = 0; bytes_transferred = 0; errors = 0 }

abbrev events : List Event
events = ended ∷ accepted ∷ moved 10 ∷ accepted ∷ failed ∷ ended ∷ moved 5 ∷ []

current_connections_lem_example : (record_all events zeros).current_connections + 2 ≡ 2 + 1
unfolding metrics_init accepts ends excess
current_connections_lem_example = current_connections_lem events zeros refl (ground arith)

abbrev allocations : Allocations
allocations = record {
  data_allocated = true;
  metrics_allocated = true;
  register_allocated = true;
  storage = replicate 100 blank;
}

abbrev started : ServerData
started = record {
  metrics = some zeros;
  access_register = some (record { entries = replicate 100 blank; head = 0; tail = 0; count = 0 });
  buffer_size = 131072;
  max_conn = 500;
}

-- 100 is too small a buffer, and -1 no number of connections.
abbrev commands : List Command
commands =
    buffer_size_to (pos 100)
    ∷ max_conn_to (pos 7)
    ∷ buffer_size_to (pos 4096)
    ∷ max_conn_to (negsuc 0)
    ∷ []

settings_lem_example :
    IsValid (obey_all commands started)
    × ((obey_all commands started).buffer_size ≡ 4096)
    × ((obey_all commands started).max_conn ≡ 7)
unfolding server_data_init metrics_init access_register_init last_of sizes limits
settings_lem_example = settings_lem allocations commands started refl

abbrev access : Access
access = record {
  username = b'a' ∷ [];
  src_ip = [];
  src_port = 1;
  destination = [];
  dest_port = 80;
  status_code = 0;
}

access_register_add_entry_lem_example :
    held
      (add_all (access_register_init true (replicate 100 blank)) ((access, []) ∷ (access, []) ∷ []))
    ≡ some (last_hundred (logged ((access, []) ∷ (access, []) ∷ [])))
access_register_add_entry_lem_example =
    access_register_add_entry_lem (replicate 100 blank) ((access, []) ∷ (access, []) ∷ [])
      (length-replicate 100 blank)
