-- ===== src/Socks5/Calls.antt =====
-- What the handlers of a connection call: the system, the selector, the counters, and
-- `socksv5_close` of src/server/socks5/socks5.c and `admin_close` of src/server/s5admin/s5admin.c, which
-- the selector calls back.
use tpe_protos.Common.{
  ℕ, Bool, true, false, ◌&&◌, List, [], ◌∷◌, ◌++◌, Option, none, some, ℤ, pos, negsuc, ltb, take,
  length,
}
use tpe_protos.Stm.{Run, returns, and_then}
use tpe_protos.Buffer.{Buffer, copy_to}
use tpe_protos.Selector.{
  SelectorStatus, FdSelector, items_max_size, selector_set_interest, selector_register,
  selector_unregister_fd,
}
use tpe_protos.Admin.AccessRegister.{Access, access_register_add_entry}
use tpe_protos.Admin.Metrics.{ServerMetrics, metrics_dec_curr_conn}
use tpe_protos.Socks5.World.{
  Handler, socks5_handler, connecting_handler, copy_selector_handler, admin_handler, Socks5Conn,
  RecvAnswer, received, recv_again, recv_failed, SendAnswer, taken, send_again, send_failed, System,
  State, Act, pure, ◌>>=◌, ◌>>◌, deref, gets, modify, get_conn, when,
}

abbrev pub op_noop : ℕ
op_noop = 0

abbrev pub op_read : ℕ
op_read = 1

abbrev pub op_write : ℕ
op_write = 4

-- `fd > 0`
abbrev pub is_positive : ℤ → Bool
is_positive (pos n) = ltb 0 n
is_positive (negsuc n) = false

abbrev pub set_system : System → Act (Unit {0})
set_system sys = modify (λ w. record w { system = sys })

-- Does `malloc` (or `calloc`) succeed?
unfoldable pub malloc : Act Bool
malloc = do
  sys ← gets (λ w. w.system)
  elim sys.allocations [
    | [] ↦ pure false
    | b ∷ bs ↦ (do set_system (record sys { allocations = bs }); pure b)
  ]

-- At most `n` bytes.
unfoldable pub recv : ℕ → Act RecvAnswer
recv n = do
  sys ← gets (λ w. w.system)
  elim sys.recvs [
    | [] ↦ pure recv_again
    | received bytes ∷ rest ↦ (do
      set_system (record sys { recvs = rest })
      pure (received (take n bytes)))
    | recv_again ∷ rest ↦ (do set_system (record sys { recvs = rest }); pure recv_again)
    | recv_failed ∷ rest ↦ (do set_system (record sys { recvs = rest }); pure recv_failed)
  ]

-- The bytes that the socket takes are a prefix of those offered.
unfoldable pub send : ℤ → List ℕ → Act SendAnswer
send fd bytes = do
  sys ← gets (λ w. w.system)
  elim sys.sends [
    | [] ↦ pure send_again
    | taken n ∷ rest ↦ (do
      set_system (record sys { sends = rest })
      modify (λ w. record w { sent = w.sent ++ (fd, take n bytes) ∷ [] })
      pure (taken (length (take n bytes))))
    | send_again ∷ rest ↦ (do set_system (record sys { sends = rest }); pure send_again)
    | send_failed ∷ rest ↦ (do set_system (record sys { sends = rest }); pure send_failed)
  ]

unfoldable pub close : ℤ → Act (Unit {0})
close fd = modify (λ w. record w { closed = w.closed ++ fd ∷ [] })

unfoldable pub update_metrics : (ServerMetrics → ServerMetrics) → Act (Unit {0})
update_metrics f = do
  d ← gets (λ w. w.server_data)
  m ← deref d.metrics
  modify (λ w. record w { server_data = record d { metrics = some (f m) } })

-- `access_register_add_entry` with the data of the connection.
unfoldable pub add_access : Socks5Conn → ℕ → Act (Unit {0})
add_access c status = modify (λ w.
    let access : Access = record {
      username = c.username;
      src_ip = c.src_address;
      src_port = c.src_port;
      destination = c.dst_address;
      dest_port = c.dst_port;
      status_code = status;
    } in
    record w {
      server_data = record (w.server_data) {
        access_register =
            access_register_add_entry w.server_data.access_register access w.system.now;
      };
    })

-- The three parsers, the machine and the arrays go with the connection.
unfoldable pub socksv5_close : Act (Unit {0})
socksv5_close = do
  c ← get_conn
  when (is_positive c.client_fd) (close c.client_fd)
  when (is_positive c.origin_fd) (close c.origin_fd)
  update_metrics metrics_dec_curr_conn
  modify (λ w. record w { conn = none })

unfoldable pub admin_close : Act (Unit {0})
admin_close = do
  a ← gets (λ w. w.admin)
  c ← deref a
  close c.fd
  modify (λ w. record w { admin = none })

-- The functions `handle_close` of the tables: two have none.
unfoldable pub handle_close : Handler → ℕ → Option (Unit {0}) → State → Run State
handle_close socks5_handler fd user_data s = and_then (socksv5_close s) (λ r. returns r.1)
handle_close connecting_handler fd user_data s = returns s
handle_close copy_selector_handler fd user_data s = returns s
handle_close admin_handler fd user_data s = and_then (admin_close s) (λ r. returns r.1)

unfoldable pub unregister : ℤ → Act SelectorStatus
unregister fd = selector_unregister_fd handle_close fd

unfoldable pub set_interest : ℤ → ℕ → Act SelectorStatus
set_interest fd interest s =
    and_then (selector_set_interest fd interest s.0) (λ r. returns (r.0, (r.1, s.1)))

-- Does a registration ask for memory? Only where the table has to grow: `realloc` is then called, since the
-- new capacity is far below the greatest size.
abbrev grows : ℤ → FdSelector Handler (Unit {0}) → Bool
grows (negsuc n) sel = false
grows (pos n) sel = ltb n items_max_size && ltb sel.fd_size n

abbrev ask : Bool → Act Bool
ask false = pure true
ask true = malloc

-- With the connection as the data.
unfoldable pub register : ℤ → Handler → ℕ → Act SelectorStatus
register fd handler interest = do
  needed ← (λ s. returns (grows fd s.0, s))
  allocated ← ask needed
  memory ← gets (λ w. w.system.memory.items)
  λ s.
      and_then (selector_register allocated memory fd (some handler) interest (some tt) s.0)
        (λ r. returns (r.0, (r.1, s.1)))

-- The bytes that a `recv` leaves behind the write pointer.
abbrev pub fill : Buffer → List ℕ → Buffer
fill b bytes = record b { mem = copy_to b.mem b.write bytes }
