-- ===== src/Socks5/Accept.antt =====
-- `passive_accept` of src/server/connection_helper.c and `socksv5_passive_accept` of
-- src/server/socks5/socks5.c: a new connection. The world has none before.
use tpe_protos.Common.{
  ℕ, false, List, [], ◌∷◌, ◌++◌, Option, none, some, ℤ, pos, negsuc, ltb, not, if◌then◌else◌, take,
  replicate,
}
use tpe_protos.Buffer.{Buffer, buffer_init}
use tpe_protos.Admin.Metrics.{metrics_inc_curr_conn, metrics_inc_total_conn}
use tpe_protos.Socks5.World.{
  Handler, socks5_handler, Socks5Conn, AcceptAnswer, accept_failed, accept_blocking, accepted, Act,
  pure, ◌>>=◌, ◌>>◌, deref, gets, modify, modify_conn,
}
use tpe_protos.Socks5.Calls.{
  op_read, set_system, malloc, close, update_metrics, unregister, register,
}
use tpe_protos.Socks5.Write.{socks5_stm_init}
use tpe_protos.Socks5.Copy.{is_success}

-- What `calloc` gives.
abbrev pub no_buffer : Buffer
no_buffer = record { mem = []; limit = 0; read = 0; write = 0 }

abbrev pub zero_conn : Socks5Conn
zero_conn = record {
  client_fd = pos 0;
  origin_fd = pos 0;
  stm = none;
  handshake_parser = none;
  auth_parser = none;
  conn_req_parser = none;
  in_buff = no_buffer;
  out_buff = no_buffer;
  src_address = [];
  src_port = 0;
  username = [];
  dst_address = [];
  dst_port = 0;
  a_type = 0;
  addr_info = [];
  is_error_response = false;
}

unfoldable pub accept : Act AcceptAnswer
accept = do
  sys ← gets (λ w. w.system)
  elim sys.accepts [
    | [] ↦ pure accept_failed
    | answer ∷ rest ↦ (do set_system (record sys { accepts = rest }); pure answer)
  ]

abbrev set_source : Option (List ℕ × ℕ) → Socks5Conn → Socks5Conn
set_source none c = c
set_source (some (address, port)) c = record c { src_address = address; src_port = port }

-- The descriptor of the client, or -1. `store` is what writes the address and the port into the data.
unfoldable pub passive_accept : Handler → (Option (List ℕ × ℕ) → Act (Unit {0})) → Act ℤ
passive_accept handler store = do
  answer ← accept
  elim answer [
    | accept_failed ↦ pure (negsuc 0)
    | accept_blocking fd ↦ (do close (pos fd); pure (negsuc 0))
    | accepted fd source ↦ (do
      status ← register (pos fd) handler op_read
      if is_success status
          then (do store source; pure (pos fd))
          else (do close (pos fd); pure (negsuc 0)))
  ]

-- The connection is refused: its descriptor is closed at once.
unfoldable pub reject : Act (Unit {0})
reject = do
  answer ← accept
  elim answer [
    | accept_failed ↦ pure tt
    | accept_blocking fd ↦ close (pos fd)
    | accepted fd source ↦ close (pos fd)
  ]

-- An array of `n` bytes, with what stands in the memory.
abbrev pub fresh : ℕ → List ℕ → List ℕ
fresh n bytes = take n (bytes ++ replicate n 0)

-- The rest of `socksv5_passive_accept`, once the client's descriptor is registered.
unfoldable pub set_up : ℤ → Act (Unit {0})
set_up fd = do
  modify_conn (λ c. record c { client_fd = fd })
  n ← gets (λ w. w.server_data.buffer_size)
  memory ← gets (λ w. w.system.memory)
  in_allocated ← malloc
  if not in_allocated then (do unregister fd; pure tt) else (do
    out_allocated ← malloc
    if not out_allocated then (do unregister fd; pure tt) else (do
      modify_conn (λ c. record c {
        in_buff = buffer_init n (fresh n memory.bytes);
        out_buff = buffer_init n (fresh n memory.bytes);
      })
      stm ← socks5_stm_init
      modify_conn (λ c. record c { stm = stm })
      elim stm [
        | none ↦ (do unregister fd; pure tt)
        | some m ↦ (do update_metrics metrics_inc_curr_conn; update_metrics metrics_inc_total_conn)
      ]))

unfoldable pub socksv5_passive_accept : Act (Unit {0})
socksv5_passive_accept = do
  d ← gets (λ w. w.server_data)
  m ← deref d.metrics
  if not (ltb m.current_connections d.max_conn) then reject else (do
    allocated ← malloc
    if not allocated then pure tt else (do
      modify (λ w. record w { conn = some zero_conn })
      fd ← passive_accept socks5_handler (λ source. modify_conn (set_source source))
      elim fd [ pos n ↦ set_up (pos n) | negsuc n ↦ modify (λ w. record w { conn = none }) ]))
