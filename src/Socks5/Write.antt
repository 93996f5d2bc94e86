-- ===== src/Socks5/Write.antt =====
-- src/server/socks5/socks5_stm.c, the hooks of states_handlers/*.c that arrive, leave and write, and
-- `socksv5_write` of socks5.c.
use tpe_protos.Common.{
  ℕ, zero, suc, Bool, false, not, ◌&&◌, ◌||◌, List, [], ◌∷◌, Option, none, some, ℤ, pos, ◌==◌,
  if◌then◌else◌, take, drop,
}
use tpe_protos.Buffer.{
  buffer_can_read, buffer_can_write, buffer_read_ptr, buffer_read_adv, buffer_compact,
}
use tpe_protos.Admin.Metrics.{metrics_add_bytes, metrics_inc_errors}
use tpe_protos.Parsers.Handshake.{handshake_parser_init}
use tpe_protos.Parsers.Auth.{auth_parser_init}
use tpe_protos.Parsers.ConnReq.{conn_req_parser_init}
use tpe_protos.Socks5.World.{
  copy_selector_handler, Socks5Stm, taken, send_again, send_failed, Act, pure, ◌>>=◌, ◌>>◌, deref,
  checked, gets, get_conn, put_conn, modify_conn, when,
}
use tpe_protos.Socks5.Calls.{
  op_noop, op_read, op_write, is_positive, malloc, send, update_metrics, unregister, set_interest,
  register,
}
use tpe_protos.Socks5.Machine.{StateHooks, current_state, stm_handler_write}

-- `socks5_state`
abbrev pub socks5_handshake : ℕ
socks5_handshake = 0

abbrev pub socks5_auth : ℕ
socks5_auth = 1

abbrev pub socks5_connection_req : ℕ
socks5_connection_req = 2

abbrev pub socks5_connecting : ℕ
socks5_connecting = 3

abbrev pub socks5_copy : ℕ
socks5_copy = 4

abbrev pub socks5_done : ℕ
socks5_done = 5

abbrev pub socks5_error : ℕ
socks5_error = 6

-- The allocation of a parser and of its engine.
unfoldable pub malloc_parser : Act (Bool × Bool)
malloc_parser = do
  allocated ← malloc
  engine_allocated ← (if allocated then malloc else pure false)
  pure (allocated, engine_allocated)

unfoldable pub handshake_on_arrival : Act (Unit {0})
handshake_on_arrival = do
  a ← malloc_parser
  memory ← gets (λ w. w.system.memory)
  modify_conn (λ c. record c { handshake_parser = handshake_parser_init a.0 a.1 memory.stray })

-- A parser is closed through its pointer, which must not be null.
unfoldable pub handshake_on_departure : Act (Unit {0})
handshake_on_departure = do
  c ← get_conn
  deref c.handshake_parser
  put_conn (record c { handshake_parser = none })

unfoldable pub handshake_write : Act ℕ
handshake_write = do
  c ← get_conn
  if c.is_error_response then pure socks5_error else (do
    p ← deref c.handshake_parser
    pure (if p.user_pass_auth then socks5_auth else socks5_connection_req))

unfoldable pub auth_on_arrival : Act (Unit {0})
auth_on_arrival = do
  a ← malloc_parser
  memory ← gets (λ w. w.system.memory)
  modify_conn (λ c. record c {
    auth_parser = auth_parser_init a.0 a.1 memory.stray memory.bytes memory.bytes;
  })

unfoldable pub auth_on_departure : Act (Unit {0})
auth_on_departure = do c ← get_conn; deref c.auth_parser; put_conn (record c { auth_parser = none })

unfoldable pub auth_write : Act ℕ
auth_write = do
  c ← get_conn
  pure (if c.is_error_response then socks5_error else socks5_connection_req)

unfoldable pub connection_req_on_arrival : Act (Unit {0})
connection_req_on_arrival = do
  a ← malloc_parser
  memory ← gets (λ w. w.system.memory)
  modify_conn
      (λ c. record c { conn_req_parser = conn_req_parser_init a.0 a.1 memory.stray memory.bytes })

unfoldable pub connection_req_on_departure : Act (Unit {0})
connection_req_on_departure = do
  c ← get_conn
  deref c.conn_req_parser
  put_conn (record c { conn_req_parser = none })

unfoldable pub connection_req_write : Act ℕ
connection_req_write = do
  c ← get_conn
  pure (if c.is_error_response then socks5_error else socks5_copy)

unfoldable pub connecting_write : Act ℕ
connecting_write = do c ← get_conn; pure (if c.is_error_response then socks5_error else socks5_copy)

-- A failure is only logged.
unfoldable pub copy_on_arrival : Act (Unit {0})
copy_on_arrival = do c ← get_conn; register c.origin_fd copy_selector_handler op_noop; pure tt

unfoldable pub copy_on_departure : Act (Unit {0})
copy_on_departure = do c ← get_conn; unregister c.origin_fd; pure tt

unfoldable pub unregister_if_open : ℤ → Act (Unit {0})
unregister_if_open fd = when (is_positive fd) (do unregister fd; pure tt)

unfoldable pub handle_done : Act (Unit {0})
handle_done = do
  c ← get_conn
  unregister_if_open c.origin_fd
  c' ← get_conn
  unregister_if_open c'.client_fd

unfoldable pub handle_error : Act (Unit {0})
handle_error = do
  c ← get_conn
  unregister_if_open c.origin_fd
  c' ← get_conn
  unregister_if_open c'.client_fd

-- `socks5_states`
unfoldable pub socks5_hooks : List StateHooks
socks5_hooks =
    record {
      state = socks5_handshake;
      on_arrival = some handshake_on_arrival;
      on_departure = some handshake_on_departure;
      on_write_ready = some handshake_write;
    }
    ∷ record {
      state = socks5_auth;
      on_arrival = some auth_on_arrival;
      on_departure = some auth_on_departure;
      on_write_ready = some auth_write;
    }
    ∷ record {
      state = socks5_connection_req;
      on_arrival = some connection_req_on_arrival;
      on_departure = some connection_req_on_departure;
      on_write_ready = some connection_req_write;
    }
    ∷ record {
      state = socks5_connecting;
      on_arrival = none;
      on_departure = none;
      on_write_ready = some connecting_write;
    }
    ∷ record {
      state = socks5_copy;
      on_arrival = some copy_on_arrival;
      on_departure = some copy_on_departure;
      on_write_ready = none;
    }
    ∷ record {
      state = socks5_done;
      on_arrival = some handle_done;
      on_departure = none;
      on_write_ready = none;
    }
    ∷ record {
      state = socks5_error;
      on_arrival = some handle_error;
      on_departure = none;
      on_write_ready = none;
    }
    ∷ []

unfoldable pub socks5_stm_init : Act (Option Socks5Stm)
socks5_stm_init = do
  allocated ← malloc
  pure (
      if allocated
      then some (record { initial = socks5_handshake; max_state = 7; current = none })
      else none)

unfoldable pub has_write_handler : ℕ → Bool
has_write_handler state =
    state == socks5_handshake
    || (state == socks5_auth || (state == socks5_connection_req || state == socks5_connecting))

-- Behind a `send` that took `n` bytes; `full_buffer` was read before it.
unfoldable pub after_send : Bool → ℕ → Act (Unit {0})
after_send full_buffer n = do
  update_metrics (λ m. metrics_add_bytes m n)
  c ← get_conn
  out_buff ← checked (buffer_read_adv c.out_buff (pos n))
  put_conn (record c { out_buff = out_buff })
  set_interest c.client_fd (if buffer_can_read out_buff then op_write else op_read)
  when (buffer_can_read c.in_buff) (do set_interest c.origin_fd op_write; pure tt)
  when full_buffer (do set_interest c.origin_fd op_read; pure tt)
  modify_conn (λ c. record c { out_buff = buffer_compact c.out_buff })
  state ← current_state socks5_hooks
  when (has_write_handler state) (do stm_handler_write socks5_hooks; pure tt)

-- An error of the socket: everything is closed.
unfoldable pub close_both : Act (Unit {0})
close_both = do
  c ← get_conn
  unregister_if_open c.origin_fd
  c' ← get_conn
  unregister c'.client_fd
  pure tt

unfoldable pub socksv5_write : Act (Unit {0})
socksv5_write = do
  c ← get_conn
  if not (buffer_can_read c.out_buff) then (do set_interest c.client_fd op_noop; pure tt) else (do
    let full_buffer = is_positive c.origin_fd && not (buffer_can_write c.out_buff)
    r ← checked (buffer_read_ptr c.out_buff)
    answer ← send c.client_fd (take r.1 (drop r.0 c.out_buff.mem))
    elim answer [
      | taken zero ↦ pure tt
      | taken (suc n) ↦ after_send full_buffer (suc n)
      | send_again ↦ pure tt
      | send_failed ↦ (do update_metrics metrics_inc_errors; close_both)
    ])
