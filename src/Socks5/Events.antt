-- ===== src/Socks5/Events.antt =====
-- The events of a connection: states_handlers/socks5_connecting.c, the columns of `socks5_states` that
-- read, and the functions of src/server/socks5/socks5.c that the selector calls.
use tpe_protos.Common.{
  ℕ, Bool, true, false, not, List, [], ◌∷◌, Option, none, some, ℤ, pos, negsuc, ◌==◌, if◌then◌else◌,
  get_elem?, length,
}
use tpe_protos.Stm.{Run, returns, and_then}
use tpe_protos.Buffer.{buffer_can_write, buffer_write_ptr, buffer_write_adv, buffer_reset}
use tpe_protos.Selector.Loop.{FdHandler}
use tpe_protos.Admin.Metrics.{metrics_inc_errors}
use tpe_protos.Socks5.World.{
  Handler, socks5_handler, connecting_handler, copy_selector_handler, admin_handler, State, World,
  received, recv_again, recv_failed, Act, pure, ◌>>=◌, ◌>>◌, deref, checked, gets, get_conn,
  put_conn, modify_conn, when,
}
use tpe_protos.Socks5.Calls.{
  op_noop, op_write, set_system, recv, close, update_metrics, add_access, unregister, set_interest,
  register, fill, handle_close,
}
use tpe_protos.Socks5.Machine.{handle}
use tpe_protos.Socks5.Write.{
  socks5_hooks, socks5_connection_req, socks5_connecting, socks5_copy, socks5_error, close_both,
  socksv5_write,
}
use tpe_protos.Socks5.Connect.{
  rep_succeeded, rep_general_failure, rep_host_unreachable, connection_success,
  connection_in_progress, connection_failed, connect_to_host, get_code, write_error_reply,
  write_success_reply,
}
use tpe_protos.Socks5.Read.{handshake_read, auth_read, connection_req_read}
use tpe_protos.Admin.Session.{admin_read, admin_write}
use tpe_protos.Socks5.Copy.{is_success, copy_read, copy_read_handler, copy_write_handler}

-- An `int` is one of the three results.
abbrev is_int : ℤ → ℤ → Bool
is_int (pos m) (pos n) = m == n
is_int (negsuc m) (negsuc n) = m == n
is_int (pos m) (negsuc n) = false
is_int (negsuc m) (pos n) = false

-- `fd` is the descriptor of the key.
unfoldable pub connecting_on_block_ready : ℤ → Act ℕ
connecting_on_block_ready fd = do
  c ← get_conn
  elim c.addr_info [
    | [] ↦ (do
      add_access c rep_host_unreachable
      write_error_reply rep_host_unreachable
      modify_conn (λ c. record c { is_error_response = true })
      c ← get_conn
      set_interest c.client_fd op_write
      pure socks5_connection_req)
    | a ∷ rest ↦ (do
      result ← connect_to_host
      c ← get_conn
      if is_int result connection_in_progress
          then (do
            set_interest c.client_fd op_noop
            status ← register c.origin_fd connecting_handler op_write
            if is_success status
                then pure socks5_connecting
                else (do add_access c rep_general_failure; pure socks5_error))
          else if is_int result connection_success
          then (do
            add_access c rep_succeeded
            write_success_reply
            set_interest fd op_write
            modify_conn (λ c. record c { in_buff = buffer_reset c.in_buff })
            socksv5_write
            pure socks5_copy)
          else pure socks5_error)
  ]

unfoldable pub connecting_read : Act ℕ
connecting_read = pure socks5_copy

-- The column `on_read_ready` of `socks5_states`.
unfoldable pub readers : ℤ → List (Option (Act ℕ))
readers fd =
    some (handshake_read fd)
    ∷ some (auth_read fd)
    ∷ some (connection_req_read fd)
    ∷ some connecting_read
    ∷ some copy_read
    ∷ none
    ∷ none
    ∷ []

-- The column `on_block_ready`.
unfoldable pub blockers : ℤ → List (Option (Act ℕ))
blockers fd = none ∷ none ∷ none ∷ some (connecting_on_block_ready fd) ∷ none ∷ none ∷ none ∷ []

unfoldable pub stm_handler_read : ℤ → Act ℕ
stm_handler_read fd = handle socks5_hooks (λ i. deref (get_elem? (readers fd) i))

unfoldable pub stm_handler_block : ℤ → Act ℕ
stm_handler_block fd = handle socks5_hooks (λ i. deref (get_elem? (blockers fd) i))

-- `getsockopt` of SO_ERROR: `none` where it fails.
unfoldable pub getsockopt : Act (Option ℕ)
getsockopt = do
  sys ← gets (λ w. w.system)
  elim sys.sock_errors [
    | [] ↦ pure (some 0)
    | e ∷ rest ↦ (do set_system (record sys { sock_errors = rest }); pure e)
  ]

-- No address is left to try, or the next one failed too, or it connected: the client is told.
unfoldable pub give_up : ℕ → Act (Unit {0})
give_up code = do
  c ← get_conn
  add_access c code
  write_error_reply code
  modify_conn (λ c. record c { is_error_response = true })
  c1 ← get_conn
  unregister c1.origin_fd
  c2 ← get_conn
  close c2.origin_fd
  modify_conn (λ c. record c { origin_fd = negsuc 0 })
  c3 ← get_conn
  set_interest c3.client_fd op_write
  pure tt

-- Behind an error of the socket: the next addresses are tried.
unfoldable pub retry : ℕ → Act (Unit {0})
retry code = do
  c ← get_conn
  close c.origin_fd
  elim c.addr_info [
    | [] ↦ give_up code
    | a ∷ rest ↦ (do
      result ← connect_to_host
      if is_int result connection_in_progress
          then pure tt
          else if is_int result connection_failed
          then (do code' ← get_code; give_up code')
          else give_up code)
  ]

-- The socket is connected.
unfoldable pub origin_ready : ℤ → Act (Unit {0})
origin_ready fd = do
  modify_conn (λ c. record c { addr_info = [] })
  c ← get_conn
  unregister c.origin_fd
  stm_handler_read fd
  c ← get_conn
  add_access c rep_succeeded
  write_success_reply
  set_interest c.client_fd op_write
  modify_conn (λ c. record c { in_buff = buffer_reset c.in_buff })
  socksv5_write

unfoldable pub handle_write_connecting : ℤ → Act (Unit {0})
handle_write_connecting fd = do
  c ← get_conn
  answer ← getsockopt
  elim answer [
    | none ↦ (do close c.origin_fd; get_code; origin_ready fd)
    | some err ↦ (do code ← get_code; if err == 0 then origin_ready fd else retry code)
  ]

unfoldable pub count_error : ℕ → Act (Unit {0})
count_error state = when (state == socks5_error) (update_metrics metrics_inc_errors)

unfoldable pub socksv5_read : ℤ → Act (Unit {0})
socksv5_read fd = do
  c ← get_conn
  if not (buffer_can_write c.in_buff)
      then (do
        set_interest fd op_noop
        when (not (is_int c.origin_fd (pos 0))) (do set_interest c.origin_fd op_write; pure tt))
      else (do
        r ← checked (buffer_write_ptr c.in_buff)
        answer ← recv r.1
        elim answer [
          | received [] ↦ close_both
          | received (byte ∷ bytes) ↦ (do
            in_buff ←
                checked
                  (buffer_write_adv (fill c.in_buff (byte ∷ bytes)) (pos (length (byte ∷ bytes))))
            put_conn (record c { in_buff = in_buff })
            state ← stm_handler_read fd
            count_error state)
          | recv_again ↦ pure tt
          | recv_failed ↦ (do update_metrics metrics_inc_errors; close_both)
        ])

unfoldable pub socksv5_block : ℤ → Act (Unit {0})
socksv5_block fd = do
  state ← stm_handler_block fd
  when (state == socks5_error)
      (do update_metrics metrics_inc_errors; c ← get_conn; unregister c.client_fd; pure tt)

abbrev serve : Act (Unit {0}) → State → Run State
serve m s = and_then (m s) (λ r. returns r.1)

-- The tables of functions that the selector calls.
unfoldable pub functions : FdHandler Handler (Unit {0}) World
functions = record {
  handle_read = λ h. elim h [
    | socks5_handler ↦ some (λ fd user_data. serve (socksv5_read (pos fd)))
    | connecting_handler ↦ none
    | copy_selector_handler ↦ some (λ fd user_data. serve copy_read_handler)
    | admin_handler ↦ some (λ fd user_data. serve (admin_read (pos fd)))
  ];
  handle_write = λ h. elim h [
    | socks5_handler ↦ some (λ fd user_data. serve socksv5_write)
    | connecting_handler ↦ some (λ fd user_data. serve (handle_write_connecting (pos fd)))
    | copy_selector_handler ↦ some (λ fd user_data. serve copy_write_handler)
    | admin_handler ↦ some (λ fd user_data. serve (admin_write (pos fd)))
  ];
  handle_block = λ h. elim h [
    | socks5_handler ↦ some (λ fd user_data. serve (socksv5_block (pos fd)))
    | connecting_handler ↦ none
    | copy_selector_handler ↦ none
    | admin_handler ↦ none
  ];
  handle_close = λ h. elim h [
    | socks5_handler ↦ some (handle_close socks5_handler)
    | connecting_handler ↦ none
    | copy_selector_handler ↦ none
    | admin_handler ↦ some (handle_close admin_handler)
  ];
}
