-- ===== src/Socks5/Read.antt =====
-- The functions of src/server/socks5/states_handlers that read a message of the client. Each is a loop
-- over the bytes that wait in the input buffer; its fuel is their number.
use tpe_protos.Common.{
  ℕ, zero, suc, ◌-◌, Bool, true, false, not, ◌||◌, [], ◌∷◌, Option, some, ℤ, ◌==◌, if◌then◌else◌,
  c_string,
}
use tpe_protos.Buffer.{Buffer, buffer_can_read, buffer_read, buffer_reset}
use tpe_protos.Replies.{create_handshake_response, create_auth_response}
use tpe_protos.Users.{auth_check_credentials}
use tpe_protos.Parsers.Handshake.{handshake_done, handshake_error, handshake_parser_feed}
use tpe_protos.Parsers.Auth.{auth_done, auth_error, auth_parser_feed}
use tpe_protos.Parsers.ConnReq.{
  ConnReqParser, conn_req_done, conn_req_error, conn_req_parser_feed, cmd_connect, atyp_domain_name,
}
use tpe_protos.Socks5.World.{
  Socks5Conn, Act, pure, out_of_fuel, ◌>>=◌, ◌>>◌, deref, checked, gets, modify, get_conn, put_conn,
  modify_conn,
}
use tpe_protos.Socks5.Calls.{op_noop, op_write, set_system, set_interest}
use tpe_protos.Socks5.Machine.{current_state}
use tpe_protos.Socks5.Write.{
  socks5_hooks, socks5_connection_req, socks5_connecting, socks5_error, socksv5_write,
}
use tpe_protos.Socks5.Connect.{
  rep_command_not_supported, set_dst_address, resolve_host_name, write_out, write_error_reply,
}

-- The turns that a loop over the input buffer can take.
abbrev pub waiting : Buffer → ℕ
waiting b = b.write - b.read

-- `buffer_read` of the input buffer.
unfoldable pub read_byte : Act ℕ
read_byte = do
  c ← get_conn
  r ← checked (buffer_read c.in_buff)
  put_conn (record c { in_buff = r.1 })
  pure r.0

-- The turn that the three loops share: a byte goes to the parser, which stands at `get` in the
-- connection; `finished` is the branch of a complete message, `next` the rest of the loop.
unfoldable pub message_turn :
    {P : Type 0}
    → (Socks5Conn → Option P)
    → (P → Socks5Conn → Socks5Conn)
    → (P → ℕ → P × ℕ)
    → ℕ
    → ℕ
    → (P → Act ℕ → Act ℕ)
    → Act ℕ
    → Act ℕ
message_turn get put feed done error finished next = do
  byte ← read_byte
  c ← get_conn
  p ← deref (get c)
  let r = feed p byte
  put_conn (put r.0 c)
  if r.1 == done then finished r.0 next else if r.1 == error then pure socks5_error else next

-- The loop while bytes wait; `finish` is what follows it.
unfoldable pub bytes_loop : (Act ℕ → Act ℕ) → Act ℕ → ℕ → Act ℕ
bytes_loop turn finish zero = do
  c ← get_conn
  if buffer_can_read c.in_buff then out_of_fuel else finish
bytes_loop turn finish (suc fuel) =
    let next = bytes_loop turn finish fuel in
    do c ← get_conn; if buffer_can_read c.in_buff then turn next else finish

-- `stm->current->state`, which ends two of the loops.
unfoldable pub stay : Act ℕ
stay = current_state socks5_hooks

-- The branch of `HANDSHAKE_DONE`; `fd` is the descriptor of the key.
unfoldable pub handshake_finished : ℤ → Act (Unit {0})
handshake_finished fd = do
  c ← get_conn
  p ← deref c.handshake_parser
  let response = create_handshake_response p.no_auth p.user_pass_auth
  write_out (response.version ∷ response.method ∷ [])
  set_interest fd op_write
  modify_conn (λ c. record c { is_error_response = not (p.no_auth || p.user_pass_auth) })
  socksv5_write

unfoldable pub handshake_turn : ℤ → Act ℕ → Act ℕ
handshake_turn fd =
    message_turn (λ c. c.handshake_parser) (λ p c. record c { handshake_parser = some p })
      handshake_parser_feed handshake_done handshake_error
      (λ p next. do handshake_finished fd; next)

unfoldable pub handshake_read : ℤ → Act ℕ
handshake_read fd = do c ← get_conn; bytes_loop (handshake_turn fd) stay (waiting c.in_buff)

-- The branch of `AUTH_DONE`.
unfoldable pub auth_finished : ℤ → Act (Unit {0})
auth_finished fd = do
  c ← get_conn
  p ← deref c.auth_parser
  users ← gets (λ w. w.users)
  let username = c_string p.username
  let auth_ok = auth_check_credentials username (c_string p.password) users
  let response = create_auth_response auth_ok
  write_out (response.sub_negotiation_version ∷ response.status ∷ [])
  modify_conn (λ c. record c { in_buff = buffer_reset c.in_buff; is_error_response = not auth_ok })
  set_interest fd op_write
  modify_conn (λ c. record c { username = if auth_ok then username else c.username })
  socksv5_write

unfoldable pub auth_turn : ℤ → Act ℕ → Act ℕ
auth_turn fd =
    message_turn (λ c. c.auth_parser) (λ p c. record c { auth_parser = some p }) auth_parser_feed
      auth_done auth_error (λ p next. do auth_finished fd; next)

unfoldable pub auth_read : ℤ → Act ℕ
auth_read fd = do c ← get_conn; bytes_loop (auth_turn fd) stay (waiting c.in_buff)

-- `pthread_create` of `resolve_host_name`, which then runs beside the server.
unfoldable pub start_resolver : Act Bool
start_resolver = do
  sys ← gets (λ w. w.system)
  elim sys.threads [
    | [] ↦ pure false
    | false ∷ rest ↦ (do set_system (record sys { threads = rest }); pure false)
    | true ∷ rest ↦ (do
      set_system (record sys { threads = rest })
      modify (λ w. record w { resolvers = suc w.resolvers })
      pure true)
  ]

-- A command other than CONNECT is answered at once.
unfoldable pub refuse_command : Act ℕ
refuse_command = do
  write_error_reply rep_command_not_supported
  modify_conn (λ c. record c { is_error_response = true })
  c ← get_conn
  set_interest c.client_fd op_write
  pure socks5_connection_req

-- The destination is taken over, and resolved.
unfoldable pub connect_command : ℤ → ConnReqParser → Act ℕ
connect_command fd p = do
  set_interest fd op_noop
  sys ← gets (λ w. w.system)
  modify_conn (λ c. record c {
    dst_port = p.dst_port;
    a_type = p.atyp;
    dst_address = set_dst_address sys.inet_ntop c.dst_address p.dst_addr p.dst_addr_len p.atyp;
  })
  if p.atyp == atyp_domain_name
      then (do started ← start_resolver; pure (if started then socks5_connecting else socks5_error))
      else (do resolve_host_name; pure socks5_connecting)

unfoldable pub connection_req_turn : ℤ → Act ℕ → Act ℕ
connection_req_turn fd =
    message_turn (λ c. c.conn_req_parser) (λ p c. record c { conn_req_parser = some p })
      conn_req_parser_feed conn_req_done conn_req_error
      (λ p next. if p.cmd == cmd_connect then connect_command fd p else refuse_command)

unfoldable pub connection_req_read : ℤ → Act ℕ
connection_req_read fd = do
  c ← get_conn
  bytes_loop (connection_req_turn fd) (pure socks5_connection_req) (waiting c.in_buff)
