-- ===== src/Socks5/Connect.antt =====
-- `resolve_host_name` and `connect_to_host` of src/server/utils/netutils.c, `set_dst_address` of
-- states_handlers/conn_req.c, and the replies that states_handlers/socks5_connecting.c sends.
use tpe_protos.Common.{
  ℕ, ◌+◌, ◌-◌, List, [], ◌∷◌, ◌++◌, Option, none, some, ℤ, pos, negsuc, ltb, ◌==◌, if◌then◌else◌,
  take, c_string, codes, decimal, get_or,
}
use tpe_protos.Stm.{returns}
use tpe_protos.Buffer.{buffer_write_struct}
use tpe_protos.Selector.{selector_notify_block}
use tpe_protos.Replies.{
  create_conn_req_response, create_conn_req_error_response, conn_req_bytes, response_size,
  response_base_size, ipv4_addr_size,
}
use tpe_protos.Parsers.ConnReq.{atyp_ipv4, atyp_ipv6, atyp_domain_name}
use tpe_protos.Socks5.World.{
  no_socket, blocking, connected, in_progress, refused, Act, pure, dangling, ◌>>=◌, ◌>>◌, checked,
  gets, get_conn, put_conn, modify_conn,
}
use tpe_protos.Socks5.Calls.{set_system, malloc, close}

abbrev pub rep_succeeded : ℕ
rep_succeeded = 0x00

abbrev pub rep_general_failure : ℕ
rep_general_failure = 0x01

abbrev pub rep_network_unreachable : ℕ
rep_network_unreachable = 0x03

abbrev pub rep_host_unreachable : ℕ
rep_host_unreachable = 0x04

abbrev pub rep_connection_refused : ℕ
rep_connection_refused = 0x05

abbrev pub rep_ttl_expired : ℕ
rep_ttl_expired = 0x06

abbrev pub rep_command_not_supported : ℕ
rep_command_not_supported = 0x07

-- `CONNECTION_SUCCESS`, `CONNECTION_IN_PROGRESS` and `CONNECTION_FAILED`
abbrev pub connection_success : ℤ
connection_success = pos 0

abbrev pub connection_in_progress : ℤ
connection_in_progress = negsuc 0

abbrev pub connection_failed : ℤ
connection_failed = negsuc 1

abbrev pub domain_name_max_length : ℕ
domain_name_max_length = 254

-- The values of Linux for ENETUNREACH, ETIMEDOUT, ECONNREFUSED and EHOSTUNREACH
abbrev pub enetunreach : ℕ
enetunreach = 101

abbrev pub etimedout : ℕ
etimedout = 110

abbrev pub econnrefused : ℕ
econnrefused = 111

abbrev pub ehostunreach : ℕ
ehostunreach = 113

-- The text behind the call, from the text before it; `inet_ntop` prints the bytes of an IPv6 address.
unfoldable pub set_dst_address : (List ℕ → Option (List ℕ)) → List ℕ → List ℕ → ℕ → ℕ → List ℕ
set_dst_address inet_ntop dst_address addr addr_len a_type =
    if a_type == atyp_ipv4
    then decimal (get_or addr 0 0)
      ++ b'.'
        ∷ (decimal (get_or addr 1 0)
            ++ b'.' ∷ (decimal (get_or addr 2 0) ++ b'.' ∷ decimal (get_or addr 3 0)))
    else if a_type == atyp_ipv6
    then elim (inet_ntop (take 16 addr)) [ none ↦ codes "<invalid IPv6>" | some text ↦ text ]
    else if a_type == atyp_domain_name
    then c_string (
        take
          (if ltb addr_len (domain_name_max_length - 1)
            then addr_len
            else domain_name_max_length - 1)
          addr)
    else dst_address

-- A negative descriptor would index in front of the table.
abbrev pub index_of : ℤ → Act ℕ
index_of (pos n) = pure n
index_of (negsuc n) = dangling

-- `selector_notify_block` for the client.
unfoldable pub notify_block : Act (Unit {0})
notify_block = do
  c ← get_conn
  fd ← index_of c.client_fd
  allocated ← malloc
  λ s. returns (tt, ((selector_notify_block allocated fd s.0).1, s.1))

-- `getaddrinfo`, with no address where it fails
unfoldable pub getaddrinfo : Act (List (List ℕ))
getaddrinfo = do
  sys ← gets (λ w. w.system)
  elim sys.lookups [
    | [] ↦ pure []
    | found ∷ rest ↦ (do set_system (record sys { lookups = rest }); pure found)
  ]

unfoldable pub resolve_host_name : Act (Unit {0})
resolve_host_name = do
  found ← getaddrinfo
  elim found [
    | [] ↦ notify_block
    | a ∷ rest ↦ (do modify_conn (λ c. record c { addr_info = a ∷ rest }); notify_block)
  ]

-- The loop of `connect_to_host` over the addresses from `rp`, of those in `res`: the result, and what
-- `*res` and `*sock_fd` become.
unfoldable pub connect_from : List (List ℕ) → ℤ → List (List ℕ) → Act (ℤ × List (List ℕ) × ℤ)
connect_from res sock_fd [] = pure (connection_failed, [], sock_fd)
connect_from res sock_fd (rp ∷ ai_next) =
    let next = λ (fd : ℤ). connect_from res fd ai_next in
    do
      sys ← gets (λ w. w.system)
      elim sys.connects [
        | [] ↦ pure (negsuc 0, res, negsuc 0)
        | no_socket ∷ rest ↦ (do
          set_system (record sys { connects = rest })
          pure (negsuc 0, res, negsuc 0))
        | blocking fd ∷ rest ↦ (do
          set_system (record sys { connects = rest })
          close (pos fd)
          pure (negsuc 0, res, pos fd))
        | connected fd ∷ rest ↦ (do
          set_system (record sys { connects = rest })
          pure (connection_success, [], pos fd))
        | in_progress fd ∷ rest ↦ (do
          set_system (record sys { connects = rest })
          pure (connection_in_progress, ai_next, pos fd))
        | refused fd ∷ rest ↦ (do
          set_system (record sys { connects = rest })
          close (pos fd)
          next (pos fd))
      ]

-- On the fields `addr_info` and `origin_fd` of the connection.
unfoldable pub connect_to_host : Act ℤ
connect_to_host = do
  c ← get_conn
  r ← connect_from c.addr_info c.origin_fd c.addr_info
  modify_conn (λ c. record c { addr_info = r.1; origin_fd = r.2 })
  pure r.0

-- The code for the value of `errno`.
unfoldable pub get_code : Act ℕ
get_code = do
  sys ← gets (λ w. w.system)
  elim sys.errnos [
    | [] ↦ pure rep_host_unreachable
    | errno ∷ rest ↦ (do
      set_system (record sys { errnos = rest })
      pure (
          if errno == econnrefused
          then rep_connection_refused
          else if errno == enetunreach
          then rep_network_unreachable
          else if errno == ehostunreach
          then rep_host_unreachable
          else if errno == etimedout
          then rep_ttl_expired
          else rep_host_unreachable))
  ]

-- `buffer_write_struct` into the output buffer: nothing is written where the bytes do not fit.
unfoldable pub write_out : List ℕ → Act (Unit {0})
write_out bytes = do
  c ← get_conn
  out_buff ← checked (buffer_write_struct c.out_buff bytes)
  put_conn (record c { out_buff = out_buff })

unfoldable pub write_error_reply : ℕ → Act (Unit {0})
write_error_reply code = do
  memory ← gets (λ w. w.system.memory)
  write_out (
      take (response_base_size + ipv4_addr_size)
        (conn_req_bytes (create_conn_req_error_response code memory.union_bytes)))

unfoldable pub write_success_reply : Act (Unit {0})
write_success_reply = do
  sys ← gets (λ w. w.system)
  let response =
      create_conn_req_response rep_succeeded sys.sock_addr sys.memory.sock_data
        sys.memory.union_bytes
  write_out (take (response_size response) (conn_req_bytes response))
