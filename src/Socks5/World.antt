-- ===== src/Socks5/World.antt =====
-- src/server/include/socks5.h: a connection, the process around it, and what the operating system
-- answers. One connection of each kind is followed; the others show only in the server's data.
use tpe_protos.Common.{ℕ, Bool, true, false, List, Option, none, some, ℤ}
use tpe_protos.Stm.{Run, returns, aborts, outside, unfinished}
use tpe_protos.Buffer.{Buffer}
use tpe_protos.Selector.{FdSelector, Item}
use tpe_protos.Replies.{SockAddr, SockData}
use tpe_protos.Users.{Table}
use tpe_protos.Admin.ServerData.{ServerData}
use tpe_protos.Admin.Command.{ParsedCommand}
use tpe_protos.Parsers.Handshake.{HandshakeParser}
use tpe_protos.Parsers.Auth.{AuthParser}
use tpe_protos.Parsers.ConnReq.{ConnReqParser}

-- The tables `struct fd_handler` that serve a connection, the last one an administrator's.
pub data Handler : Type 0 where
  socks5_handler : Handler
  connecting_handler : Handler
  copy_selector_handler : Handler
  admin_handler : Handler

-- The fields of `struct state_machine` that vary; `states` is the table of socks5_stm.c.
pub record Socks5Stm : Type 0 where
  pub initial : ℕ
  pub max_state : ℕ
  pub current : Option ℕ

-- `socks5_conn_t`: a null pointer is `none`, and the list of `addr_info` is the addresses. The two
-- arrays of the buffers stand in the buffers.
pub record Socks5Conn : Type 0 where
  pub client_fd : ℤ
  pub origin_fd : ℤ
  pub stm : Option Socks5Stm
  pub handshake_parser : Option HandshakeParser
  pub auth_parser : Option AuthParser
  pub conn_req_parser : Option ConnReqParser
  pub in_buff : Buffer
  pub out_buff : Buffer
  pub src_address : List ℕ
  pub src_port : ℕ
  pub username : List ℕ
  pub dst_address : List ℕ
  pub dst_port : ℕ
  pub a_type : ℕ
  pub addr_info : List (List ℕ)
  pub is_error_response : Bool

-- `admin_conn_t` of src/server/s5admin/s5admin.c; its arrays stand in its buffers.
pub record AdminConn : Type 0 where
  pub fd : ℤ
  pub in_buff : Buffer
  pub out_buff : Buffer

-- `recv`: some bytes (none of them: the peer closed), nothing yet, or an error.
pub data RecvAnswer : Type 0 where
  received : List ℕ → RecvAnswer
  recv_again : RecvAnswer
  recv_failed : RecvAnswer

-- `send`: how many bytes it takes, nothing yet, or an error.
pub data SendAnswer : Type 0 where
  taken : ℕ → SendAnswer
  send_again : SendAnswer
  send_failed : SendAnswer

-- One address of `connect_to_host`: `socket` fails, the new descriptor cannot be made non-blocking, or
-- `connect` succeeds, is in progress, or fails.
pub data ConnectAnswer : Type 0 where
  no_socket : ConnectAnswer
  blocking : ℕ → ConnectAnswer
  connected : ℕ → ConnectAnswer
  in_progress : ℕ → ConnectAnswer
  refused : ℕ → ConnectAnswer

-- `accept`: no connection, one whose descriptor cannot be made non-blocking, or one with the address
-- and the port of the client (`none` for a family other than the two of the Internet).
pub data AcceptAnswer : Type 0 where
  accept_failed : AcceptAnswer
  accept_blocking : ℕ → AcceptAnswer
  accepted : ℕ → Option (List ℕ × ℕ) → AcceptAnswer

-- What stands in memory that nothing has written yet; `cut` is what `strtok_r` makes of a line whose
-- words it has cut off.
pub record Memory : Type 0 where
  pub stray : ℕ → ℕ
  pub bytes : List ℕ
  pub items : ℕ → Item Handler (Unit {0})
  pub sock_data : SockData
  pub union_bytes : List ℕ
  pub cut : List ℕ → List ℕ

-- The answers of the system, each list in the order of the calls: whether memory is given, what
-- `getaddrinfo` finds (nothing where it fails), what `getsockopt` reads of a socket's error (`none`
-- where it fails), the values of `errno`, whether a thread starts, and how the system prints the bytes
-- of an IPv6 address. Where a list ends, memory, sockets and threads are refused, nothing is found, and
-- no data is ready.
pub record System : Type 0 where
  pub allocations : List Bool
  pub recvs : List RecvAnswer
  pub sends : List SendAnswer
  pub accepts : List AcceptAnswer
  pub connects : List ConnectAnswer
  pub lookups : List (List (List ℕ))
  pub sock_errors : List (Option ℕ)
  pub errnos : List ℕ
  pub threads : List Bool
  pub inet_ntop : List ℕ → Option (List ℕ)
  pub sock_addr : SockAddr
  pub now : List ℕ
  pub memory : Memory

-- The process: the connections of a client and of an administrator (`none` once freed), the tables of
-- the server, the command parsed last, the level of the log, the system, the threads that were started
-- to resolve a name, and what was sent and closed, the latest last.
pub record World : Type 0 where
  pub conn : Option Socks5Conn
  pub admin : Option AdminConn
  pub users : Table
  pub server_data : ServerData
  pub parsed_cmd : ParsedCommand
  pub log_level : ℕ
  pub system : System
  pub resolvers : ℕ
  pub sent : List (ℤ × List ℕ)
  pub closed : List ℤ

abbrev pub State : Type 0
State = FdSelector Handler (Unit {0}) × World

abbrev pub Act : Type 0 → Type 0
Act A = State → Run (A × State)

module _ {A : Type 0} where
  abbrev pub pure : A → Act A
  pure a s = returns (a, s)

  -- A failed assert.
  abbrev pub abort : Act A
  abort s = aborts

  -- A null pointer, or an object that was freed.
  abbrev pub dangling : Act A
  dangling s = outside

  abbrev pub out_of_fuel : Act A
  out_of_fuel s = unfinished

infixl 5 ◌>>=◌ ◌>>◌
abbrev pub ◌>>=◌ : {A B : Type 0} → Act A → (A → Act B) → Act B
◌>>=◌ m f s = elim (m s) [
  | returns (a, s') ↦ f a s'
  | aborts ↦ aborts
  | outside ↦ outside
  | unfinished ↦ unfinished
]

abbrev pub ◌>>◌ : {A B : Type 0} → Act A → Act B → Act B
m >> k = m >>= λ _. k

module _ {A : Type 0} where
  abbrev pub deref : Option A → Act A
  deref none = dangling
  deref (some a) = pure a

  abbrev pub checked : Option A → Act A
  checked none = abort
  checked (some a) = pure a

  abbrev pub gets : (World → A) → Act A
  gets f s = returns (f s.1, s)

abbrev pub modify : (World → World) → Act (Unit {0})
modify f s = returns (tt, (s.0, f s.1))

-- The connection behind `key->data`.
abbrev pub get_conn : Act Socks5Conn
get_conn s = deref s.1.conn s

abbrev pub put_conn : Socks5Conn → Act (Unit {0})
put_conn c = modify (λ w. record w { conn = some c })

abbrev pub modify_conn : (Socks5Conn → Socks5Conn) → Act (Unit {0})
modify_conn f = do c ← get_conn; put_conn (f c)

abbrev pub when : Bool → Act (Unit {0}) → Act (Unit {0})
when true m = m
when false m = pure tt
