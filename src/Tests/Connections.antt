-- ===== src/Tests/Connections.antt =====
-- A client at descriptor 5 that greets, logs in, and sends bytes to an origin at descriptor 6.
use tpe_protos.Common.{
  ℕ, suc, ◌≡◌, refl, List, [], ◌∷◌, ◌++◌, none, some, pos, codes, false, true, replicate, set,
  length, arith, c_string, str_eq, take,
}
use tpe_protos.Stm.{returns, outside}
use tpe_protos.Buffer.{Buffer}
use tpe_protos.Buffer.Inv.{IsValid}
use tpe_protos.Buffer.Refine.{contents}
use tpe_protos.Engine.{parser_init, parser_no_classes, zero_event}
use tpe_protos.Parsers.Handshake.{
  HandshakeParser, handshake_parser_init, handshake_parser_definition,
}
use tpe_protos.Parsers.Handshake.Spec.{decode}
use tpe_protos.Parsers.Auth.Spec
use tpe_protos.Parsers.Auth.{AuthParser, auth_parser_init, auth_parser_definition}
use tpe_protos.Parsers.ConnReq.{conn_req_parser_init}
use tpe_protos.Users.{auth_check_credentials, auth_add_user, auth_init, hash}
use tpe_protos.Admin.Metrics.{ServerMetrics, metrics_add_bytes}
use tpe_protos.Socks5.World.{World, Socks5Conn, taken}
use tpe_protos.Socks5.Accept.{zero_conn, set_up}
use tpe_protos.Socks5.Limit.{set_up-uncounts}
use tpe_protos.Socks5.Copy.{copy_write_handler}
use tpe_protos.Socks5.Interest.{Sel, Keeps}
use tpe_protos.Socks5.Closing.{client_item, HasClient, alone}
use tpe_protos.Socks5.Sending.{at_state, process, notify, socksv5_write-sends}
use tpe_protos.Socks5.Steps.{live}
use tpe_protos.Socks5.Read.{handshake_read, auth_read}
use tpe_protos.Socks5.Write.{socksv5_write}
use tpe_protos.Socks5.Ends.{willing, Reaches}
use tpe_protos.Socks5.Answer.{IsReady}
use tpe_protos.Socks5.Greeting.{
  greeting, greeted, handshake_read-user_pass, handshake_read-no_auth, handshake_read-pipelined,
  handshake_read-refuses,
}
use tpe_protos.Socks5.Authentication.{asking, auth_read-accepts, auth_read-denies}
use tpe_protos.Socks5.Forward.{copy_write_handler-forwards}
use tpe_protos.Tests.Fixture.{selector, system, start, server_data}

abbrev pub sel : Sel
sel = record selector { fds = set selector.fds 5 (client_item 5 1 (some tt)) }

abbrev pub world : World
world = (start []).1

abbrev pub counters : ServerMetrics
counters = record {
  total_connections = 1;
  current_connections = 1;
  bytes_transferred = 0;
  errors = 0;
}

abbrev idle : Buffer
idle = record { mem = replicate 8 0; limit = 8; read = 0; write = 0 }

-- A buffer in which `bytes` wait.
abbrev pub holding : List ℕ → Buffer
holding bytes = record { mem = bytes; limit = length bytes; read = 0; write = length bytes }

abbrev pub client : Socks5Conn
client = record zero_conn { client_fd = pos 5; out_buff = idle }

idle-IsReady : IsReady idle
idle-IsReady = record { valid = ground arith; idle = refl; roomy = ground arith }

abbrev pub fresh : HandshakeParser
fresh = record {
  parser = record {
    classes = parser_no_classes (λ i. 0);
    def = handshake_parser_definition;
    state = 0;
    e1 = zero_event;
    e2 = zero_event;
  };
  nmethods = 0;
  method_count = 0;
  no_auth = false;
  user_pass_auth = false;
}

handshake_read-user_pass_example :
    Reaches
      (handshake_read (pos 5) (
        sel,
        process world server_data counters
            (greeting client (holding (5 ∷ 2 ∷ 0 ∷ 2 ∷ [])) fresh)
            (willing 0 [] [] (system [])),
      ))
      1
      sel
      (λ (in_buff out_buff : Buffer).
        process
          (record world { sent = (pos 5, 5 ∷ 2 ∷ []) ∷ [] })
          server_data
          (metrics_add_bytes counters 2)
          (at_state 1 (record (greeted client in_buff out_buff) {
            auth_parser = auth_parser_init true true (λ i. 0) (replicate 8 7) (replicate 8 7);
          }))
          (record (system []) { sends = []; allocations = [] }))
unfolding handshake_parser_init parser_init decode
handshake_read-user_pass_example =
    handshake_read-user_pass (pos 5) 0 [] [] sel world server_data counters client (system [])
      (λ i. 0) (holding (5 ∷ 2 ∷ 0 ∷ 2 ∷ [])) fresh true refl (ground arith) refl (ground arith)
      idle-IsReady (omega arith) (omega arith) (omega arith)

handshake_read-no_auth_example :
    Reaches
      (handshake_read (pos 5) (
        sel,
        process world server_data counters
            (greeting client (holding (5 ∷ 1 ∷ 0 ∷ [])) fresh)
            (willing 0 [] [] (system [])),
      ))
      2
      sel
      (λ (in_buff out_buff : Buffer).
        process
          (record world { sent = (pos 5, 5 ∷ 0 ∷ []) ∷ [] })
          server_data
          (metrics_add_bytes counters 2)
          (at_state 2 (record (greeted client in_buff out_buff) {
            conn_req_parser = conn_req_parser_init true true (λ i. 0) (replicate 8 7);
          }))
          (record (system []) { sends = []; allocations = [] }))
unfolding handshake_parser_init parser_init decode
handshake_read-no_auth_example =
    handshake_read-no_auth (pos 5) 0 [] [] sel world server_data counters client (system [])
      (λ i. 0) (holding (5 ∷ 1 ∷ 0 ∷ [])) fresh refl (ground arith) refl (ground arith) idle-IsReady
      (omega arith) (omega arith) (omega arith)

-- The client sends the first byte of its next message along.
handshake_read-pipelined_example :
    handshake_read (pos 5) (
      sel,
      process world server_data counters
          (greeting client (holding (5 ∷ 1 ∷ 2 ∷ 1 ∷ [])) fresh)
          (willing 0 [] [] (system [])),
    )
    ≡ outside
unfolding handshake_parser_init parser_init decode
handshake_read-pipelined_example =
    handshake_read-pipelined (pos 5) 0 [] [] sel world server_data counters client (system [])
      (λ i. 0) (holding (5 ∷ 1 ∷ 2 ∷ 1 ∷ [])) fresh false true 1 [] refl refl (ground arith) refl
      (ground arith) idle-IsReady (omega arith) (omega arith) (omega arith)

client-HasClient : HasClient 4 sel
client-HasClient = record {
  small = omega arith;
  interest = 1;
  user_data = some tt;
  registered = refl;
}

-- The client offers GSSAPI only.
handshake_read-refuses_example :
    handshake_read (pos 5) (
      sel,
      process world server_data counters
          (greeting (alone 4 client) (holding (5 ∷ 1 ∷ 1 ∷ [])) fresh)
          (willing 0 [] [] (system [])),
    )
    ≡ outside
unfolding handshake_parser_init parser_init decode
handshake_read-refuses_example =
    handshake_read-refuses (pos 5) 0 4 [] [] sel world server_data counters client (system [])
      (λ i. 0) (holding (5 ∷ 1 ∷ 1 ∷ [])) fresh [] refl (ground arith) refl (ground arith)
      idle-IsReady (omega arith) (omega arith) client-HasClient

abbrev pub auth_fresh : AuthParser
auth_fresh = record {
  parser = record {
    classes = parser_no_classes (λ i. 0);
    def = auth_parser_definition;
    state = 0;
    e1 = zero_event;
    e2 = zero_event;
  };
  username_len = 0;
  username_count = 0;
  username = replicate 256 7;
  password_len = 0;
  password_count = 0;
  password = replicate 256 7;
}

-- The user "ana", with the password "sol".
abbrev login : List ℕ
login = 1 ∷ 3 ∷ 97 ∷ 110 ∷ 97 ∷ 3 ∷ 115 ∷ 111 ∷ 108 ∷ []

auth_read-accepts_example :
    Reaches
      (auth_read (pos 5) (
        sel,
        process world server_data counters
            (asking client (holding login) auth_fresh)
            (willing 0 [] [] (system [])),
      ))
      2
      sel
      (λ (in_buff out_buff : Buffer).
        process
          (record world { sent = (pos 5, 1 ∷ 0 ∷ []) ∷ [] })
          server_data
          (metrics_add_bytes counters 2)
          (at_state 2 (record client {
            in_buff = in_buff;
            out_buff = out_buff;
            auth_parser = none;
            conn_req_parser = conn_req_parser_init true true (λ i. 0) (replicate 8 7);
            is_error_response = false;
            username = codes "ana";
          }))
          (record (system []) { sends = []; allocations = [] }))
unfolding auth_parser_init parser_init Spec.decode auth_check_credentials auth_add_user auth_init
    c_string hash str_eq
auth_read-accepts_example =
    auth_read-accepts (pos 5) 0 [] [] sel world server_data counters client (system []) (λ i. 0)
      (replicate 256 7) (replicate 256 7) (holding login) auth_fresh (codes "ana", codes "sol") []
      refl refl refl (ground arith) refl (ground arith) idle-IsReady (omega arith) (omega arith)
      (omega arith) refl

-- The same name with the password "luz".
abbrev wrong : List ℕ
wrong = 1 ∷ 3 ∷ 97 ∷ 110 ∷ 97 ∷ 3 ∷ 108 ∷ 117 ∷ 122 ∷ []

auth_read-denies_example :
    auth_read (pos 5) (
      sel,
      process world server_data counters
          (asking (alone 4 client) (holding wrong) auth_fresh)
          (willing 0 [] [] (system [])),
    )
    ≡ outside
unfolding auth_parser_init parser_init Spec.decode auth_check_credentials auth_add_user auth_init
    c_string hash str_eq
auth_read-denies_example =
    auth_read-denies (pos 5) 0 4 [] [] sel world server_data counters client (system []) (λ i. 0)
      (replicate 256 7) (replicate 256 7) (holding wrong) auth_fresh (codes "ana", codes "luz") []
      refl refl refl (ground arith) refl (ground arith) idle-IsReady (omega arith) (omega arith)
      client-HasClient refl

-- A client that talks to an origin at descriptor 6, with three bytes for it.
abbrev talking : Socks5Conn
talking = record client {
  origin_fd = pos 6;
  in_buff = holding (10 ∷ 11 ∷ 12 ∷ []);
  out_buff = holding (20 ∷ 21 ∷ []);
}

copy_write_handler-forwards_example :
    (b : Buffer) × (sel' : Sel) × (x : ℕ) × (xs : List ℕ) × (copy_write_handler
        (sel, live world talking (record (system []) { sends = taken 2 ∷ [] }))
      ≡ returns (
        tt,
        (
          sel',
          record (live world (record talking { in_buff = b }) (record (system []) { sends = [] })) {
            sent = [] ++ (pos 6, x ∷ xs) ∷ [];
          },
        ),
      ))
    × IsValid b
    × ((x ∷ xs) ++ contents b ≡ 10 ∷ 11 ∷ 12 ∷ [])
    × Keeps sel sel'
copy_write_handler-forwards_example =
    copy_write_handler-forwards 1 [] sel world talking (system []) (ground arith) (omega arith)
      (omega arith) (omega arith)

socksv5_write-sends_example :
    (b : Buffer) × (sel' : Sel) × (x : ℕ) × (xs : List ℕ) × (socksv5_write (
      sel,
      process world server_data counters
          (at_state 4 talking)
          (record (system []) { sends = taken 1 ∷ [] }),
    )
      ≡ notify 4 (
        sel',
        process
            (record world { sent = [] ++ (pos 5, x ∷ xs) ∷ [] })
            server_data
            (metrics_add_bytes counters (suc (length xs)))
            (at_state 4 (record talking { out_buff = b }))
            (record (system []) { sends = [] }),
      ))
    × IsValid b
    × ((x ∷ xs) ++ contents b ≡ 20 ∷ 21 ∷ [])
    × (x ∷ xs ≡ take 1 (20 ∷ 21 ∷ []))
    × Keeps sel sel'
socksv5_write-sends_example =
    socksv5_write-sends 0 4 [] sel world server_data counters talking (system []) (ground arith)
      (omega arith) (omega arith) (omega arith) (omega arith)

set_up-uncounts_example :
    (sel' : Sel) × (set_up (pos 5) (
      sel,
      process world server_data counters
          (record client { origin_fd = pos 0 })
          (record (system []) { allocations = false ∷ [] }),
    )
      ≡ returns (
        tt,
        (
          sel',
          record world {
            conn = none;
            system = record (system []) { allocations = [] };
            server_data = record server_data {
              metrics = some (record counters { current_connections = 0 });
            };
            closed = [] ++ pos 5 ∷ [];
          },
        ),
      ))
set_up-uncounts_example =
    set_up-uncounts 4 0 [] sel world server_data counters client (system []) client-HasClient refl
