-- ===== src/Tests/Fixture.antt =====
-- A small process for the examples on connections: a selector with eight places, a user, and a client
-- at descriptor 5.
use tpe_protos.Common.{ℕ, true, false, List, [], ◌∷◌, none, some, replicate, codes}
use tpe_protos.Selector.{FdSelector, Item}
use tpe_protos.Replies.{inet}
use tpe_protos.Users.{Table, auth_init, auth_add_user}
use tpe_protos.Admin.ServerData.{ServerData}
use tpe_protos.Socks5.World.{Handler, RecvAnswer, System, State, Memory, accepted, received, taken}

abbrev unused : Item Handler (Unit {0})
unused = record { fd = none; interest = 0; handler = none; user_data = none }

abbrev pub selector : FdSelector Handler (Unit {0})
selector = record {
  fds = replicate 8 unused;
  fd_size = 8;
  max_fd = 0;
  master_r = λ i. false;
  master_w = λ i. false;
  resolution_jobs = [];
}

abbrev memory : Memory
memory = record {
  stray = λ i. 0;
  bytes = replicate 8 7;
  items = λ i. unused;
  sock_data = record { atyp = 0; addr = replicate 16 0; port = 0 };
  union_bytes = replicate 16 0;
  cut = λ line. line;
}

-- Everything is given; the client's messages are `messages`.
abbrev pub system : List (List ℕ) → System
system messages = record {
  allocations = replicate 20 true;
  recvs = answers messages;
  sends = replicate 9 (taken 100);
  accepts = accepted 5 (some (codes "10.0.0.9", 4000)) ∷ [];
  connects = [];
  lookups = [];
  sock_errors = [];
  errnos = [];
  threads = [];
  inet_ntop = λ bytes. none;
  sock_addr = inet (10 ∷ 0 ∷ 0 ∷ 1 ∷ []) 1080;
  now = codes "2025-07-01T00:00:00Z";
  memory = memory;
}
  where
    answers : List (List ℕ) → List RecvAnswer
    answers [] = []
    answers (m ∷ ms) = received m ∷ answers ms

abbrev pub server_data : ServerData
server_data = record {
  metrics = some (record {
    total_connections = 0;
    current_connections = 0;
    bytes_transferred = 0;
    errors = 0;
  });
  access_register = none;
  buffer_size = 16;
  max_conn = 2;
}

abbrev pub users : Table
users = (auth_add_user true (codes "ana") (codes "sol") auth_init).0

abbrev pub start : List (List ℕ) → State
start messages = (
  selector,
  record {
    conn = none;
    admin = none;
    users = users;
    server_data = server_data;
    parsed_cmd = record { cmd = 0; arg1 = replicate 256 0; arg2 = replicate 256 0 };
    log_level = 1;
    system = system messages;
    resolvers = 0;
    sent = [];
    closed = [];
  },
)
