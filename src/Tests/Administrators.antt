-- ===== src/Tests/Administrators.antt =====
-- Lines of an administrator on a connection at descriptor 5, and the options of a server.
use tpe_protos.Common.{
  ◌≡◌, refl, Bool, List, [], ◌∷◌, ◌++◌, some, pos, codes, false, true, replicate, length, arith,
  c_string, ℕ,
}
use tpe_protos.Stm.{returns}
use tpe_protos.Buffer.{Buffer}
use tpe_protos.Buffer.Inv.{IsValid}
use tpe_protos.Buffer.Refine.{contents}
use tpe_protos.Users.{auth_check_credentials}
use tpe_protos.Users.View
use tpe_protos.Users.View.{Adds}
use tpe_protos.Admin.AccessRegister.History.{blank}
use tpe_protos.Admin.Command.Words.{join}
use tpe_protos.Admin.Config.{config_handler}
use tpe_protos.Admin.Config.Replies.{Settings, with_settings}
use tpe_protos.Admin.Config.Accounts.{add_answer, config_handler-adds}
use tpe_protos.Admin.Session.{admin_write}
use tpe_protos.Admin.Session.Answers.{attended}
use tpe_protos.Admin.Session.Sending.{taking_in, admin_write-sends}
use tpe_protos.Args.{runs}
use tpe_protos.Args.Server.{ServerArgs, defaults, parse_args}
use tpe_protos.Args.Options.{options, parse_args-options}
use tpe_protos.Socks5.World.{World, AdminConn, taken}
use tpe_protos.Socks5.Interest.{Keeps, Sel}
use tpe_protos.Tests.Connections.{sel, world, counters}
use tpe_protos.Tests.Fixture.{server_data}

abbrev served : World
served = record world {
  server_data = record server_data {
    metrics = some counters;
    access_register =
        some (record { entries = replicate 100 blank; head = 0; tail = 0; count = 0 });
  };
}

world-IsValid : View.IsValid world.users
world-IsValid =
    (View.auth_add_user_lem true (codes "ana") (codes "sol") View.auth_init_lem.0 (ground arith)
      (ground arith)).0

-- A second user of the table.
config_handler-adds_example :
    (s : Settings) × (b : Bool) × (config_handler
        (join (codes "ADD_USER") (codes "bob" ∷ codes "pw" ∷ []))
        (replicate 20 0)
        (sel, world)
      ≡ returns (
        (
          length (c_string (add_answer (codes "bob") b (replicate 20 0))),
          add_answer (codes "bob") b (replicate 20 0),
        ),
        (sel, with_settings s world),
      ))
    × Adds (codes "bob") (codes "pw") true world.users (s.users, b)
    × (b ≡ true → auth_check_credentials (codes "bob") (codes "pw") s.users ≡ true)
config_handler-adds_example =
    config_handler-adds (codes "bob") (codes "pw") (replicate 20 0) true (replicate 19 true) sel
      world world-IsValid (ground arith) (ground arith) refl

abbrev empty_out : Buffer
empty_out = record { mem = replicate 64 7; limit = 64; read = 0; write = 0 }

-- "PIN" waits.
abbrev administrator : AdminConn
administrator = record {
  fd = pos 5;
  in_buff = record { mem = codes "PIN" ++ replicate 5 0; limit = 8; read = 0; write = 3 };
  out_buff = empty_out;
}

-- The six bytes "AAA", a zero, "B" and a newline were too long, and the buffer was reset.
abbrev returning : AdminConn
returning = record {
  fd = pos 5;
  in_buff = record {
    mem = codes "AAA" ++ 0 ∷ b'B' ∷ 10 ∷ 0 ∷ 0 ∷ [];
    limit = 8;
    read = 0;
    write = 0;
  };
  out_buff = empty_out;
}

-- Five bytes wait, and the socket takes two.
abbrev answered : AdminConn
answered = record administrator {
  out_buff = record { mem = codes "PONG" ++ 10 ∷ []; limit = 5; read = 0; write = 5 };
}

admin_write-sends_example :
    (b : Buffer) × (sel' : Sel) × (x : ℕ) × (xs : List ℕ) × (admin_write
        (pos 5)
        (sel, attended (taking_in (taken 2 ∷ []) served) answered)
      ≡ returns (
        tt,
        (
          sel',
          attended
              (record (taking_in [] served) { sent = [] ++ (pos 5, x ∷ xs) ∷ [] })
              (record answered { out_buff = b }),
        ),
      ))
    × IsValid b
    × ((x ∷ xs) ++ contents b ≡ contents answered.out_buff)
    × Keeps sel sel'
admin_write-sends_example =
    admin_write-sends (pos 5) 1 [] sel served answered
      (record { ordered = ground arith; bounded = ground arith; stored = ground arith })
      (ground arith) (ground arith)

-- Three options that differ from the defaults, and two users.
abbrev wanted : ServerArgs
wanted = record defaults {
  socks_port = 65535;
  disectors_enabled = false;
  users =
      record { name = codes "ana"; pass = codes "s:l" }
      ∷ record { name = []; pass = codes "x" }
      ∷ [];
  log_level = 3;
}

parse_args-options_example : parse_args (options wanted) [] ≡ runs wanted
parse_args-options_example = parse_args-options wanted (record {
  socks = ground arith;
  mng = ground arith;
  named = ground arith;
  few = ground arith;
  level = ground arith;
})
