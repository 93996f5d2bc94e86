-- ===== src/Tests/Clients.antt =====
-- A client that sends "PING" and gets an answer.
use tpe_protos.Common.{
  ℕ, List, zero, suc, Option, ◌≡◌, ◌≢◌, refl, [], ◌∷◌, ◌++◌, some, codes, c_string, All, arith,
  str_eq,
}
use tpe_protos.Stm.{returns, and_then}
use tpe_protos.Admin.Command.{
  s5admin_parse_command, s5admin_parse_command_args, commands, find_command, strtok, token,
}
use tpe_protos.AdminClient.{
  Client, Reply, closed, read_reply, read_bytes, fgets, has_newline, strstr, response_found,
  send_command, parsed_command, given_line, turn, client_loop, admin_client_loop,
}
use tpe_protos.AdminClient.Ends.{AreAnswers, read_reply-once, admin_client_loop-ends}
use tpe_protos.AdminClient.Typed.{blank_line}
use tpe_protos.AdminClient.Lines.{Understood, admin_client_loop-sends}

-- One answer, and then the connection is closed.
abbrev answer_of : List ℕ → ℕ → Option (List ℕ)
answer_of text zero = some text
answer_of text (suc i) = some []

abbrev client : Client
client = record {
  input = codes "PING\n";
  writes = some 5 ∷ [];
  reads = answer_of (codes "PONG\n");
  parsed_cmd = record { cmd = 0; arg1 = []; arg2 = [] };
  printed = [];
  sent = [];
}

abbrev client_after : Client
client_after = record {
  input = [];
  writes = [];
  reads = λ i. some [];
  parsed_cmd = record { cmd = 10; arg1 = codes "invalid command" ++ 0 ∷ []; arg2 = [] };
  printed = codes ">: PONG\n>: ";
  sent = codes "PING\n" ∷ [];
}

client_runs : admin_client_loop client ≡ returns client_after
unfolding admin_client_loop client_loop turn given_line parsed_command send_command read_reply
    read_bytes response_found strstr fgets has_newline c_string and_then s5admin_parse_command
    s5admin_parse_command_args commands find_command strtok token str_eq
client_runs = refl

admin_client_loop-sends_example : All Understood (codes "PING\n" ∷ [])
admin_client_loop-sends_example = admin_client_loop-sends client client_after refl client_runs

admin_client_loop-ends_example : (c' : Client) × (admin_client_loop client ≡ returns c')
unfolding blank_line
admin_client_loop-ends_example =
    admin_client_loop-ends client (record { first = refl; others = ground arith }) answers
  where
    answers : AreAnswers (answer_of (codes "PONG\n"))
    answers zero = (codes "PONG\n", refl, ground arith)
    answers (suc i) = ([], refl, ground arith)

-- The start of a longer answer.
read_reply-once_example :
    (e : Reply) × (e ≢ closed)
    × (read_reply 7 (answer_of (codes "CONN")) []
        ≡ returns (e, (λ i. some []), c_string (codes "CONN")))
read_reply-once_example =
    read_reply-once 6 b'C' (codes "ONN") (answer_of (codes "CONN")) [] refl (ground arith)
