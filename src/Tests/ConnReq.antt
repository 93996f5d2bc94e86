-- ===== src/Tests/ConnReq.antt =====
-- A request through conn_req_parser.c.
use tpe_protos.Common.{ℕ, ◌≡◌, refl, List, [], ◌∷◌, replicate, length-replicate, arith}
use tpe_protos.Engine.{parser_init, parser_no_classes, zero_event}
use tpe_protos.Parsers.Outcome.{map_outcome}
use tpe_protos.Parsers.ConnReq.{
  ConnReqParser, conn_req_parser_init, conn_req_parser_definition, parse,
}
use tpe_protos.Parsers.ConnReq.Spec.{request, decode, conn_req_parser_lem}

abbrev memory : List ℕ
memory = replicate 256 7

abbrev fresh : ConnReqParser
fresh = record {
  parser = record {
    classes = parser_no_classes (λ i. 0);
    def = conn_req_parser_definition;
    state = 0;
    e1 = zero_event;
    e2 = zero_event;
  };
  cmd = 0;
  atyp = 0;
  dst_addr_len = 0;
  dst_addr = memory;
  dst_addr_count = 0;
  dst_port = 0;
}

-- CONNECT to 127.0.0.1, port 8080.
abbrev message : List ℕ
message = 5 ∷ 1 ∷ 0 ∷ 1 ∷ 127 ∷ 0 ∷ 0 ∷ 1 ∷ 31 ∷ 144 ∷ []

conn_req_parser_lem_example : map_outcome request (parse fresh message) ≡ decode message
unfolding conn_req_parser_init parser_init
conn_req_parser_lem_example =
    conn_req_parser_lem (λ i. 0) memory fresh message refl (length-replicate {A = ℕ} 256 7)
      (ground arith)
