-- ===== src/Tests/Handshake.antt =====
-- A method selection message through handshake_parser.c.
use tpe_protos.Common.{ℕ, ◌≡◌, refl, List, [], ◌∷◌, false, arith}
use tpe_protos.Engine.{parser_init, parser_no_classes, zero_event}
use tpe_protos.Parsers.Outcome.{map_outcome}
use tpe_protos.Parsers.Handshake.{
  HandshakeParser, handshake_parser_init, handshake_parser_definition, parse,
}
use tpe_protos.Parsers.Handshake.Spec.{result, decode, handshake_parser_lem}

abbrev fresh : HandshakeParser
fresh = record {
  parser = record {
    classes = parser_no_classes (λ i. 0);
    def = handshake_parser_definition;
    state = 0;
    e1 = zero_event;
    e2 = zero_event;
  };
  nmethods = 0;
  method_count = 0;
  no_auth = false;
  user_pass_auth = false;
}

-- Version 5, two methods, 0 and 2, and a byte of the next message.
abbrev message : List ℕ
message = 5 ∷ 2 ∷ 0 ∷ 2 ∷ 1 ∷ []

handshake_parser_lem_example : map_outcome result (parse fresh message) ≡ decode message
unfolding handshake_parser_init parser_init
handshake_parser_lem_example = handshake_parser_lem (λ i. 0) fresh message refl (ground arith)
