-- ===== src/Tests/Auth.antt =====
-- A user name and a password through auth_parser.c.
use tpe_protos.Common.{ℕ, ◌≡◌, refl, List, [], ◌∷◌, replicate, length-replicate, arith}
use tpe_protos.Engine.{parser_init, parser_no_classes, zero_event}
use tpe_protos.Parsers.Outcome.{map_outcome}
use tpe_protos.Parsers.Auth.{AuthParser, auth_parser_init, auth_parser_definition, parse}
use tpe_protos.Parsers.Auth.Spec.{strings, as_strings, decode, auth_parser_lem}

abbrev memory : List ℕ
memory = replicate 256 7

abbrev fresh : AuthParser
fresh = record {
  parser = record {
    classes = parser_no_classes (λ i. 0);
    def = auth_parser_definition;
    state = 0;
    e1 = zero_event;
    e2 = zero_event;
  };
  username_len = 0;
  username_count = 0;
  username = memory;
  password_len = 0;
  password_count = 0;
  password = memory;
}

-- The name "ab" with the password "c".
abbrev message : List ℕ
message = 1 ∷ 2 ∷ b'a' ∷ b'b' ∷ 1 ∷ b'c' ∷ []

auth_parser_lem_example :
    map_outcome strings (parse fresh message) ≡ map_outcome as_strings (decode message)
unfolding auth_parser_init parser_init
auth_parser_lem_example =
    auth_parser_lem (λ i. 0) memory memory fresh message refl (length-replicate {A = ℕ} 256 7)
      (length-replicate {A = ℕ} 256 7) (ground arith)
