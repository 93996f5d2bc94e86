-- ===== src/Tests/Pieces.antt =====
-- Messages that arrive in pieces, and malformed ones.
use tpe_protos.Common.{ℕ, ◌≡◌, refl, List, [], ◌∷◌, pos, replicate, arith}
use tpe_protos.Stm.{returns}
use tpe_protos.Buffer.{Buffer}
use tpe_protos.Buffer.Inv.{IsValid}
use tpe_protos.Buffer.Refine.{contents}
use tpe_protos.Engine.{parser_init}
use tpe_protos.Parsers.Outcome.{map_outcome, AreBytes}
use tpe_protos.Parsers.Handshake
use tpe_protos.Parsers.Handshake.{HandshakeParser, handshake_parser_init}
use tpe_protos.Parsers.Handshake.Spec.{decode, result}
use tpe_protos.Parsers.Auth
use tpe_protos.Parsers.Auth.{AuthParser, auth_parser_init}
use tpe_protos.Parsers.Auth.Spec
use tpe_protos.Socks5.Read.{handshake_read, auth_read}
use tpe_protos.Socks5.Sending.{process}
use tpe_protos.Socks5.Greeting.{greeting}
use tpe_protos.Socks5.Authentication.{asking}
use tpe_protos.Socks5.Pieces.{handshake_read-waits, handshake_read-rejects, auth_read-waits}
use tpe_protos.Tests.Fixture.{system, server_data}
use tpe_protos.Tests.Connections.{sel, world, counters, client, holding, fresh, auth_fresh}

-- Two bytes of a greeting of four, and a greeting of another version.
handshake_read-waits_example :
    (b' : Buffer) × (p' : HandshakeParser) × (handshake_read (pos 5) (
      sel,
      process world server_data counters (greeting client (holding (5 ∷ 2 ∷ [])) fresh) (system []),
    )
      ≡ returns (0, (sel, process world server_data counters (greeting client b' p') (system []))))
    × IsValid b'
    × (contents b' ≡ [])
    × ((later : List ℕ)
        → AreBytes (5 ∷ 2 ∷ later)
        → map_outcome result (Handshake.parse p' later) ≡ decode (5 ∷ 2 ∷ later))
unfolding handshake_parser_init parser_init decode
handshake_read-waits_example =
    handshake_read-waits (pos 5) sel world server_data counters client (system []) (λ i. 0)
      (holding (5 ∷ 2 ∷ [])) fresh refl (ground arith) refl (ground arith)

handshake_read-rejects_example :
    (b' : Buffer) × (p' : HandshakeParser) × (handshake_read (pos 5) (
      sel,
      process world server_data counters (greeting client (holding (4 ∷ 1 ∷ [])) fresh) (system []),
    )
      ≡ returns (6, (sel, process world server_data counters (greeting client b' p') (system []))))
    × IsValid b'
unfolding handshake_parser_init parser_init decode
handshake_read-rejects_example =
    handshake_read-rejects (pos 5) sel world server_data counters client (system []) (λ i. 0)
      (holding (4 ∷ 1 ∷ [])) fresh refl (ground arith) refl (ground arith)

-- The first byte of the credentials, and credentials of another version.
auth_read-waits_example :
    (b' : Buffer) × (p' : AuthParser) × (auth_read (pos 5) (
      sel,
      process world server_data counters
          (asking client (holding (1 ∷ 3 ∷ [])) auth_fresh)
          (system []),
    )
      ≡ returns (1, (sel, process world server_data counters (asking client b' p') (system []))))
    × IsValid b'
    × (contents b' ≡ [])
    × ((later : List ℕ)
        → AreBytes (1 ∷ 3 ∷ later)
        → map_outcome Spec.strings (Auth.parse p' later)
          ≡ map_outcome Spec.as_strings (Spec.decode (1 ∷ 3 ∷ later)))
unfolding auth_parser_init parser_init Spec.decode
auth_read-waits_example =
    auth_read-waits (pos 5) sel world server_data counters client (system []) (λ i. 0)
      (holding (1 ∷ 3 ∷ [])) (replicate 256 7) (replicate 256 7) auth_fresh refl refl refl
      (ground arith) refl (ground arith)
