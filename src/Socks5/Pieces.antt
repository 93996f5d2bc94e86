-- ===== src/Socks5/Pieces.antt =====
-- `handshake_read` and `auth_read` on a message that is not complete yet, or malformed.
use tpe_protos.Common.{ℕ, ◌≡◌, refl, ap, ◌∙◌, sym, List, [], ◌++◌, some, ℤ, length, arith, true}
use tpe_protos.Stm.{returns}
use tpe_protos.Buffer.{Buffer}
use tpe_protos.Buffer.Inv.{IsValid, length-slice}
use tpe_protos.Buffer.Refine.{contents}
use tpe_protos.Parsers.Outcome.{Outcome, more, bad, complete, map_outcome, AreBytes}
use tpe_protos.Parsers.Handshake
use tpe_protos.Parsers.Auth
use tpe_protos.Admin.Metrics.{ServerMetrics}
use tpe_protos.Admin.ServerData.{ServerData}
use tpe_protos.Socks5.World.{Socks5Conn, System, World, ◌>>◌}
use tpe_protos.Socks5.Interest.{Sel}
use tpe_protos.Socks5.Write.{socks5_handshake, socks5_auth, socks5_error}
use tpe_protos.Socks5.Sending.{at_state, process}
use tpe_protos.Socks5.Read.{
  handshake_turn, handshake_finished, handshake_read, auth_turn, auth_finished, auth_read, stay,
  waiting,
}
use tpe_protos.Socks5.Reading.{loop-bad, loop-more}
use tpe_protos.Socks5.Ends.{stay-at}
use tpe_protos.Socks5.Greeting.{greeting}
use tpe_protos.Socks5.Authentication.{asking}

-- An outcome whose value is only read keeps its kind.
same_more : {A B : Type 0} (f : A → B) (o : Outcome A) → map_outcome f o ≡ more → o ≡ more
same_more f more e = refl
same_more f bad e = cc
same_more f (complete a r) e = cc

same_bad : {A B : Type 0} (f : A → B) (o : Outcome A) → map_outcome f o ≡ bad → o ≡ bad
same_bad f more e = cc
same_bad f bad e = refl
same_bad f (complete a r) e = cc

module _ (fd : ℤ) (sel : Sel) (w : World) (d : ServerData) (m : ServerMetrics) (c : Socks5Conn)
    (sys : System) (stray : ℕ → ℕ) (b : Buffer) where
  -- A new parser and a valid buffer that holds a part of a greeting: the handler returns the same
  -- state, sends nothing and leaves the buffer valid and empty, and its parser reads in any bytes that
  -- come later what a new parser reads in all of them.
  pub handshake_read-waits :
      (p : Handshake.HandshakeParser)
      → Handshake.handshake_parser_init true true stray ≡ some p
      → AreBytes (contents b)
      → Handshake.Spec.decode (contents b) ≡ more
      → IsValid b
      → (b' : Buffer) × (p' : Handshake.HandshakeParser) × (handshake_read fd
            (sel, process w d m (greeting c b p) sys)
          ≡ returns (socks5_handshake, (sel, process w d m (greeting c b' p') sys)))
        × IsValid b'
        × (contents b' ≡ [])
        × ((later : List ℕ)
            → AreBytes (contents b ++ later)
            → map_outcome Handshake.Spec.result (Handshake.parse p' later)
              ≡ Handshake.Spec.decode (contents b ++ later))
  unfolding handshake_read handshake_turn
  handshake_read-waits p i y e v =
      let q =
        same_more Handshake.Spec.result (Handshake.parse p (contents b))
          (Handshake.Spec.handshake_parser_lem stray p (contents b) i y ∙ e) in
      let (b', p', run, v', e', keep) =
        loop-more (λ c. c.handshake_parser) (λ p c. record c { handshake_parser = some p })
          Handshake.handshake_parser_feed Handshake.handshake_done Handshake.handshake_error
          (λ p next. do handshake_finished fd; next) stay 0 sel (process w d m c sys)
          (λ p. at_state 0 (record c { handshake_parser = some p })) (λ b p. refl) (λ b p p'. refl)
          (λ b p.
            stay-at 0 sel w d m (record c { in_buff = b; handshake_parser = some p }) sys
              (omega arith))
          (contents b) (waiting b) b p v refl (omega (arith, length-slice v)) q in
      (
        b',
        p',
        run,
        v',
        e',
        λ later y'.
            ap (map_outcome Handshake.Spec.result) (sym (keep later))
            ∙ Handshake.Spec.handshake_parser_lem stray p (contents b ++ later) i y',
      )

  -- A new parser and a valid buffer that holds a greeting that the parser refuses, which is one of another
  -- version or one with a method other than 0, 1 and 2 in it, also behind a method that the server has: the
  -- handler returns the state of the error, sends nothing, not even the answer 0xFF, and leaves the buffer
  -- valid.
  pub handshake_read-rejects :
      (p : Handshake.HandshakeParser)
      → Handshake.handshake_parser_init true true stray ≡ some p
      → AreBytes (contents b)
      → Handshake.Spec.decode (contents b) ≡ bad
      → IsValid b
      → (b' : Buffer) × (p' : Handshake.HandshakeParser) × (handshake_read fd
            (sel, process w d m (greeting c b p) sys)
          ≡ returns (socks5_error, (sel, process w d m (greeting c b' p') sys)))
        × IsValid b'
  unfolding handshake_read handshake_turn
  handshake_read-rejects p i y e v =
      loop-bad (λ c. c.handshake_parser) (λ p c. record c { handshake_parser = some p })
        Handshake.handshake_parser_feed Handshake.handshake_done Handshake.handshake_error
        (λ p next. do handshake_finished fd; next) stay 0 sel (process w d m c sys)
        (λ p. at_state 0 (record c { handshake_parser = some p })) (λ b p. refl) (λ b p p'. refl)
        (λ b p.
          stay-at 0 sel w d m (record c { in_buff = b; handshake_parser = some p }) sys
            (omega arith))
        (contents b) (waiting b) b p v refl (omega (arith, length-slice v))
        (same_bad Handshake.Spec.result (Handshake.parse p (contents b))
          (Handshake.Spec.handshake_parser_lem stray p (contents b) i y ∙ e))

  module _ (garbage garbage' : List ℕ) (p : Auth.AuthParser)
      (i : Auth.auth_parser_init true true stray garbage garbage' ≡ some p)
      (long : length garbage ≡ 256) (long' : length garbage' ≡ 256) where
    -- A new parser and a valid buffer that holds a part of a message of credentials: the handler returns the
    -- same state, sends nothing and leaves the buffer valid and empty, and its parser reads in any bytes
    -- that come later what a new parser reads in all of them.
    pub auth_read-waits :
        AreBytes (contents b)
        → Auth.Spec.decode (contents b) ≡ more
        → IsValid b
        → (b' : Buffer) × (p' : Auth.AuthParser) × (auth_read fd
              (sel, process w d m (asking c b p) sys)
            ≡ returns (socks5_auth, (sel, process w d m (asking c b' p') sys)))
          × IsValid b'
          × (contents b' ≡ [])
          × ((later : List ℕ)
              → AreBytes (contents b ++ later)
              → map_outcome Auth.Spec.strings (Auth.parse p' later)
                ≡ map_outcome Auth.Spec.as_strings (Auth.Spec.decode (contents b ++ later)))
    unfolding auth_read auth_turn
    auth_read-waits y e v =
        let q = same_more Auth.Spec.strings (Auth.parse p (contents b)) (
          Auth.Spec.auth_parser_lem stray garbage garbage' p (contents b) i long long' y
          ∙ ap (map_outcome Auth.Spec.as_strings) e) in
        let (b', p', run, v', e', keep) =
          loop-more (λ c. c.auth_parser) (λ p c. record c { auth_parser = some p })
            Auth.auth_parser_feed Auth.auth_done Auth.auth_error
            (λ p next. do auth_finished fd; next) stay 1 sel (process w d m c sys)
            (λ p. at_state 1 (record c { auth_parser = some p })) (λ b p. refl) (λ b p p'. refl)
            (λ b p.
              stay-at 1 sel w d m (record c { in_buff = b; auth_parser = some p }) sys
                (omega arith))
            (contents b) (waiting b) b p v refl (omega (arith, length-slice v)) q in
        (
          b',
          p',
          run,
          v',
          e',
          λ later y'.
              ap (map_outcome Auth.Spec.strings) (sym (keep later))
              ∙ Auth.Spec.auth_parser_lem stray garbage garbage' p (contents b ++ later) i long
                  long' y',
        )

    -- A new parser and a valid buffer that holds malformed credentials: the handler returns the state of
    -- the error, sends nothing and leaves the buffer valid.
    auth_read-rejects :
        AreBytes (contents b)
        → Auth.Spec.decode (contents b) ≡ bad
        → IsValid b
        → (b' : Buffer) × (p' : Auth.AuthParser) × (auth_read fd
              (sel, process w d m (asking c b p) sys)
            ≡ returns (socks5_error, (sel, process w d m (asking c b' p') sys)))
          × IsValid b'
    unfolding auth_read auth_turn
    auth_read-rejects y e v =
        loop-bad (λ c. c.auth_parser) (λ p c. record c { auth_parser = some p })
          Auth.auth_parser_feed Auth.auth_done Auth.auth_error (λ p next. do auth_finished fd; next)
          stay 1 sel (process w d m c sys) (λ p. at_state 1 (record c { auth_parser = some p }))
          (λ b p. refl) (λ b p p'. refl)
          (λ b p.
            stay-at 1 sel w d m (record c { in_buff = b; auth_parser = some p }) sys (omega arith))
          (contents b) (waiting b) b p v refl (omega (arith, length-slice v))
          (same_bad Auth.Spec.strings (Auth.parse p (contents b)) (
            Auth.Spec.auth_parser_lem stray garbage garbage' p (contents b) i long long' y
            ∙ ap (map_outcome Auth.Spec.as_strings) e))
