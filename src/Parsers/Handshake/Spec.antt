-- ===== src/Parsers/Handshake/Spec.antt =====
-- The method selection message read directly from its bytes, and the parser against it.
use tpe_protos.Common.{
  ℕ, zero, suc, ◌+◌, ◌<◌, ◌≡◌, refl, List, [], ◌∷◌, some, Bool, true, false, ◌||◌, ◌&&◌, not, ◌==◌,
  ltb, if◌then◌else◌, take, drop, length, arith, Bool-cases, inl, inr, ap, ◌∙◌,
}
use mathlib.Core.Option.{some-injective}
use mathlib.Core.Path.{subst}
use tpe_protos.Engine.{
  read_event, unlinked, Event, parser_feed, zero_event, parser_init, parser_no_classes,
}
use tpe_protos.Parsers.Outcome.{
  Outcome, more, bad, complete, map_outcome, AreBytes, drive, drive_next, drive_bad,
}
use tpe_protos.Parsers.Handshake.{
  HandshakeParser, handshake_parser_init, handshake_parser_feed, handshake_parser_definition, parse,
  is_valid_socks5_auth_method,
}

all_valid : List ℕ → Bool
unfolding is_valid_socks5_auth_method
all_valid [] = true
all_valid (m ∷ ms) = ltb m 3 && all_valid ms

-- Is the method `m` among those offered?
pub offers : ℕ → List ℕ → Bool
offers m [] = false
offers m (x ∷ xs) = x == m || offers m xs

-- The bytes that METHODS takes: with no method announced one byte is still read.
wanted : ℕ → ℕ
wanted zero = 1
wanted (suc n) = suc n

-- METHODS, of which `n` were announced.
decode_methods : ℕ → List ℕ → Outcome (Bool × Bool)
unfolding all_valid offers wanted
decode_methods n r =
    if not (all_valid (take (wanted n) r))
    then bad
    else if ltb (length r) (wanted n)
    then more
    else complete (offers 0 (take n r), offers 2 (take n r)) (drop (wanted n) r)

-- NMETHODS and METHODS.
decode_nmethods : List ℕ → Outcome (Bool × Bool)
unfolding decode_methods
decode_nmethods [] = more
decode_nmethods (n ∷ r) = decode_methods n r

-- The message. It says whether "no authentication" and "user and password" are offered.
unfoldable pub decode : List ℕ → Outcome (Bool × Bool)
unfolding decode_nmethods
decode [] = more
decode (v ∷ r) = if v == 5 then decode_nmethods r else bad

-- A parser in state `s` of its engine, whatever its events are.
abbrev at : (ℕ → ℕ) → ℕ → Event → Event → ℕ → ℕ → Bool → Bool → HandshakeParser
at classes s e1 e2 n count na up = record {
  parser = record {
    classes = classes;
    def = handshake_parser_definition;
    state = s;
    e1 = e1;
    e2 = e2;
  };
  nmethods = n;
  method_count = count;
  no_auth = na;
  user_pass_auth = up;
}

abbrev pub result : HandshakeParser → Bool × Bool
result p = (p.no_auth, p.user_pass_auth)

-- What is left to read when `k + 1` methods are missing.
remaining : ℕ → Bool → Bool → List ℕ → Outcome (Bool × Bool)
unfolding all_valid offers
remaining k na up r =
    if not (all_valid (take (suc k) r))
    then bad
    else if ltb (length r) (suc k)
    then more
    else complete (na || offers 0 (take (suc k) r), up || offers 2 (take (suc k) r))
        (drop (suc k) r)

remaining-cons :
    (k : ℕ) (na up : Bool) (c : ℕ) (cs : List ℕ)
    → remaining (suc k) na up (c ∷ cs) ≡ (
        if is_valid_socks5_auth_method c then remaining k (na || c == 0) (up || c == 2) cs else bad)
unfolding remaining
remaining-cons k na up c cs = ground arith

module _ (cl : ℕ → ℕ) (e1 e2 : Event) (n count : ℕ) (na up : Bool) (c : ℕ) where
  -- A method that is not the last one.
  feed-valid :
      suc count < n
      → n < 256
      → is_valid_socks5_auth_method c ≡ true
      → handshake_parser_feed (at cl 2 e1 e2 n count na up) c
        ≡ (at cl 2 (read_event 2 c e1) (unlinked e2) n (suc count) (na || c == 0) (up || c == 2), 2)
  unfolding handshake_parser_feed parser_feed
  feed-valid h b v = ground arith

  feed-invalid :
      is_valid_socks5_auth_method c ≡ false
      → (handshake_parser_feed (at cl 2 e1 e2 n count na up) c).1 ≡ 4
  unfolding handshake_parser_feed parser_feed
  feed-invalid v = ground arith

parse_methods :
    (cl : ℕ → ℕ) (e1 e2 : Event) (n k count : ℕ) (na up : Bool) (r : List ℕ)
    → n < 256
    → count + suc k ≡ n
    → map_outcome result (parse (at cl 2 e1 e2 n count na up) r) ≡ remaining k na up r
unfolding drive
parse_methods cl e1 e2 n k count na up [] h e = unfold remaining in ground arith
parse_methods cl e1 e2 n zero count na up (c ∷ cs) h e =
    unfold handshake_parser_feed parser_feed remaining in ground arith
parse_methods cl e1 e2 n (suc k) count na up (c ∷ cs) h e =
    elim (Bool-cases (is_valid_socks5_auth_method c)) [
      | inl v ↦
          rw (remaining-cons, v, feed-valid cl e1 e2 n count na up c (omega arith) h v)
            (parse_methods cl (read_event 2 c e1) (unlinked e2) n k (suc count) (na || c == 0)
              (up || c == 2) cs h (omega arith))
      | inr v ↦ rw (remaining-cons, v) (ground (arith, feed-invalid cl e1 e2 n count na up c v))
    ]

-- The loop of `HANDSHAKE_METHODS` for a positive count is the reading of METHODS.
remaining-eq-decode : (n : ℕ) (r : List ℕ) → remaining n false false r ≡ decode_methods (suc n) r
unfolding remaining decode_methods
remaining-eq-decode n r = refl

parse_nmethods :
    (cl : ℕ → ℕ) (e1 e2 : Event) (r : List ℕ)
    → AreBytes r
    → map_outcome result (parse (at cl 1 e1 e2 0 0 false false) r) ≡ decode_nmethods r
unfolding handshake_parser_feed parser_feed decode_nmethods
parse_nmethods cl e1 e2 [] h = unfold drive in refl
parse_nmethods cl e1 e2 (zero ∷ []) h = unfold drive in refl
parse_nmethods cl e1 e2 (zero ∷ m ∷ ms) h = unfold drive in ground arith
parse_nmethods cl e1 e2 (suc n ∷ r) h =
    ap (map_outcome result) (drive_next handshake_parser_feed 3 4 _ (suc n) r _ 1 refl refl refl)
    ∙ parse_methods cl (read_event 1 (suc n) e1) (unlinked e2) (suc n) n 0 false false r h.0
        (omega arith)
    ∙ remaining-eq-decode n r

parse_version :
    (cl : ℕ → ℕ) (bytes : List ℕ)
    → AreBytes bytes
    → map_outcome result (parse (at cl 0 zero_event zero_event 0 0 false false) bytes)
      ≡ decode bytes
unfolding decode handshake_parser_feed parser_feed
parse_version cl [] h = unfold drive in refl
parse_version cl (v ∷ r) h = elim (Bool-cases (v == 5)) [
  | inl e ↦ rw e (
      ap (map_outcome result) (
        drive_next handshake_parser_feed 3 4 _ v r
          (at cl 1 (read_event 0 v zero_event) zero_event 0 0 false false) 0 (ground arith) refl
          refl)
      ∙ parse_nmethods cl (read_event 0 v zero_event) zero_event r h.1)
  | inr e ↦ rw e (
      ap (map_outcome result) (
        drive_bad handshake_parser_feed 3 4 _ v r
          (at cl 4 (read_event 4 v zero_event) zero_event 0 0 false false) 4 (ground arith) refl
          refl))
]

-- A freshly initialised handshake parser, fed with any bytes, finds what `decode` reads directly
-- from them: it asks for more, rejects, or completes at the same byte with the same two flags.
-- What lies behind the class table does not matter.
pub handshake_parser_lem :
    (stray : ℕ → ℕ) (p : HandshakeParser) (bytes : List ℕ)
    → handshake_parser_init true true stray ≡ some p
    → AreBytes bytes
    → map_outcome result (parse p bytes) ≡ decode bytes
unfolding handshake_parser_init parser_init
handshake_parser_lem stray p bytes e h =
    subst (λ q. map_outcome result (parse q bytes) ≡ decode bytes) (some-injective _ _ e)
      (parse_version (parser_no_classes stray) bytes h)
