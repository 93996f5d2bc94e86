-- ===== src/Parsers/ConnReq/Spec.antt =====
-- The connection request read directly from its bytes, and the parser against it.
use mathlib.Core.Option.{some-injective}
use mathlib.Core.Path.{subst}
use tpe_protos.Common.{
  ℕ, zero, suc, ◌+◌, ◌*◌, ◌≤◌, ◌<◌, ◌≡◌, refl, List, [], ◌∷◌, ◌++◌, true, ◌==◌, ltb, ◌||◌,
  if◌then◌else◌, take, drop, length, length-take, take-append-drop, arith, ap, ◌∙◌, Bool-cases, inl,
  inr, some, take_append-exact, bit_or-shift,
}
use tpe_protos.Engine.{
  Event, parser_feed, zero_event, read_event, unlinked, parser_init, parser_no_classes,
}
use tpe_protos.Parsers.Outcome.{
  Outcome, more, bad, complete, map_outcome, AreBytes, AreBytes-drop, drive, drive_next, drive_bad,
  drive-done,
}
use tpe_protos.Parsers.ConnReq.{
  ConnReqParser, conn_req_parser_init, conn_req_parser_feed, parse, join_port,
}
use tpe_protos.Parsers.ConnReq.Address.{at, taken, AddressRead, parse_address, parse_address_short}

-- CMD, ATYP, the bytes of DST.ADDR and DST.PORT.
pub record Request : Type 0 where
  pub cmd : ℕ
  pub atyp : ℕ
  pub addr : List ℕ
  pub port : ℕ

decode_port : ℕ → ℕ → List ℕ → List ℕ → Outcome Request
decode_port cmd atyp addr [] = more
decode_port cmd atyp addr (hi ∷ []) = more
decode_port cmd atyp addr (hi ∷ lo ∷ r) =
    complete (record { cmd = cmd; atyp = atyp; addr = addr; port = hi * 256 + lo }) r

-- DST.ADDR of `len` bytes. An empty address still costs one byte.
decode_addr : ℕ → ℕ → ℕ → List ℕ → Outcome Request
unfolding decode_port
decode_addr cmd atyp len r =
    if ltb (length r) (taken len)
    then more
    else decode_port cmd atyp (take len r) (drop (taken len) r)

decode_domain : ℕ → List ℕ → Outcome Request
unfolding decode_addr
decode_domain cmd [] = more
decode_domain cmd (len ∷ r) = decode_addr cmd 3 len r

decode_atyp : ℕ → List ℕ → Outcome Request
unfolding decode_domain
decode_atyp cmd [] = more
decode_atyp cmd (a ∷ r) =
    if a == 1
    then decode_addr cmd 1 4 r
    else if a == 3
    then decode_domain cmd r
    else if a == 4
    then decode_addr cmd 4 16 r
    else bad

decode_rsv : ℕ → List ℕ → Outcome Request
unfolding decode_atyp
decode_rsv cmd [] = more
decode_rsv cmd (z ∷ r) = if z == 0 then decode_atyp cmd r else bad

decode_cmd : List ℕ → Outcome Request
unfolding decode_rsv
decode_cmd [] = more
decode_cmd (c ∷ r) = if c == 1 || (c == 2 || c == 3) then decode_rsv c r else bad

-- The message.
unfoldable pub decode : List ℕ → Outcome Request
unfolding decode_cmd
decode [] = more
decode (v ∷ r) = if v == 5 then decode_cmd r else bad

-- What the server reads from the parser.
abbrev pub request : ConnReqParser → Request
request p = record {
  cmd = p.cmd;
  atyp = p.atyp;
  addr = take p.dst_addr_len p.dst_addr;
  port = p.dst_port;
}

join_port_lem : (hi lo : ℕ) → hi < 256 → lo < 256 → join_port hi lo ≡ hi * 256 + lo
join_port_lem hi lo h l = ground (arith, bit_or-shift 8 hi lo)

take-stored :
    (len : ℕ) (r tail : List ℕ)
    → taken len ≤ length r
    → take len (take (taken len) r ++ 0 ∷ tail) ≡ take len r
take-stored zero r tail h = refl
take-stored (suc len) r tail h =
    take_append-exact (suc len) (take (suc len) r) (0 ∷ tail)
      (omega (arith, length-take (suc len) r))

parse_port :
    (cl : ℕ → ℕ) (e1 e2 : Event) (cmd atyp len : ℕ) (mem : List ℕ) (count port : ℕ) (r : List ℕ)
    → AreBytes r
    → map_outcome request (parse (at cl 6 e1 e2 cmd atyp len mem count port) r)
      ≡ decode_port cmd atyp (take len mem) r
unfolding decode_port conn_req_parser_feed parser_feed
parse_port cl e1 e2 cmd atyp len mem count port [] h = unfold drive in refl
parse_port cl e1 e2 cmd atyp len mem count port (hi ∷ []) h = unfold drive in refl
parse_port cl e1 e2 cmd atyp len mem count port (hi ∷ lo ∷ r) h =
    ap (map_outcome request) (
      drive_next conn_req_parser_feed 8 9 _ hi (lo ∷ r)
        (at cl 7 (read_event 6 hi e1) (unlinked e2) cmd atyp len mem count hi) 6 refl refl refl
      ∙ drive-done conn_req_parser_feed 8 9 _ lo r
          (at cl 8 (read_event 7 lo (read_event 6 hi e1)) (unlinked e2) cmd atyp len mem count
            (join_port hi lo))
          8 refl refl)
    ∙ rw (join_port_lem hi lo h.0 h.1.0)

taken_bounds : (len : ℕ) → len < 256 → (0 < taken len) × (taken len < 256)
taken_bounds zero h = (omega arith, omega arith)
taken_bounds (suc len) h = (omega arith, h)

parse_addr :
    (cl : ℕ → ℕ) (e1 e2 : Event) (cmd atyp len port : ℕ) (mem r : List ℕ)
    → length mem ≡ 256
    → len < 256
    → AreBytes r
    → map_outcome request (parse (at cl 5 e1 e2 cmd atyp len mem 0 port) r)
      ≡ decode_addr cmd atyp len r
unfolding decode_addr
parse_addr cl e1 e2 cmd atyp len port mem r l b h =
    let n = taken len in
    let (positive, byte) = taken_bounds len b in
    elim (Bool-cases (ltb (length r) n)) [
      | inl e ↦ rw e (
          ap (map_outcome request) (
            parse_address_short cl len n cmd atyp port refl r e1 e2 [] mem (ground arith) byte
              (ground arith)))
      | inr e ↦
          let read : AddressRead cl len n cmd atyp port refl (unlinked e2) (take n r) (drop n r)
              (parse (at cl 5 e1 e2 cmd atyp len mem 0 port) r) =
            rw (take-append-drop n r) at (
              parse_address cl len n cmd atyp port refl (take n r) e1 e2 [] mem (drop n r)
                (ground (arith, length-take n r)) (ground (arith, length-take n r)) byte
                (ground (arith, length-take n r))) in
          rw (e, ← take-stored len r read.tail (ground arith))
            (ap (map_outcome request) read.goes_on
              ∙ parse_port cl read.event (unlinked e2) cmd atyp len (take n r ++ 0 ∷ read.tail) n
                  port (drop n r) (AreBytes-drop n r h))
    ]

module _ (cl : ℕ → ℕ) (mem : List ℕ) (sized : length mem ≡ 256) where
  -- The parser in front of the address, where most fields are still 0.
  abbrev before : ℕ → Event → Event → ℕ → ℕ → ConnReqParser
  before s e1 e2 cmd atyp = at cl s e1 e2 cmd atyp 0 mem 0 0

  parse_domain :
      (e1 e2 : Event) (cmd : ℕ) (r : List ℕ)
      → AreBytes r
      → map_outcome request (parse (before 4 e1 e2 cmd 3) r) ≡ decode_domain cmd r
  unfolding decode_domain conn_req_parser_feed parser_feed
  parse_domain e1 e2 cmd [] h = unfold drive in refl
  parse_domain e1 e2 cmd (len ∷ r) h =
      ap (map_outcome request) (
        drive_next conn_req_parser_feed 8 9 _ len r
          (at cl 5 (read_event 4 len e1) (unlinked e2) cmd 3 len mem 0 0) 4 refl refl refl)
      ∙ parse_addr cl (read_event 4 len e1) (unlinked e2) cmd 3 len 0 mem r sized h.0 h.1

  parse_atyp :
      (e1 e2 : Event) (cmd : ℕ) (r : List ℕ)
      → AreBytes r
      → map_outcome request (parse (before 3 e1 e2 cmd 0) r) ≡ decode_atyp cmd r
  unfolding decode_atyp conn_req_parser_feed parser_feed
  parse_atyp e1 e2 cmd [] h = unfold drive in refl
  parse_atyp e1 e2 cmd (a ∷ r) h =
      let e1' = read_event 3 a e1 in
      elim (Bool-cases (a == 1)) [
        | inl e ↦ rw e (
            ap (map_outcome request) (
              drive_next conn_req_parser_feed 8 9 _ a r (at cl 5 e1' (unlinked e2) cmd 1 4 mem 0 0)
                3 (ground arith) refl refl)
            ∙ parse_addr cl e1' (unlinked e2) cmd 1 4 0 mem r sized (omega arith) h.1)
        | inr not_ipv4 ↦ rw not_ipv4 (elim (Bool-cases (a == 3)) [
          | inl e ↦ rw e (
              ap (map_outcome request) (
                drive_next conn_req_parser_feed 8 9 _ a r (before 4 e1' (unlinked e2) cmd 3) 3
                  (ground arith) refl refl)
              ∙ parse_domain e1' (unlinked e2) cmd r h.1)
          | inr not_domain ↦ rw not_domain (elim (Bool-cases (a == 4)) [
            | inl e ↦ rw e (
                ap (map_outcome request) (
                  drive_next conn_req_parser_feed 8 9 _ a r
                    (at cl 5 e1' (unlinked e2) cmd 4 16 mem 0 0) 3 (ground arith) refl refl)
                ∙ parse_addr cl e1' (unlinked e2) cmd 4 16 0 mem r sized (omega arith) h.1)
            | inr e ↦ rw e (
                ap (map_outcome request) (
                  drive_bad conn_req_parser_feed 8 9 _ a r
                    (before 9 (read_event 9 a e1) (unlinked e2) cmd 0) 9 (ground arith) refl refl))
          ])
        ])
      ]

  parse_rsv :
      (e1 e2 : Event) (cmd : ℕ) (r : List ℕ)
      → AreBytes r
      → map_outcome request (parse (before 2 e1 e2 cmd 0) r) ≡ decode_rsv cmd r
  unfolding decode_rsv conn_req_parser_feed parser_feed
  parse_rsv e1 e2 cmd [] h = unfold drive in refl
  parse_rsv e1 e2 cmd (z ∷ r) h = elim (Bool-cases (z == 0)) [
    | inl e ↦ rw e (
        ap (map_outcome request) (
          drive_next conn_req_parser_feed 8 9 _ z r
            (before 3 (read_event 2 z e1) (unlinked e2) cmd 0) 2 (ground arith) refl refl)
        ∙ parse_atyp (read_event 2 z e1) (unlinked e2) cmd r h.1)
    | inr e ↦ rw e (
        ap (map_outcome request) (
          drive_bad conn_req_parser_feed 8 9 _ z r
            (before 9 (read_event 9 z e1) (unlinked e2) cmd 0) 9 (ground arith) refl refl))
  ]

  parse_cmd :
      (e1 e2 : Event) (r : List ℕ)
      → AreBytes r
      → map_outcome request (parse (before 1 e1 e2 0 0) r) ≡ decode_cmd r
  unfolding decode_cmd conn_req_parser_feed parser_feed
  parse_cmd e1 e2 [] h = unfold drive in refl
  parse_cmd e1 e2 (c ∷ r) h = elim (Bool-cases (c == 1 || (c == 2 || c == 3))) [
    | inl e ↦ rw e (
        ap (map_outcome request) (
          drive_next conn_req_parser_feed 8 9 _ c r (before 2 (read_event 1 c e1) (unlinked e2) c 0)
            1 (ground arith) refl refl)
        ∙ parse_rsv (read_event 1 c e1) (unlinked e2) c r h.1)
    | inr e ↦ rw e (
        ap (map_outcome request) (
          drive_bad conn_req_parser_feed 8 9 _ c r (before 9 (read_event 9 c e1) (unlinked e2) 0 0)
            9 (ground arith) refl refl))
  ]

  parse_version :
      (r : List ℕ)
      → AreBytes r
      → map_outcome request (parse (before 0 zero_event zero_event 0 0) r) ≡ decode r
  unfolding decode conn_req_parser_feed parser_feed
  parse_version [] h = unfold drive in refl
  parse_version (v ∷ r) h = elim (Bool-cases (v == 5)) [
    | inl e ↦ rw e (
        ap (map_outcome request) (
          drive_next conn_req_parser_feed 8 9 _ v r
            (before 1 (read_event 0 v zero_event) zero_event 0 0) 0 (ground arith) refl refl)
        ∙ parse_cmd (read_event 0 v zero_event) zero_event r h.1)
    | inr e ↦ rw e (
        ap (map_outcome request) (
          drive_bad conn_req_parser_feed 8 9 _ v r
            (before 9 (read_event 9 v zero_event) zero_event 0 0) 9 (ground arith) refl refl))
  ]

-- A freshly initialised request parser, fed with any bytes, finds what `decode` reads directly
-- from them: it asks for more, rejects, or completes at the same byte with the same command,
-- address type, address and port. Neither what lies behind the class table nor what `malloc` left
-- in the array of 256 bytes matters.
pub conn_req_parser_lem :
    (stray : ℕ → ℕ) (mem : List ℕ) (p : ConnReqParser) (bytes : List ℕ)
    → conn_req_parser_init true true stray mem ≡ some p
    → length mem ≡ 256
    → AreBytes bytes
    → map_outcome request (parse p bytes) ≡ decode bytes
unfolding conn_req_parser_init parser_init
conn_req_parser_lem stray mem p bytes e l h =
    subst (λ q. map_outcome request (parse q bytes) ≡ decode bytes) (some-injective _ _ e)
      (parse_version (parser_no_classes stray) mem l bytes h)
