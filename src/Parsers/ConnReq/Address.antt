-- ===== src/Parsers/ConnReq/Address.antt =====
-- The loop over DST.ADDR: a run of bytes goes into the array, in order, and a zero is put behind it.
-- `n` is the number of bytes that the loop takes: `dst_addr_len`, or one where that is zero.
use tpe_protos.Common.{
  ℕ, zero, suc, ◌+◌, ◌<◌, ◌≡◌, refl, List, [], ◌∷◌, ◌++◌, length, length-append, set-append, arith,
  ap, ◌∙◌, append_assoc,
}
use tpe_protos.Engine.{Event, parser_feed, parser_set, read_event, unlinked}
use tpe_protos.Parsers.Outcome.{Outcome, more, drive, drive_next}
use tpe_protos.Parsers.ConnReq.{
  ConnReqParser, conn_req_parser_feed, conn_req_parser_definition, parse,
}

-- The bytes that the loop takes.
abbrev pub taken : ℕ → ℕ
taken zero = 1
taken (suc n) = suc n

-- A parser in state `s` of its engine, with its other fields.
abbrev pub at : (ℕ → ℕ) → ℕ → Event → Event → ℕ → ℕ → ℕ → List ℕ → ℕ → ℕ → ConnReqParser
at classes s e1 e2 cmd atyp len addr count port = record {
  parser = record {
    classes = classes;
    def = conn_req_parser_definition;
    state = s;
    e1 = e1;
    e2 = e2;
  };
  cmd = cmd;
  atyp = atyp;
  dst_addr_len = len;
  dst_addr = addr;
  dst_addr_count = count;
  dst_port = port;
}

module _ (cl : ℕ → ℕ) (len n cmd atyp port : ℕ) (takes : taken len ≡ n) where
  -- One byte of the address, which is not the last one.
  address_next :
      (e1 e2 : Event) (acc : List ℕ) (x c : ℕ) (rest : List ℕ)
      → suc (length acc) < n
      → n < 256
      → conn_req_parser_feed (at cl 5 e1 e2 cmd atyp len (acc ++ x ∷ rest) (length acc) port) c ≡ (
        at cl 5
            (read_event 5 c e1)
            (unlinked e2)
            cmd
            atyp
            len
            ((acc ++ c ∷ []) ++ rest)
            (length (acc ++ c ∷ []))
            port,
        5,
      )
  unfolding conn_req_parser_feed parser_feed
  address_next e1 e2 acc x c rest h b =
      ground
        (arith, set-append acc x c rest, length-append acc (c ∷ []), append_assoc acc (c ∷ []) rest)

  address_last :
      (e1 e2 : Event) (acc : List ℕ) (x y c : ℕ) (rest : List ℕ)
      → suc (length acc) ≡ n
      → n < 256
      → conn_req_parser_feed (at cl 5 e1 e2 cmd atyp len (acc ++ x ∷ y ∷ rest) (length acc) port) c
        ≡ (
          at cl 6
              (read_event 5 c e1)
              (unlinked e2)
              cmd
              atyp
              len
              ((acc ++ c ∷ []) ++ 0 ∷ rest)
              (n)
              port,
          6,
        )
  unfolding conn_req_parser_feed parser_feed parser_set
  address_last e1 e2 acc x y c rest h b = ground (
    arith,
    set-append acc x c (y ∷ rest),
    length-append acc (c ∷ []),
    append_assoc acc (c ∷ []) (y ∷ rest),
    set-append (acc ++ c ∷ []) y 0 rest,
  )

  -- Where the parser stands behind a address: the array holds it, closed by a zero.
  pub record AddressRead (e2 : Event) (addr r : List ℕ) (o : Outcome ConnReqParser) : Type 0 where
    pub event : Event
    pub tail : List ℕ
    pub goes_on : o ≡ parse (at cl 6 event e2 cmd atyp len (addr ++ 0 ∷ tail) (n) port) r

  pub parse_address :
      (us : List ℕ) (e1 e2 : Event) (acc rest r : List ℕ)
      → length acc + length us ≡ n
      → 0 < length us
      → n < 256
      → length us < length rest
      → AddressRead
          (unlinked e2)
          (acc ++ us)
          r
          (parse (at cl 5 e1 e2 cmd atyp len (acc ++ rest) (length acc) port) (us ++ r))
  parse_address [] e1 e2 acc rest r e z b l = absurd (omega arith)
  parse_address (c ∷ us) e1 e2 acc [] r e z b l = absurd (omega arith)
  parse_address (c ∷ []) e1 e2 acc (x ∷ []) r e z b l = absurd (omega arith)
  parse_address (c ∷ []) e1 e2 acc (x ∷ y ∷ rest) r e z b l = record {
    event = read_event 5 c e1;
    tail = rest;
    goes_on =
        drive_next conn_req_parser_feed 8 9 _ c r _ 6
          (address_last e1 e2 acc x y c rest (omega arith) b) refl refl;
  }
  parse_address (c ∷ d ∷ us) e1 e2 acc (x ∷ rest) r e z b l =
      let next =
        parse_address (d ∷ us) (read_event 5 c e1) (unlinked e2) (acc ++ c ∷ []) rest r
          (omega (arith, length-append acc (c ∷ []))) (omega arith) b (omega arith) in
      record {
        event = next.event;
        tail = next.tail;
        goes_on =
            drive_next conn_req_parser_feed 8 9 _ c ((d ∷ us) ++ r) _ 5
              (address_next e1 e2 acc x c rest (omega arith) b) refl refl
            ∙ next.goes_on
            ∙ ap
                (λ u.
                  parse
                    (at cl 6 next.event (unlinked e2) cmd atyp len (u ++ 0 ∷ next.tail) (n) port) r)
                (append_assoc acc (c ∷ []) (d ∷ us));
      }

  pub parse_address_short :
      (us : List ℕ) (e1 e2 : Event) (acc rest : List ℕ)
      → length acc + length us < n
      → n < 256
      → length us < length rest
      → parse (at cl 5 e1 e2 cmd atyp len (acc ++ rest) (length acc) port) us ≡ more
  parse_address_short [] e1 e2 acc rest e b l = unfold drive in refl
  parse_address_short (c ∷ us) e1 e2 acc [] e b l = absurd (omega arith)
  parse_address_short (c ∷ us) e1 e2 acc (x ∷ rest) e b l =
      drive_next conn_req_parser_feed 8 9 _ c us _ 5
        (address_next e1 e2 acc x c rest (omega arith) b) refl refl
      ∙ parse_address_short us (read_event 5 c e1) (unlinked e2) (acc ++ c ∷ []) rest
          (omega (arith, length-append acc (c ∷ []))) b (omega arith)
