-- ===== src/Parsers/Auth/Loops.antt =====
-- The two loops of the user and password parser: a run of bytes goes into the array, in order, and
-- a zero is put behind it.
use tpe_protos.Common.{
  ℕ, suc, ◌+◌, ◌<◌, ◌≡◌, refl, List, [], ◌∷◌, ◌++◌, length, length-append, set-append, arith, ap,
  ◌∙◌, append_assoc,
}
use tpe_protos.Engine.{Event, parser_feed, parser_set, read_event, unlinked}
use tpe_protos.Parsers.Outcome.{Outcome, more, drive, drive_next, drive-done, complete}
use tpe_protos.Parsers.Auth.{AuthParser, auth_parser_feed, auth_parser_definition, parse}

-- A parser in state `s` of its engine, with its other fields.
abbrev pub at : (ℕ → ℕ) → ℕ → Event → Event → ℕ → ℕ → List ℕ → ℕ → ℕ → List ℕ → AuthParser
at classes s e1 e2 ulen ucount uname plen pcount passwd = record {
  parser = record { classes = classes; def = auth_parser_definition; state = s; e1 = e1; e2 = e2 };
  username_len = ulen;
  username_count = ucount;
  username = uname;
  password_len = plen;
  password_count = pcount;
  password = passwd;
}

module _ (cl : ℕ → ℕ) (n : ℕ) (plen pcount : ℕ) (passwd : List ℕ) where
  -- One byte of the user name, which is not the last one.
  username_next :
      (e1 e2 : Event) (acc : List ℕ) (x c : ℕ) (rest : List ℕ)
      → suc (length acc) < n
      → n < 256
      → auth_parser_feed (at cl 2 e1 e2 n (length acc) (acc ++ x ∷ rest) plen pcount passwd) c ≡ (
        at cl 2
            (read_event 2 c e1)
            (unlinked e2)
            n
            (length (acc ++ c ∷ []))
            ((acc ++ c ∷ []) ++ rest)
            plen
            pcount
            passwd,
        2,
      )
  unfolding auth_parser_feed parser_feed
  username_next e1 e2 acc x c rest h b =
      ground
        (arith, set-append acc x c rest, length-append acc (c ∷ []), append_assoc acc (c ∷ []) rest)

  username_last :
      (e1 e2 : Event) (acc : List ℕ) (x y c : ℕ) (rest : List ℕ)
      → suc (length acc) ≡ n
      → n < 256
      → auth_parser_feed (at cl 2 e1 e2 n (length acc) (acc ++ x ∷ y ∷ rest) plen pcount passwd) c
        ≡ (
          at cl 3
              (read_event 2 c e1)
              (unlinked e2)
              n
              n
              ((acc ++ c ∷ []) ++ 0 ∷ rest)
              plen
              pcount
              passwd,
          3,
        )
  unfolding auth_parser_feed parser_feed parser_set
  username_last e1 e2 acc x y c rest h b = ground (
    arith,
    set-append acc x c (y ∷ rest),
    length-append acc (c ∷ []),
    append_assoc acc (c ∷ []) (y ∷ rest),
    set-append (acc ++ c ∷ []) y 0 rest,
  )

  -- Where the parser stands behind a user name: the array holds it, closed by a zero.
  pub record NameRead (e2 : Event) (uname r : List ℕ) (o : Outcome AuthParser) : Type 0 where
    pub event : Event
    pub tail : List ℕ
    pub goes_on : o ≡ parse (at cl 3 event e2 n n (uname ++ 0 ∷ tail) plen pcount passwd) r

  pub parse_username :
      (us : List ℕ) (e1 e2 : Event) (acc rest r : List ℕ)
      → length acc + length us ≡ n
      → 0 < length us
      → n < 256
      → length us < length rest
      → NameRead
          (unlinked e2)
          (acc ++ us)
          r
          (parse (at cl 2 e1 e2 n (length acc) (acc ++ rest) plen pcount passwd) (us ++ r))
  parse_username [] e1 e2 acc rest r e z b l = absurd (omega arith)
  parse_username (c ∷ us) e1 e2 acc [] r e z b l = absurd (omega arith)
  parse_username (c ∷ []) e1 e2 acc (x ∷ []) r e z b l = absurd (omega arith)
  parse_username (c ∷ []) e1 e2 acc (x ∷ y ∷ rest) r e z b l = record {
    event = read_event 2 c e1;
    tail = rest;
    goes_on =
        drive_next auth_parser_feed 5 6 _ c r _ 3
          (username_last e1 e2 acc x y c rest (omega arith) b) refl refl;
  }
  parse_username (c ∷ d ∷ us) e1 e2 acc (x ∷ rest) r e z b l =
      let next =
        parse_username (d ∷ us) (read_event 2 c e1) (unlinked e2) (acc ++ c ∷ []) rest r
          (omega (arith, length-append acc (c ∷ []))) (omega arith) b (omega arith) in
      record {
        event = next.event;
        tail = next.tail;
        goes_on =
            drive_next auth_parser_feed 5 6 _ c ((d ∷ us) ++ r) _ 2
              (username_next e1 e2 acc x c rest (omega arith) b) refl refl
            ∙ next.goes_on
            ∙ ap
                (λ u.
                  parse
                    (at cl 3 next.event (unlinked e2) n n (u ++ 0 ∷ next.tail) plen pcount passwd)
                    r)
                (append_assoc acc (c ∷ []) (d ∷ us));
      }

  pub parse_username_short :
      (us : List ℕ) (e1 e2 : Event) (acc rest : List ℕ)
      → length acc + length us < n
      → n < 256
      → length us < length rest
      → parse (at cl 2 e1 e2 n (length acc) (acc ++ rest) plen pcount passwd) us ≡ more
  parse_username_short [] e1 e2 acc rest e b l = unfold drive in refl
  parse_username_short (c ∷ us) e1 e2 acc [] e b l = absurd (omega arith)
  parse_username_short (c ∷ us) e1 e2 acc (x ∷ rest) e b l =
      drive_next auth_parser_feed 5 6 _ c us _ 2 (username_next e1 e2 acc x c rest (omega arith) b)
        refl refl
      ∙ parse_username_short us (read_event 2 c e1) (unlinked e2) (acc ++ c ∷ []) rest
          (omega (arith, length-append acc (c ∷ []))) b (omega arith)

module _ (cl : ℕ → ℕ) (n : ℕ) (ulen ucount : ℕ) (uname : List ℕ) where
  -- One byte of the password, which is not the last one.
  password_next :
      (e1 e2 : Event) (acc : List ℕ) (x c : ℕ) (rest : List ℕ)
      → suc (length acc) < n
      → n < 256
      → auth_parser_feed (at cl 4 e1 e2 ulen ucount uname n (length acc) (acc ++ x ∷ rest)) c ≡ (
        at cl 4
            (read_event 4 c e1)
            (unlinked e2)
            ulen
            ucount
            uname
            n
            (length (acc ++ c ∷ []))
            ((acc ++ c ∷ []) ++ rest),
        4,
      )
  unfolding auth_parser_feed parser_feed
  password_next e1 e2 acc x c rest h b =
      ground
        (arith, set-append acc x c rest, length-append acc (c ∷ []), append_assoc acc (c ∷ []) rest)

  password_last :
      (e1 e2 : Event) (acc : List ℕ) (x y c : ℕ) (rest : List ℕ)
      → suc (length acc) ≡ n
      → n < 256
      → auth_parser_feed (at cl 4 e1 e2 ulen ucount uname n (length acc) (acc ++ x ∷ y ∷ rest)) c
        ≡ (
          at cl 5
              (read_event 4 c e1)
              (unlinked e2)
              ulen
              ucount
              uname
              n
              n
              ((acc ++ c ∷ []) ++ 0 ∷ rest),
          5,
        )
  unfolding auth_parser_feed parser_feed parser_set
  password_last e1 e2 acc x y c rest h b = ground (
    arith,
    set-append acc x c (y ∷ rest),
    length-append acc (c ∷ []),
    append_assoc acc (c ∷ []) (y ∷ rest),
    set-append (acc ++ c ∷ []) y 0 rest,
  )

  -- Where the parser stands behind a password: the array holds it, closed by a zero.
  pub record PasswordRead (e2 : Event) (passwd r : List ℕ) (o : Outcome AuthParser) : Type 0 where
    pub event : Event
    pub tail : List ℕ
    pub goes_on : o ≡ complete (at cl 5 event e2 ulen ucount uname n n (passwd ++ 0 ∷ tail)) r

  pub parse_password :
      (us : List ℕ) (e1 e2 : Event) (acc rest r : List ℕ)
      → length acc + length us ≡ n
      → 0 < length us
      → n < 256
      → length us < length rest
      → PasswordRead
          (unlinked e2)
          (acc ++ us)
          r
          (parse (at cl 4 e1 e2 ulen ucount uname n (length acc) (acc ++ rest)) (us ++ r))
  parse_password [] e1 e2 acc rest r e z b l = absurd (omega arith)
  parse_password (c ∷ us) e1 e2 acc [] r e z b l = absurd (omega arith)
  parse_password (c ∷ []) e1 e2 acc (x ∷ []) r e z b l = absurd (omega arith)
  parse_password (c ∷ []) e1 e2 acc (x ∷ y ∷ rest) r e z b l = record {
    event = read_event 4 c e1;
    tail = rest;
    goes_on =
        drive-done auth_parser_feed 5 6 _ c r _ 5
          (password_last e1 e2 acc x y c rest (omega arith) b) refl;
  }
  parse_password (c ∷ d ∷ us) e1 e2 acc (x ∷ rest) r e z b l =
      let next =
        parse_password (d ∷ us) (read_event 4 c e1) (unlinked e2) (acc ++ c ∷ []) rest r
          (omega (arith, length-append acc (c ∷ []))) (omega arith) b (omega arith) in
      record {
        event = next.event;
        tail = next.tail;
        goes_on =
            drive_next auth_parser_feed 5 6 _ c ((d ∷ us) ++ r) _ 4
              (password_next e1 e2 acc x c rest (omega arith) b) refl refl
            ∙ next.goes_on
            ∙ ap
                (λ u.
                  complete
                    (at cl 5 next.event (unlinked e2) ulen ucount uname n n (u ++ 0 ∷ next.tail)) r)
                (append_assoc acc (c ∷ []) (d ∷ us));
      }

  pub parse_password_short :
      (us : List ℕ) (e1 e2 : Event) (acc rest : List ℕ)
      → length acc + length us < n
      → n < 256
      → length us < length rest
      → parse (at cl 4 e1 e2 ulen ucount uname n (length acc) (acc ++ rest)) us ≡ more
  parse_password_short [] e1 e2 acc rest e b l = unfold drive in refl
  parse_password_short (c ∷ us) e1 e2 acc [] e b l = absurd (omega arith)
  parse_password_short (c ∷ us) e1 e2 acc (x ∷ rest) e b l =
      drive_next auth_parser_feed 5 6 _ c us _ 4 (password_next e1 e2 acc x c rest (omega arith) b)
        refl refl
      ∙ parse_password_short us (read_event 4 c e1) (unlinked e2) (acc ++ c ∷ []) rest
          (omega (arith, length-append acc (c ∷ []))) b (omega arith)
