-- ===== src/Parsers/Auth/Spec.antt =====
-- The user and password message read directly from its bytes, and the parser against it.
use mathlib.Core.Option.{some-injective}
use mathlib.Core.Path.{subst}
use tpe_protos.Common.{
  ℕ, zero, suc, ◌≤◌, ◌<◌, ◌≡◌, refl, List, [], ◌∷◌, ◌++◌, true, ◌==◌, ltb, if◌then◌else◌, take,
  drop, length, length-take, take-append-drop, arith, ap, ◌∙◌, Bool-cases, inl, inr, some, c_string,
  c_string-append_zero,
}
use tpe_protos.Engine.{
  Event, parser_feed, zero_event, read_event, unlinked, parser_init, parser_no_classes,
}
use tpe_protos.Parsers.Outcome.{
  Outcome, more, bad, complete, map_outcome, AreBytes, AreBytes-drop, drive, drive_next, drive_bad,
}
use tpe_protos.Parsers.Auth.{AuthParser, auth_parser_init, auth_parser_feed, parse}
use tpe_protos.Parsers.Auth.Loops.{
  at, NameRead, PasswordRead, parse_username, parse_username_short, parse_password,
  parse_password_short,
}

-- PLEN and PASSWD, behind the user name `uname`.
decode_password : List ℕ → List ℕ → Outcome (List ℕ × List ℕ)
decode_password uname [] = more
decode_password uname (zero ∷ r) = bad
decode_password uname (suc n ∷ r) =
    if ltb (length r) (suc n) then more else complete (uname, take (suc n) r) (drop (suc n) r)

-- ULEN and UNAME, and what follows.
decode_username : List ℕ → Outcome (List ℕ × List ℕ)
unfolding decode_password
decode_username [] = more
decode_username (zero ∷ r) = bad
decode_username (suc n ∷ r) =
    if ltb (length r) (suc n) then more else decode_password (take (suc n) r) (drop (suc n) r)

-- The message: the bytes of the user name and of the password.
unfoldable pub decode : List ℕ → Outcome (List ℕ × List ℕ)
unfolding decode_username
decode [] = more
decode (v ∷ r) = if v == 1 then decode_username r else bad

-- What the server reads from the parser's arrays, and from the two fields of the message.
abbrev pub strings : AuthParser → List ℕ × List ℕ
strings p = (c_string p.username, c_string p.password)

abbrev pub as_strings : List ℕ × List ℕ → List ℕ × List ℕ
as_strings (u, p) = (c_string u, c_string p)

module _ (cl : ℕ → ℕ) (n : ℕ) (e1 e2 : Event) (len count : ℕ) (other mem r : List ℕ)
    (positive : 0 < n) (byte : n < 256) (sized : length mem ≡ 256) where
  -- Enough bytes for the user name.
  username_read :
      n ≤ length r
      → NameRead cl n len count other
          (unlinked e2)
          (take n r)
          (drop n r)
          (parse (at cl 2 e1 e2 n 0 mem len count other) r)
  username_read h = rw (take-append-drop n r) at (
      parse_username cl n len count other (take n r) e1 e2 [] mem (drop n r)
        (omega (arith, length-take n r)) (omega (arith, length-take n r)) byte
        (omega (arith, length-take n r)))

  -- Enough bytes for the password.
  password_read :
      n ≤ length r
      → PasswordRead cl n len count other
          (unlinked e2)
          (take n r)
          (drop n r)
          (parse (at cl 4 e1 e2 len count other n 0 mem) r)
  password_read h = rw (take-append-drop n r) at (
      parse_password cl n len count other (take n r) e1 e2 [] mem (drop n r)
        (omega (arith, length-take n r)) (omega (arith, length-take n r)) byte
        (omega (arith, length-take n r)))

-- A positive PLEN and a positive ULEN.
password_len_read :
    (cl : ℕ → ℕ) (e1 e2 : Event) (n m : ℕ) (uname passwd r : List ℕ)
    → parse (at cl 3 e1 e2 n n uname 0 0 passwd) (suc m ∷ r)
      ≡ parse (at cl 4 (read_event 3 (suc m) e1) (unlinked e2) n n uname (suc m) 0 passwd) r
unfolding auth_parser_feed parser_feed
password_len_read cl e1 e2 n m uname passwd r =
    drive_next auth_parser_feed 5 6 _ (suc m) r
      (at cl 4 (read_event 3 (suc m) e1) (unlinked e2) n n uname (suc m) 0 passwd) 3 (ground arith)
      refl refl

username_len_read :
    (cl : ℕ → ℕ) (e1 e2 : Event) (m : ℕ) (uname passwd r : List ℕ)
    → parse (at cl 1 e1 e2 0 0 uname 0 0 passwd) (suc m ∷ r)
      ≡ parse (at cl 2 (read_event 1 (suc m) e1) (unlinked e2) (suc m) 0 uname 0 0 passwd) r
unfolding auth_parser_feed parser_feed
username_len_read cl e1 e2 m uname passwd r =
    drive_next auth_parser_feed 5 6 _ (suc m) r
      (at cl 2 (read_event 1 (suc m) e1) (unlinked e2) (suc m) 0 uname 0 0 passwd) 1 (ground arith)
      refl refl

parse_password_len :
    (cl : ℕ → ℕ) (e1 e2 : Event) (n : ℕ) (us tail passwd r : List ℕ)
    → length passwd ≡ 256
    → AreBytes r
    → map_outcome strings (parse (at cl 3 e1 e2 n n (us ++ 0 ∷ tail) 0 0 passwd) r)
      ≡ map_outcome as_strings (decode_password us r)
unfolding decode_password
parse_password_len cl e1 e2 n us tail passwd [] l h = unfold drive in refl
parse_password_len cl e1 e2 n us tail passwd (zero ∷ r) l h =
    unfold drive auth_parser_feed parser_feed in refl
parse_password_len cl e1 e2 n us tail passwd (suc m ∷ r) l h =
    let uname = us ++ 0 ∷ tail in
    let e1' = read_event 3 (suc m) e1 in
    elim (Bool-cases (ltb (length r) (suc m))) [
      | inl e ↦
          rw (e, password_len_read)
            (ap (map_outcome strings) (
              parse_password_short cl (suc m) n n uname r e1' (unlinked e2) [] passwd (ground arith)
                h.0 (ground arith)))
      | inr e ↦
          let read =
            password_read cl (suc m) e1' (unlinked e2) n n uname passwd r (omega arith) h.0 l
              (ground arith) in
          rw (e, password_len_read)
            (ap (map_outcome strings) read.goes_on ∙ simp c_string-append_zero)
    ]

parse_username_len :
    (cl : ℕ → ℕ) (e1 e2 : Event) (uname passwd r : List ℕ)
    → length uname ≡ 256
    → length passwd ≡ 256
    → AreBytes r
    → map_outcome strings (parse (at cl 1 e1 e2 0 0 uname 0 0 passwd) r)
      ≡ map_outcome as_strings (decode_username r)
unfolding decode_username
parse_username_len cl e1 e2 uname passwd [] k l h = unfold drive in refl
parse_username_len cl e1 e2 uname passwd (zero ∷ r) k l h =
    unfold drive auth_parser_feed parser_feed in refl
parse_username_len cl e1 e2 uname passwd (suc m ∷ r) k l h =
    let e1' = read_event 1 (suc m) e1 in
    elim (Bool-cases (ltb (length r) (suc m))) [
      | inl e ↦
          rw (e, username_len_read)
            (ap (map_outcome strings) (
              parse_username_short cl (suc m) 0 0 passwd r e1' (unlinked e2) [] uname (ground arith)
                h.0 (ground arith)))
      | inr e ↦
          let read =
            username_read cl (suc m) e1' (unlinked e2) 0 0 passwd uname r (omega arith) h.0 k
              (ground arith) in
          rw (e, username_len_read)
            (ap (map_outcome strings) read.goes_on
              ∙ parse_password_len cl read.event (unlinked (unlinked e2)) (suc m) (take (suc m) r)
                  read.tail passwd (drop (suc m) r) l (AreBytes-drop (suc m) r h.1))
    ]

parse_version :
    (cl : ℕ → ℕ) (uname passwd bytes : List ℕ)
    → length uname ≡ 256
    → length passwd ≡ 256
    → AreBytes bytes
    → map_outcome strings (parse (at cl 0 zero_event zero_event 0 0 uname 0 0 passwd) bytes)
      ≡ map_outcome as_strings (decode bytes)
unfolding decode auth_parser_feed parser_feed
parse_version cl uname passwd [] k l h = unfold drive in refl
parse_version cl uname passwd (v ∷ r) k l h = elim (Bool-cases (v == 1)) [
  | inl e ↦ rw e (
      ap (map_outcome strings) (
        drive_next auth_parser_feed 5 6 _ v r
          (at cl 1 (read_event 0 v zero_event) zero_event 0 0 uname 0 0 passwd) 0 (ground arith)
          refl refl)
      ∙ parse_username_len cl (read_event 0 v zero_event) zero_event uname passwd r k l h.1)
  | inr e ↦ rw e (
      ap (map_outcome strings) (
        drive_bad auth_parser_feed 5 6 _ v r
          (at cl 6 (read_event 6 v zero_event) zero_event 0 0 uname 0 0 passwd) 6 (ground arith)
          refl refl))
]

-- A freshly initialised authentication parser, fed with any bytes, finds what `decode` reads
-- directly from them: it asks for more, rejects, or completes at the same byte, with the C strings
-- of the same user name and password in its arrays. Neither what lies behind the class table nor
-- what `malloc` left in the two arrays of 256 bytes matters.
pub auth_parser_lem :
    (stray : ℕ → ℕ) (uname passwd : List ℕ) (p : AuthParser) (bytes : List ℕ)
    → auth_parser_init true true stray uname passwd ≡ some p
    → length uname ≡ 256
    → length passwd ≡ 256
    → AreBytes bytes
    → map_outcome strings (parse p bytes) ≡ map_outcome as_strings (decode bytes)
unfolding auth_parser_init parser_init
auth_parser_lem stray uname passwd p bytes e k l h =
    subst (λ q. map_outcome strings (parse q bytes) ≡ map_outcome as_strings (decode bytes))
      (some-injective _ _ e) (parse_version (parser_no_classes stray) uname passwd bytes k l h)
