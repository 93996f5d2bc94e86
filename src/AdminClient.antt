-- ===== src/AdminClient.antt =====
-- src/admin_client/admin_client.c: the loop of the administrator's client. The terminal and the socket are
-- lists of what they will give.
pub mod Lines
pub mod Typed
pub mod Ends
use tpe_protos.Common.{
  ℕ, zero, suc, ◌+◌, ◌-◌, ◌<◌, Bool, true, false, not, ◌&&◌, ◌||◌, List, [], ◌∷◌, ◌++◌, Option,
  none, some, leb, ◌==◌, if◌then◌else◌, length, c_string, codes,
}
use tpe_protos.Stm.{Run, returns, outside, unfinished, and_then}
use tpe_protos.Admin.Command.{ParsedCommand, s5admin_parse_command, cmd_invalid}
use tpe_protos.Admin.Session.{max_cmd_len, max_response_len}

-- `input` stands on the standard input. `writes` are the answers of `write`, `none` where it fails; behind
-- the last one it takes everything. `reads` is what each `read` from now on answers: no bytes where the
-- server has closed the connection, `none` where it fails. `sent` are the texts handed to `write`, latest
-- first.
pub record Client : Type 0 where
  pub input : List ℕ
  pub writes : List (Option ℕ)
  pub reads : ℕ → Option (List ℕ)
  pub parsed_cmd : ParsedCommand
  pub printed : List ℕ
  pub sent : List (List ℕ)

-- `fgets` of at most `n` characters, and what it leaves.
unfoldable pub fgets : ℕ → List ℕ → List ℕ × List ℕ
fgets zero input = ([], input)
fgets (suc n) [] = ([], [])
fgets (suc n) (c ∷ cs) =
    let next = fgets n cs in if c == 10 then (c ∷ [], cs) else (c ∷ next.0, next.1)

unfoldable pub flush_stdin : List ℕ → List ℕ
flush_stdin [] = []
flush_stdin (c ∷ cs) = let next = flush_stdin cs in if c == 10 then cs else next

-- `strchr` of a newline in a text.
unfoldable pub has_newline : List ℕ → Bool
has_newline [] = false
has_newline (c ∷ cs) = c == 10 || has_newline cs

abbrev starts_with : List ℕ → List ℕ → Bool
starts_with [] text = true
starts_with (c ∷ cs) [] = false
starts_with (c ∷ cs) (d ∷ ds) = c == d && starts_with cs ds

-- `strstr` of `word` in a text.
unfoldable pub strstr : List ℕ → List ℕ → Bool
strstr [] word = starts_with word []
strstr (c ∷ cs) word = starts_with word (c ∷ cs) || strstr cs word

-- `_responses`, up to the last one and the last one.
abbrev pub responses : List (List ℕ)
responses = codes "OK" ∷ codes "ERROR" ∷ codes "END" ∷ codes "PONG" ∷ [] ∷ []

abbrev pub response_bye : List ℕ
response_bye = codes "BYE"

unfoldable pub response_found : List (List ℕ) → List ℕ → Bool
response_found [] text = false
response_found (word ∷ words) text = strstr text word || response_found words text

-- How the loop over the reads of one reply is left.
pub data Reply : Type 0 where
  bye : Reply
  closed : Reply
  complete : Reply

abbrev pub closed_text : List ℕ
closed_text = codes "\n[Conexi" ++ 195 ∷ 179 ∷ codes "n cerrada por el servidor]\n"

-- How the loop is left, the reads to come, and the text printed.
abbrev pub AfterReply : Type 0
AfterReply = Reply × (ℕ → Option (List ℕ)) × List ℕ

-- Behind a `read` of `bytes`; `next` is the next turn. Where the bytes fill the array, the zero is written
-- behind it.
unfoldable pub read_bytes :
    List ℕ → (ℕ → Option (List ℕ)) → List ℕ → (List ℕ → Run AfterReply) → Run AfterReply
read_bytes [] reads printed next = returns (closed, reads, printed ++ closed_text)
read_bytes (byte ∷ bytes) reads printed next =
    let text = c_string (byte ∷ bytes) in
    if leb max_response_len (length (byte ∷ bytes))
    then outside
    else if strstr text response_bye
    then returns (bye, reads, printed ++ text)
    else if response_found responses text
    then returns (complete, reads, printed ++ text)
    else next (printed ++ text)

-- The loop over the reads of one reply, of at most `fuel` turns. A `read` that fails is taken for a great
-- number of bytes, and a zero is written in front of the array.
unfoldable pub read_reply : ℕ → (ℕ → Option (List ℕ)) → List ℕ → Run AfterReply
read_reply zero reads printed = unfinished
read_reply (suc fuel) reads printed =
    let later : ℕ → Option (List ℕ) = λ i. reads (suc i) in
    elim (reads 0) [
      | none ↦ outside
      | some bytes ↦ read_bytes bytes later printed (read_reply fuel later)
    ]

-- One turn of the loop of the client.
pub data Turn : Type 0 where
  goes_on : Client → Turn
  leaves : Client → Turn

abbrev pub after_reply : Client → AfterReply → Run Turn
after_reply c (bye, reads, printed) =
    returns (leaves (record c { reads = reads; printed = printed }))
after_reply c (closed, reads, printed) =
    returns (leaves (record c { reads = reads; printed = printed }))
after_reply c (complete, reads, printed) =
    returns (goes_on (record c { reads = reads; printed = printed }))

abbrev print : Client → List ℕ → Client
print c text = record c { printed = c.printed ++ text }

-- `write` returned 0. A failure is not noticed, as -1 is a great number there.
abbrev pub took_nothing : List (Option ℕ) → Bool
took_nothing (some zero ∷ writes) = true
took_nothing writes = false

abbrev pub tail : List (Option ℕ) → List (Option ℕ)
tail [] = []
tail (answer ∷ writes) = writes

-- The text is sent, and the reply read: one turn is enough fuel, as the loop never takes a second one.
unfoldable pub send_command : List ℕ → Client → Run Turn
send_command text c =
    let c' = record c { writes = tail c.writes; sent = text ∷ c.sent } in
    if took_nothing c.writes
    then returns (leaves (print c' (codes "Error enviando comando\n")))
    else and_then (read_reply 1 c'.reads c'.printed) (after_reply c')

-- What the parser makes of the text: a command that is refused is not sent.
unfoldable pub parsed_command : List ℕ → Client → Option ParsedCommand → Run Turn
parsed_command text c none = outside
parsed_command text c (some p) =
    let c' = record c { parsed_cmd = p } in
    if p.cmd == cmd_invalid
    then returns (goes_on (print c' (codes "ERROR: " ++ c_string (p.arg1 ++ p.arg2) ++ codes "\n")))
    else send_command text c'

-- `text` is what `fgets` stored in front of a zero.
unfoldable pub given_line : List ℕ → Client → Run Turn
given_line text c =
    if has_newline text
    then parsed_command text c (s5admin_parse_command c.parsed_cmd text)
    else returns (
        goes_on
          (print (record c { input = flush_stdin c.input }) (codes "ERROR: Command too long\n")))

abbrev pub turn_on : Client → List ℕ → Run Turn
turn_on c [] = returns (leaves c)
turn_on c (x ∷ xs) =
    let line = fgets (max_cmd_len - 1) (x ∷ xs) in
    given_line (c_string line.0) (record c { input = line.1 })

unfoldable pub turn : Client → Run Turn
unfolding given_line
turn c = turn_on (print c (codes ">: ")) c.input

abbrev pub follow : (Client → Run Client) → Turn → Run Client
follow loop (goes_on c) = loop c
follow loop (leaves c) = returns c

-- At most `fuel` turns.
unfoldable pub client_loop : ℕ → Client → Run Client
client_loop zero c = unfinished
client_loop (suc fuel) c = and_then (turn c) (follow (client_loop fuel))

-- Every turn but the last one reads a character.
unfoldable pub admin_client_loop : Client → Run Client
unfolding client_loop
admin_client_loop c = client_loop (length c.input + 1) c
