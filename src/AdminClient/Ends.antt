-- ===== src/AdminClient/Ends.antt =====
-- The loops of the client in admin_client.c: how many reads a reply takes, and that the client returns.
use tpe_protos.Common.{
  ℕ, zero, suc, ◌+◌, ◌≤◌, ◌<◌, ◌≡◌, ◌≢◌, refl, true, false, List, [], ◌∷◌, ◌++◌, Option, none, some,
  leb, ◌==◌, length, c_string, arith, Bool-cases, inl, inr,
}
use tpe_protos.Stm.{Run, returns, outside, aborts, unfinished, and_then}
use tpe_protos.Admin.Command.{ParsedCommand, s5admin_parse_command, cmd_invalid}
use tpe_protos.Admin.Session.{max_response_len}
use tpe_protos.AdminClient.Typed.{
  IsTyped, fgets-NoneBlankBehind, flush_stdin-IsTyped, fgets-IsTyped, parses-fgets,
}
use tpe_protos.AdminClient.{
  read_bytes, closed_text, Client, fgets, flush_stdin, has_newline, strstr, responses, response_bye,
  response_found, Reply, bye, complete, closed, read_reply, Turn, goes_on, leaves, send_command,
  parsed_command, given_line, turn, turn_on, after_reply, took_nothing, tail, follow, client_loop,
  admin_client_loop,
}

strstr-empty : (text : List ℕ) → strstr text [] ≡ true
unfolding strstr
strstr-empty [] = refl
strstr-empty (c ∷ cs) = refl

response_found-responses : (text : List ℕ) → response_found responses text ≡ true
unfolding response_found
response_found-responses text = ground (arith, strstr-empty text)

-- Whatever bytes the first `read` gives, if they do not fill the array, they are printed up to a zero and
-- taken for the whole reply: every text has the empty text in it, and that is one of the responses.
pub read_reply-once :
    (fuel byte : ℕ) (bytes : List ℕ) (reads : ℕ → Option (List ℕ)) (printed : List ℕ)
    → reads 0 ≡ some (byte ∷ bytes)
    → length (byte ∷ bytes) < max_response_len
    → (e : Reply) × (e ≢ closed)
      × (read_reply (suc fuel) reads printed
          ≡ returns (e, (λ i. reads (suc i)), printed ++ c_string (byte ∷ bytes)))
unfolding read_reply read_bytes
read_reply-once fuel byte bytes reads printed first h =
    let text = c_string (byte ∷ bytes) in
    let short : leb max_response_len (length (byte ∷ bytes)) ≡ false = ground (arith, h) in
    elim (Bool-cases (strstr text response_bye)) [
      | inl t ↦ (bye, λ e. absurd (cc e), rw (read_reply, first, short, t) refl)
      | inr f ↦ (
        complete,
        λ e. absurd (cc e),
        rw (read_reply, first, short, f, response_found-responses text) refl,
      )
    ]

length-fgets : (n : ℕ) (s : List ℕ) → length (fgets n s).1 ≤ length s
unfolding fgets
length-fgets zero s = omega arith
length-fgets (suc n) [] = omega arith
length-fgets (suc n) (c ∷ cs) = ground (arith, length-fgets n cs)

length-flush_stdin : (s : List ℕ) → length (flush_stdin s) ≤ length s
unfolding flush_stdin
length-flush_stdin [] = omega arith
length-flush_stdin (c ∷ cs) = ground (arith, length-flush_stdin cs)

-- Every `read` succeeds and leaves a place in the array; it may find the connection closed.
abbrev pub AreAnswers : (ℕ → Option (List ℕ)) → Type 0
AreAnswers reads =
    (i : ℕ) → (bytes : List ℕ) × (reads i ≡ some bytes) × (length bytes < max_response_len)

-- The first read is enough.
read_reply-Returns :
    (reads : ℕ → Option (List ℕ)) (printed bytes : List ℕ)
    → reads 0 ≡ some bytes
    → length bytes < max_response_len
    → (e : Reply) × (text : List ℕ) × (read_reply 1 reads printed
        ≡ returns (e, (λ i. reads (suc i)), text))
unfolding read_reply read_bytes
read_reply-Returns reads printed [] first h =
    (closed, printed ++ closed_text, rw (read_reply, first) refl)
read_reply-Returns reads printed (byte ∷ bytes) first h =
    let (e, _, run) = read_reply-once 0 byte bytes reads printed first h in
    (e, printed ++ c_string (byte ∷ bytes), run)

-- A turn that returns: the client is at its end, or goes on with fewer than `n` characters, none of them in a
-- blank line.
abbrev Leaves : ℕ → Run Turn → Type 0
Leaves n (returns (goes_on c)) = (length c.input < n) × IsTyped c.input × AreAnswers c.reads
Leaves n (returns (leaves c)) = Unit
Leaves n aborts = ⊥
Leaves n outside = ⊥
Leaves n unfinished = ⊥

after_reply-Leaves :
    (c : Client) (n : ℕ) (e : Reply) (reads : ℕ → Option (List ℕ)) (printed : List ℕ)
    → length c.input < n
    → IsTyped c.input
    → AreAnswers reads
    → Leaves n (after_reply c (e, reads, printed))
after_reply-Leaves c n bye reads printed h v a = tt
after_reply-Leaves c n closed reads printed h v a = tt
after_reply-Leaves c n complete reads printed h v a = (h, v, a)

send_command-Leaves :
    (text : List ℕ) (c : Client) (n : ℕ)
    → length c.input < n
    → IsTyped c.input
    → AreAnswers c.reads
    → Leaves n (send_command text c)
unfolding send_command and_then
send_command-Leaves text c n h v a = elim (Bool-cases (took_nothing c.writes)) [
  | inl t ↦ rw (t, send_command) tt
  | inr f ↦
      let (bytes, first, short) = a 0 in
      let (e, printed, run) = read_reply-Returns c.reads c.printed bytes first short in
      rw (f, run, send_command)
        (after_reply-Leaves (record c { writes = tail c.writes; sent = text ∷ c.sent }) n e
          (λ i. c.reads (suc i)) printed h v (λ i. a (suc i)))
]

parsed_command-Leaves :
    (text : List ℕ) (c : Client) (n : ℕ) (q : Option ParsedCommand)
    → q ≢ none
    → length c.input < n
    → IsTyped c.input
    → AreAnswers c.reads
    → Leaves n (parsed_command text c q)
unfolding parsed_command
parsed_command-Leaves text c n none some_command h v a = absurd (some_command refl)
parsed_command-Leaves text c n (some p) some_command h v a =
    elim (Bool-cases (p.cmd == cmd_invalid)) [
      | inl t ↦ rw (t, parsed_command) (h, v, a)
      | inr f ↦
          rw (f, parsed_command) (send_command-Leaves text (record c { parsed_cmd = p }) n h v a)
    ]

fgets-reads : (n x : ℕ) (xs : List ℕ) → length (fgets (suc n) (x ∷ xs)).1 ≤ length xs
unfolding fgets
fgets-reads n x xs = ground (arith, length-fgets n xs)

turn_on-Leaves :
    (c : Client) (input : List ℕ) (n : ℕ)
    → length input ≤ n
    → IsTyped input
    → AreAnswers c.reads
    → Leaves n (turn_on c input)
unfolding given_line
turn_on-Leaves c [] n h v a = tt
turn_on-Leaves c (x ∷ xs) n h v a =
    let text = c_string (fgets 1023 (x ∷ xs)).0 in
    let rest = (fgets 1023 (x ∷ xs)).1 in
    let shorter : length rest < n = omega (arith, fgets-reads 1022 x xs, h) in
    elim (Bool-cases (has_newline text)) [
      | inl t ↦
          rw (t, given_line)
            (parsed_command-Leaves text (record c { input = rest }) n
              (s5admin_parse_command c.parsed_cmd text)
              (parses-fgets 1023 (x ∷ xs) c.parsed_cmd t v.first) shorter
              (fgets-IsTyped 1023 (x ∷ xs) t v.others) a)
      | inr f ↦
          rw (f, given_line)
            (
              omega (arith, length-flush_stdin rest, shorter),
              flush_stdin-IsTyped rest (fgets-NoneBlankBehind 1023 (x ∷ xs) v.others),
              a,
            )
    ]

abbrev Returns : Run Client → Type 0
Returns r = (c : Client) × (r ≡ returns c)

follow-Returns :
    (loop : Client → Run Client) (n : ℕ)
    → ((c : Client) → length c.input < n → IsTyped c.input → AreAnswers c.reads → Returns (loop c))
    → (r : Run Turn) → Leaves n r
    → Returns (and_then r (follow loop))
unfolding and_then
follow-Returns loop n f (returns (goes_on c)) (h, v, a) = f c h v a
follow-Returns loop n f (returns (leaves c)) h = (c, refl)
follow-Returns loop n f aborts h = absurd h
follow-Returns loop n f outside h = absurd h
follow-Returns loop n f unfinished h = absurd h

client_loop-Returns :
    (fuel : ℕ) (c : Client)
    → length c.input < fuel
    → IsTyped c.input
    → AreAnswers c.reads
    → Returns (client_loop fuel c)
unfolding client_loop turn
client_loop-Returns zero c h v a = absurd (omega arith)
client_loop-Returns (suc fuel) c h v a =
    follow-Returns (client_loop fuel) fuel (client_loop-Returns fuel) (turn c)
      (turn_on-Leaves _ c.input fuel (omega (arith, h)) v a)

-- Where no line that is typed is blank, and every `read` succeeds and does not fill the array, though it may
-- find the connection closed, the client returns from its loop: no call fails, each reply takes one `read`,
-- and no more turns are needed than characters are typed, and one.
pub admin_client_loop-ends :
    (c : Client)
    → IsTyped c.input
    → AreAnswers c.reads
    → (c' : Client) × (admin_client_loop c ≡ returns c')
unfolding admin_client_loop
admin_client_loop-ends c v a = client_loop-Returns (length c.input + 1) c (omega arith) v a
