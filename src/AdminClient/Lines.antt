-- ===== src/AdminClient/Lines.antt =====
-- What the client in admin_client.c sends, and what the parser of the server makes of it.
use mathlib.Core.Path.{subst}
use tpe_protos.Common.{
  ℕ, zero, suc, ◌+◌, ◌≡◌, ◌≢◌, refl, sym, ap, ◌∙◌, true, false, List, [], ◌∷◌, ◌++◌, Option, none,
  some, ◌==◌, c_string, length, take, All, arith, Bool-cases, inl, inr,
}
use tpe_protos.Stm.{Run, returns, outside, aborts, unfinished, and_then}
use tpe_protos.Admin.Command.{ParsedCommand, s5admin_parse_command, cmd_invalid}
use tpe_protos.Admin.Command.Words.{words, words-newline}
use tpe_protos.Admin.Command.Spec.{accepted, arity, reading, meaning, s5admin_parse_command_lem}
use tpe_protos.Admin.Session.Lines.{IsPlain}
use tpe_protos.AdminClient.{
  Client, fgets, has_newline, AfterReply, bye, complete, closed, read_reply, Turn, goes_on, leaves,
  send_command, parsed_command, given_line, turn, turn_on, after_reply, took_nothing, tail, follow,
  client_loop, admin_client_loop,
}

-- A text that ends with its only newline.
abbrev pub IsLine : List ℕ → Type 0
IsLine text = (line : List ℕ) × (text ≡ line ++ 10 ∷ []) × All IsPlain line

pub fgets-newline :
    (n c : ℕ) (cs : List ℕ) → (c == 10) ≡ true → c_string (fgets (suc n) (c ∷ cs)).0 ≡ 10 ∷ []
unfolding fgets c_string
fgets-newline n c cs t = ground (arith, t)

pub fgets-zero :
    (n c : ℕ) (cs : List ℕ) → (c == 0) ≡ true → c_string (fgets (suc n) (c ∷ cs)).0 ≡ []
unfolding fgets c_string
fgets-zero n c cs t = ground (arith, t)

pub fgets-other :
    (n c : ℕ) (cs : List ℕ)
    → (c == 10) ≡ false
    → (c == 0) ≡ false
    → c_string (fgets (suc n) (c ∷ cs)).0 ≡ c ∷ c_string (fgets n cs).0
unfolding fgets c_string
fgets-other n c cs f g = rw (f, g) refl

pub no_space : (input : List ℕ) → has_newline (c_string (fgets zero input).0) ≢ true
unfolding has_newline fgets c_string
no_space input e = absurd (cc e)

pub no_input : (n : ℕ) → has_newline (c_string (fgets (suc n) []).0) ≢ true
unfolding has_newline fgets c_string
no_input n e = absurd (cc e)

IsLine-fgets :
    (n : ℕ) (input : List ℕ)
    → has_newline (c_string (fgets n input).0) ≡ true
    → IsLine (c_string (fgets n input).0)
unfolding has_newline
IsLine-fgets zero input h = absurd (no_space input h)
IsLine-fgets (suc n) [] h = absurd (no_input n h)
IsLine-fgets (suc n) (c ∷ cs) h = elim (Bool-cases (c == 10)) [
  | inl t ↦ ([], fgets-newline n c cs t, tt)
  | inr f ↦ elim (Bool-cases (c == 0)) [
    | inl t ↦ absurd (cc (h, ap has_newline (fgets-zero n c cs t)))
    | inr g ↦
        let e0 = fgets-other n c cs f g in
        let h' : has_newline (c ∷ c_string (fgets n cs).0) ≡ true = sym (ap has_newline e0) ∙ h in
        let (line, e, plain) = IsLine-fgets n cs (rw f at h') in
        (c ∷ line, e0 ∙ ap (λ t. c ∷ t) e, ((ground (arith, f), ground (arith, g)), plain))
  ]
]

-- A line without its newline that the parser of the server takes for a command, whatever it parsed before.
abbrev pub Understood : List ℕ → Type 0
Understood text =
    (line : List ℕ) × (text ≡ line ++ 10 ∷ [])
    × All IsPlain line
    × (i : ℕ) × (args : List (List ℕ)) × ((before : ParsedCommand)
        → reading (s5admin_parse_command before line) ≡ accepted i args)

reading-accepted :
    (p : ParsedCommand)
    → (p.cmd == cmd_invalid) ≡ false
    → (args : List (List ℕ)) × (reading (some p) ≡ accepted p.cmd args)
unfolding reading
reading-accepted p f = (take (arity p.cmd) (p.arg1 ∷ p.arg2 ∷ []), rw (f, reading) refl)

parsed-Understood :
    (before p : ParsedCommand) (text : List ℕ)
    → IsLine text
    → s5admin_parse_command before text ≡ some p
    → (p.cmd == cmd_invalid) ≡ false
    → Understood text
parsed-Understood before p text (line, e, plain) parsed f =
    let (args, r) = reading-accepted p f in
    (
      line,
      e,
      plain,
      p.cmd,
      args,
      λ other.
          s5admin_parse_command_lem other line
          ∙ ap meaning (sym (words-newline line) ∙ ap words (sym e))
          ∙ sym (s5admin_parse_command_lem before text)
          ∙ ap reading parsed
          ∙ r,
    )

-- What was sent when the run comes to an end, or goes on.
abbrev SentOnly : Run Turn → Type 0
SentOnly (returns (goes_on c)) = All Understood c.sent
SentOnly (returns (leaves c)) = All Understood c.sent
SentOnly aborts = Unit
SentOnly outside = Unit
SentOnly unfinished = Unit

after_reply-SentOnly :
    (c : Client)
    → All Understood c.sent
    → (r : Run AfterReply) → SentOnly (and_then r (after_reply c))
unfolding and_then
after_reply-SentOnly c h (returns (bye, reads, printed)) = h
after_reply-SentOnly c h (returns (closed, reads, printed)) = h
after_reply-SentOnly c h (returns (complete, reads, printed)) = h
after_reply-SentOnly c h aborts = tt
after_reply-SentOnly c h outside = tt
after_reply-SentOnly c h unfinished = tt

send_command-SentOnly :
    (text : List ℕ) (c : Client)
    → Understood text
    → All Understood c.sent
    → SentOnly (send_command text c)
unfolding send_command
send_command-SentOnly text c u h = elim (Bool-cases (took_nothing c.writes)) [
  | inl t ↦ rw (t, send_command) (u, h)
  | inr f ↦
      rw (f, send_command)
        (after_reply-SentOnly (record c { writes = tail c.writes; sent = text ∷ c.sent }) (u, h)
          (read_reply 1 c.reads c.printed))
]

parsed_command-SentOnly :
    (text : List ℕ) (c : Client) (q : Option ParsedCommand)
    → IsLine text
    → s5admin_parse_command c.parsed_cmd text ≡ q
    → All Understood c.sent
    → SentOnly (parsed_command text c q)
unfolding parsed_command
parsed_command-SentOnly text c none l e h = tt
parsed_command-SentOnly text c (some p) l e h = elim (Bool-cases (p.cmd == cmd_invalid)) [
  | inl t ↦ rw (t, parsed_command) h
  | inr f ↦
      rw (f, parsed_command)
        (send_command-SentOnly text (record c { parsed_cmd = p })
          (parsed-Understood c.parsed_cmd p text l e f) h)
]

turn_on-SentOnly :
    (c : Client) (input : List ℕ) → All Understood c.sent → SentOnly (turn_on c input)
unfolding given_line
turn_on-SentOnly c [] h = h
turn_on-SentOnly c (x ∷ xs) h =
    let text = c_string (fgets 1023 (x ∷ xs)).0 in
    elim (Bool-cases (has_newline text)) [
      | inl t ↦
          rw (t, given_line)
            (parsed_command-SentOnly text (record c { input = (fgets 1023 (x ∷ xs)).1 })
              (s5admin_parse_command c.parsed_cmd text) (IsLine-fgets 1023 (x ∷ xs) t) refl h)
      | inr f ↦ rw (f, given_line) h
    ]

abbrev SentAtEnd : Run Client → Type 0
SentAtEnd (returns c) = All Understood c.sent
SentAtEnd aborts = Unit
SentAtEnd outside = Unit
SentAtEnd unfinished = Unit

follow-SentAtEnd :
    (loop : Client → Run Client)
    → ((c : Client) → All Understood c.sent → SentAtEnd (loop c))
    → (r : Run Turn) → SentOnly r
    → SentAtEnd (and_then r (follow loop))
unfolding and_then
follow-SentAtEnd loop f (returns (goes_on c)) h = f c h
follow-SentAtEnd loop f (returns (leaves c)) h = h
follow-SentAtEnd loop f aborts h = tt
follow-SentAtEnd loop f outside h = tt
follow-SentAtEnd loop f unfinished h = tt

client_loop-SentAtEnd :
    (fuel : ℕ) (c : Client) → All Understood c.sent → SentAtEnd (client_loop fuel c)
unfolding client_loop turn
client_loop-SentAtEnd zero c h = tt
client_loop-SentAtEnd (suc fuel) c h =
    follow-SentAtEnd (client_loop fuel) (client_loop-SentAtEnd fuel) (turn c)
      (turn_on-SentOnly _ c.input h)

-- Where the loop of a client that has sent nothing comes to its end, each text that it sent is one line with
-- its newline and no zero, and the parser of the server takes that line for a command with its arguments,
-- whatever it parsed before.
pub admin_client_loop-sends :
    (c c' : Client) → c.sent ≡ [] → admin_client_loop c ≡ returns c' → All Understood c'.sent
unfolding admin_client_loop
admin_client_loop-sends c c' s e =
    subst SentAtEnd e (client_loop-SentAtEnd (length c.input + 1) c (rw s tt))
