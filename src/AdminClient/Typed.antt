-- ===== src/AdminClient/Typed.antt =====
-- What is typed to the client in admin_client.c, when no line of it is blank.
use tpe_protos.Common.{
  ℕ, zero, suc, ◌≡◌, ◌≢◌, refl, sym, ap, ◌∙◌, Bool, true, false, ◌&&◌, ◌||◌, List, [], ◌∷◌, none,
  ◌==◌, c_string, arith, Bool-cases, Option-cases, inl, inr,
}
use tpe_protos.Admin.Command.{ParsedCommand, is_delimiter, strtok, s5admin_parse_command}
use tpe_protos.Admin.Command.Words.{words-strtok, first_word}
use tpe_protos.Admin.Config.Replies.{parsed_lem}
use tpe_protos.AdminClient.{fgets, flush_stdin, has_newline}
use tpe_protos.AdminClient.Lines.{fgets-zero, fgets-other, no_space, no_input}

-- A newline stands behind delimiters only.
unfoldable pub blank_line : List ℕ → Bool
blank_line [] = false
blank_line (c ∷ cs) = c == 10 || (is_delimiter c && blank_line cs)

-- No newline has a blank line behind it.
abbrev pub NoneBlankBehind : List ℕ → Type 0
NoneBlankBehind [] = Unit
NoneBlankBehind (c ∷ cs) = (c ≡ 10 → blank_line cs ≡ false) × NoneBlankBehind cs

-- No line is blank.
pub record IsTyped (input : List ℕ) : Type 0 where
  pub first : blank_line input ≡ false
  pub others : NoneBlankBehind input

pub fgets-NoneBlankBehind :
    (n : ℕ) (input : List ℕ) → NoneBlankBehind input → NoneBlankBehind (fgets n input).1
unfolding fgets
fgets-NoneBlankBehind zero input h = h
fgets-NoneBlankBehind (suc n) [] h = tt
fgets-NoneBlankBehind (suc n) (c ∷ cs) h = elim (Bool-cases (c == 10)) [
  | inl t ↦ rw t h.1
  | inr f ↦ rw f (fgets-NoneBlankBehind n cs h.1)
]

pub flush_stdin-IsTyped : (input : List ℕ) → NoneBlankBehind input → IsTyped (flush_stdin input)
unfolding flush_stdin blank_line
flush_stdin-IsTyped [] h = record { first = refl; others = tt }
flush_stdin-IsTyped (c ∷ cs) h = elim (Bool-cases (c == 10)) [
  | inl t ↦ rw t (record { first = h.0 (ground (arith, t)); others = h.1 })
  | inr f ↦ rw f (flush_stdin-IsTyped cs h.1)
]

-- Where the newline was read, the rest starts a line.
pub fgets-IsTyped :
    (n : ℕ) (input : List ℕ)
    → has_newline (c_string (fgets n input).0) ≡ true
    → NoneBlankBehind input
    → IsTyped (fgets n input).1
unfolding fgets has_newline
fgets-IsTyped zero input l h = absurd (no_space input l)
fgets-IsTyped (suc n) [] l h = absurd (no_input n l)
fgets-IsTyped (suc n) (c ∷ cs) l h = elim (Bool-cases (c == 10)) [
  | inl t ↦ rw t (record { first = h.0 (ground (arith, t)); others = h.1 })
  | inr f ↦ elim (Bool-cases (c == 0)) [
    | inl t ↦ absurd (cc (l, ap has_newline (fgets-zero n c cs t)))
    | inr g ↦
        let l' : has_newline (c ∷ c_string (fgets n cs).0) ≡ true =
          sym (ap has_newline (fgets-other n c cs f g)) ∙ l in
        rw f (fgets-IsTyped n cs (rw f at l') h.1)
  ]
]

strtok-fgets :
    (n : ℕ) (input : List ℕ)
    → has_newline (c_string (fgets n input).0) ≡ true
    → blank_line input ≡ false
    → strtok (c_string (fgets n input).0) ≢ none
unfolding has_newline strtok blank_line
strtok-fgets zero input l h = absurd (no_space input l)
strtok-fgets (suc n) [] l h = absurd (no_input n l)
strtok-fgets (suc n) (c ∷ cs) l h = elim (Bool-cases (c == 10)) [
  | inl t ↦ absurd (cc (rw t at h))
  | inr f ↦ elim (Bool-cases (c == 0)) [
    | inl t ↦ absurd (cc (l, ap has_newline (fgets-zero n c cs t)))
    | inr g ↦
        let e0 = fgets-other n c cs f g in
        let l' : has_newline (c ∷ c_string (fgets n cs).0) ≡ true = sym (ap has_newline e0) ∙ l in
        elim (Bool-cases (is_delimiter c)) [
          | inl d ↦ rw (e0, d) (strtok-fgets n cs (rw f at l') (ground (arith, h, f, d)))
          | inr d ↦ rw (e0, d) (λ e. absurd (cc e))
        ]
  ]
]

-- The parser does not fail on the line that is read.
pub parses-fgets :
    (n : ℕ) (input : List ℕ) (before : ParsedCommand)
    → has_newline (c_string (fgets n input).0) ≡ true
    → blank_line input ≡ false
    → s5admin_parse_command before (c_string (fgets n input).0) ≢ none
parses-fgets n input before l h e =
    let text = c_string (fgets n input).0 in
    let no_words : first_word (strtok text) ≡ [] =
      sym (words-strtok text) ∙ parsed_lem before text e in
    elim (Option-cases (strtok text)) [
      | inl s ↦ strtok-fgets n input l h s
      | inr ((t, rest), s) ↦ absurd (cc (rw s at no_words))
    ]
