-- ===== src/Admin/Command/Spec.antt =====
-- What a line of the administrator means, read from its words, and the code against it.
use mathlib.Core.Option.{some-injective, none-ne-some}
use mathlib.Core.Path.{subst}
use tpe_protos.Common.{
  ℕ, zero, suc, ◌+◌, ◌≤◌, ◌≡◌, refl, ap, ◌∙◌, Bool, true, false, ◌&&◌, not, List, [], ◌∷◌, ◌++◌,
  Option, none, some, ltb, leb, ◌==◌, if◌then◌else◌, take, length, get_elem?, codes, str_eq,
  c_string, append-nil, append_assoc, arith, Bool-cases, Option-cases, inl, inr,
}
use tpe_protos.Admin.Command.{
  ParsedCommand, CommandInfo, commands, args_len, cmd_invalid, strtok, strncpy,
  s5admin_parse_command_args, find_command, s5admin_parse_command, end_of_args, read_arg, store1,
  store2,
}
use tpe_protos.Admin.Command.Words.{words, words-strtok}

-- The line has no word, or it is refused with a message, or it is a command with its arguments, each
-- an array of `args_len`.
pub data Reading : Type 0 where
  no_word : Reading
  refused : List ℕ → Reading
  accepted : ℕ → List (List ℕ) → Reading

-- `k` arguments are wanted: the message where they are wrong.
unfoldable pub judge : ℕ → List (List ℕ) → Option (List ℕ)
judge zero [] = none
judge zero (w ∷ ws) = some (codes "too many arguments")
judge (suc k) [] = some (codes "missing argument")
judge (suc k) (w ∷ ws) =
    let rest = judge k ws in
    if ltb args_len (length w) then some (codes "argument too long") else rest

abbrev pub arrays : List (List ℕ) → List (List ℕ)
arrays [] = []
arrays (w ∷ ws) = strncpy w ∷ arrays ws

abbrev pub verdict : ℕ → List (List ℕ) → Option (List ℕ) → Reading
verdict i ws none = accepted i (arrays ws)
verdict i ws (some message) = refused message

abbrev pub known : List (List ℕ) → Option (ℕ × ℕ) → Reading
known ws none = refused (codes "invalid command")
known ws (some (i, k)) = verdict i ws (judge k ws)

unfoldable pub meaning : List (List ℕ) → Reading
unfolding judge
meaning [] = no_word
meaning (w ∷ ws) = known ws (find_command commands 0 w)

-- The number of arguments of a command.
unfoldable pub arity : ℕ → ℕ
unfolding commands
arity i = elim (get_elem? commands i) [ none ↦ 0 | some c ↦ c.expected_args ]

-- What the server reads from the struct.
unfoldable pub reading : Option ParsedCommand → Reading
unfolding arity
reading none = no_word
reading (some p) =
    if p.cmd == cmd_invalid
    then refused (c_string p.arg1)
    else accepted p.cmd (take (arity p.cmd) (p.arg1 ∷ p.arg2 ∷ []))

module _ (i : ℕ) (valid : (i == cmd_invalid) ≡ false) where
  -- Behind the words `pre`, whose arrays are stored.
  end_of_args_lem :
      (p : ParsedCommand) (line : List ℕ) (pre : List (List ℕ))
      → p.cmd ≡ i
      → take (arity i) (p.arg1 ∷ p.arg2 ∷ []) ≡ arrays pre
      → reading (some (end_of_args p line))
        ≡ verdict i (pre ++ words line) (judge zero (words line))
  unfolding reading end_of_args judge c_string
  end_of_args_lem p line pre e h = elim (Option-cases (strtok line)) [
    | inl n ↦ rw (words-strtok line, n, end_of_args, append-nil pre) (simp (e, valid, h))
    | inr s ↦ rw (words-strtok line, s.1, end_of_args)
  ]

  read_arg_lem :
      (p : ParsedCommand) (line : List ℕ) (store : List ℕ → ParsedCommand)
      (next : ParsedCommand → List ℕ → ParsedCommand) (pre : List (List ℕ)) (k : ℕ)
      → ((t rest : List ℕ)
          → reading (some (next (store t) rest))
            ≡ verdict i ((pre ++ t ∷ []) ++ words rest) (judge k (words rest)))
      → reading (some (read_arg p line store next))
        ≡ verdict i (pre ++ words line) (judge (suc k) (words line))
  unfolding reading read_arg judge c_string
  read_arg_lem p line store next pre k h = elim (Option-cases (strtok line)) [
    | inl n ↦ rw (words-strtok line, n, read_arg)
    | inr (x, s) ↦
        rw (words-strtok line, s, read_arg)
          (elim (Bool-cases (ltb args_len (length x.0))) [
            | inl long ↦ rw long
            | inr short ↦ rw short (
                h x.0 x.1
                ∙ ap (λ q. verdict i q (judge k (words x.1)))
                    (append_assoc pre (x.0 ∷ []) (words x.1)))
          ])
  ]

  args_lem :
      (k : ℕ) (p : ParsedCommand) (line : List ℕ)
      → p.cmd ≡ i
      → arity i ≡ k
      → k ≤ 2
      → reading (some (s5admin_parse_command_args p line k))
        ≡ verdict i (words line) (judge k (words line))
  unfolding s5admin_parse_command_args
  args_lem zero p line e a h = end_of_args_lem p line [] e (rw a refl)
  args_lem (suc zero) p line e a h =
      read_arg_lem p line (store1 p) end_of_args [] 0
        (λ t rest. end_of_args_lem (store1 p t) rest (t ∷ []) e (rw a refl))
  args_lem (suc (suc zero)) p line e a h =
      read_arg_lem p line (store1 p) (λ p' rest. read_arg p' rest (store2 p') end_of_args) [] 1
        (λ t rest.
          read_arg_lem (store1 p t) rest (store2 (store1 p t)) end_of_args (t ∷ []) 0
            (λ u rest'. end_of_args_lem (store2 (store1 p t) u) rest' (t ∷ u ∷ []) e (rw a refl)))
  args_lem (suc (suc (suc k))) p line e a h = absurd (omega arith)

-- Every entry of the table, from index `i` on, has the arity that the code looks up.
fits_table : ℕ → List CommandInfo → Bool
fits_table i [] = true
fits_table i (c ∷ cs) =
    ((arity i == c.expected_args) && (leb c.expected_args 2 && not (i == cmd_invalid)))
    && fits_table (i + 1) cs

record Fits (i k : ℕ) : Type 0 where
  has_arity : arity i ≡ k
  few : k ≤ 2
  valid : (i == cmd_invalid) ≡ false

find_command-Fits :
    (cs : List CommandInfo) (i : ℕ) (name : List ℕ) (r : ℕ × ℕ)
    → fits_table i cs ≡ true
    → find_command cs i name ≡ some r
    → Fits r.0 r.1
unfolding fits_table find_command
find_command-Fits [] i name r h e = absurd (none-ne-some _ e)
find_command-Fits (c ∷ cs) i name r h e = elim (Bool-cases (str_eq name c.name)) [
  | inl same ↦
      let found : (i, c.expected_args) ≡ r = some-injective _ _ (rw same at e) in
      subst (λ q. Fits q.0 q.1) found
        (record {
          has_arity = ground (arith, h);
          few = ground (arith, h);
          valid = ground (arith, h);
        })
  | inr differ ↦ find_command-Fits cs (i + 1) name r (ground (arith, h)) (rw differ at (e))
]

-- What the command parser makes of a line, read as an outcome with the texts in its arrays, is the meaning
-- of the line's words: the first word names the command, the rest are judged by number and by length. It
-- holds for every line and whatever stood in the arrays.
pub s5admin_parse_command_lem :
    (parsed : ParsedCommand) (line : List ℕ)
    → reading (s5admin_parse_command parsed line) ≡ meaning (words line)
unfolding s5admin_parse_command meaning reading c_string fits_table
s5admin_parse_command_lem parsed line = elim (Option-cases (strtok line)) [
  | inl n ↦ rw (words-strtok line, n, s5admin_parse_command) refl
  | inr (x, s) ↦
      rw (words-strtok line, s, s5admin_parse_command)
        (elim (Option-cases (find_command commands 0 x.0)) [
          | inl n ↦ rw (n, s5admin_parse_command) refl
          | inr (r, f) ↦
              let fits = find_command-Fits commands 0 x.0 r refl f in
              rw (f, s5admin_parse_command)
                (args_lem r.0 fits.valid r.1 _ x.1 refl fits.has_arity fits.few)
        ])
]
