-- ===== src/Admin/Command/Range.antt =====
-- The command that the parser finds is one of the table, or the mark of a refused line.
use mathlib.Core.Option.{some-injective, none-ne-some}
use mathlib.Core.Path.{subst}
use tpe_protos.Common.{
  ℕ, zero, suc, ◌+◌, ◌≤◌, ◌<◌, ◌≡◌, ap, List, [], ◌∷◌, some, ltb, length, str_eq, arith, Bool-cases,
  Option-cases, inl, inr,
}
use tpe_protos.Admin.Command.{
  ParsedCommand, CommandInfo, commands, args_len, cmd_invalid, strtok, s5admin_parse_command_args,
  find_command, s5admin_parse_command, end_of_args, read_arg, store1, store2,
}

-- The index of a handler, or the mark of a line that is refused.
abbrev pub IsCommand : ℕ → Type 0
IsCommand cmd = cmd ≤ cmd_invalid

end_of_args-IsCommand :
    (p : ParsedCommand) (line : List ℕ) → IsCommand p.cmd → IsCommand (end_of_args p line).cmd
unfolding end_of_args
end_of_args-IsCommand p line h = ground arith

read_arg-IsCommand :
    (p : ParsedCommand) (line : List ℕ) (store : List ℕ → ParsedCommand)
    (next : ParsedCommand → List ℕ → ParsedCommand)
    → ((t rest : List ℕ) → IsCommand (next (store t) rest).cmd)
    → IsCommand (read_arg p line store next).cmd
unfolding read_arg
read_arg-IsCommand p line store next h = elim (Option-cases (strtok line)) [
  | inl n ↦ rw (n, read_arg) (omega arith)
  | inr ((t, rest), s) ↦ elim (Bool-cases (ltb args_len (length t))) [
    | inl long ↦ rw (s, read_arg, long) (omega arith)
    | inr short ↦ rw (s, read_arg, short) (h t rest)
  ]
]

args-IsCommand :
    (p : ParsedCommand) (line : List ℕ) (k : ℕ)
    → IsCommand p.cmd
    → IsCommand (s5admin_parse_command_args p line k).cmd
unfolding s5admin_parse_command_args
args-IsCommand p line zero h = end_of_args-IsCommand p line h
args-IsCommand p line (suc zero) h =
    read_arg-IsCommand p line (store1 p) end_of_args
      (λ t rest. end_of_args-IsCommand (store1 p t) rest h)
args-IsCommand p line (suc (suc zero)) h =
    read_arg-IsCommand p line (store1 p) (λ p' rest. read_arg p' rest (store2 p') end_of_args)
      (λ t rest.
        read_arg-IsCommand (store1 p t) rest (store2 (store1 p t)) end_of_args
          (λ t' rest'. end_of_args-IsCommand (store2 (store1 p t) t') rest' h))
args-IsCommand p line (suc (suc (suc k))) h = omega arith

find_command-lt :
    (cs : List CommandInfo) (i : ℕ) (name : List ℕ) (r : ℕ × ℕ)
    → find_command cs i name ≡ some r
    → r.0 < i + length cs
unfolding find_command
find_command-lt [] i name r e = absurd (none-ne-some _ e)
find_command-lt (c ∷ cs) i name r e = elim (Bool-cases (str_eq name c.name)) [
  | inl same ↦
      let found : (i, c.expected_args) ≡ r = some-injective _ _ (rw same at e) in
      omega (arith, ap (λ q. q.0) found)
  | inr differ ↦ omega (arith, find_command-lt cs (i + 1) name r (rw differ at (e)))
]

pub s5admin_parse_command-IsCommand :
    (parsed q : ParsedCommand) (line : List ℕ)
    → s5admin_parse_command parsed line ≡ some q
    → IsCommand q.cmd
unfolding s5admin_parse_command commands
s5admin_parse_command-IsCommand parsed q line e = elim (Option-cases (strtok line)) [
  | inl n ↦ absurd (none-ne-some _ (rw (n, s5admin_parse_command) at (e)))
  | inr ((t, rest), s) ↦ elim (Option-cases (find_command commands 0 t)) [
    | inl n ↦
        let r = some-injective _ _ (rw (s, n, s5admin_parse_command) at (e)) in
        omega (arith, ap (λ q. q.cmd) r)
    | inr ((i, k), f) ↦
        let r = some-injective _ _ (rw (s, f, s5admin_parse_command) at (e)) in
        subst (λ q. IsCommand q.cmd) r
          (args-IsCommand _ rest k (omega (arith, find_command-lt commands 0 t (i, k) f)))
  ]
]
