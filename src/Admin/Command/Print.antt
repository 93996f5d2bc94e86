-- ===== src/Admin/Command/Print.antt =====
-- A command printed as a line, and the line read back.
use mathlib.Core.Option.{some-injective, none-ne-some}
use mathlib.Core.Path.{subst}
use tpe_protos.Common.{
  ℕ, zero, suc, ◌+◌, ◌≤◌, ◌≡◌, refl, ap, sym, ◌∙◌, Bool, true, false, ◌&&◌, not, List, [], ◌∷◌,
  Option, none, some, length, take, get_elem?, str_eq, c_string, All, arith, Bool-cases, inl, inr,
  ◌==◌,
}
use tpe_protos.Admin.Command.{
  ParsedCommand, CommandInfo, commands, args_len, cmd_invalid, strncpy, is_delimiter, find_command,
  s5admin_parse_command,
}
use tpe_protos.Admin.Command.Words.{words, join, words-join, IsWord}
use tpe_protos.Admin.Command.Spec.{
  accepted, refused, arity, reading, meaning, known, verdict, judge, arrays,
  s5admin_parse_command_lem,
}

all_clear : List ℕ → Bool
all_clear [] = true
all_clear (c ∷ cs) = not (is_delimiter c) && all_clear cs

all_clear-All : (cs : List ℕ) → all_clear cs ≡ true → All (λ c. is_delimiter c ≡ false) cs
unfolding all_clear
all_clear-All [] h = _
all_clear-All (c ∷ cs) h = (ground (arith, h), all_clear-All cs (ground (arith, h)))

is_word : List ℕ → Bool
unfolding all_clear
is_word [] = false
is_word (c ∷ cs) = all_clear (c ∷ cs)

is_word-IsWord : (w : List ℕ) → is_word w ≡ true → IsWord w
unfolding is_word
is_word-IsWord [] h = absurd (ground (arith, h))
is_word-IsWord (c ∷ cs) h = all_clear-All (c ∷ cs) h

-- The entries of the table, from index `i` on, are words that are looked up at their own index.
AreFound : ℕ → List CommandInfo → Type 0
AreFound i [] = Unit
AreFound i (c ∷ cs) =
    (is_word c.name ≡ true)
    × (find_command commands 0 c.name ≡ some (i, c.expected_args))
    × AreFound (suc i) cs

commands-AreFound : AreFound 0 commands
unfolding AreFound is_word find_command str_eq commands all_clear
commands-AreFound = (
  refl,
  refl,
  (
    refl,
    refl,
    (
      refl,
      refl,
      (
        refl,
        refl,
        (
          refl,
          refl,
          (
            refl,
            refl,
            (refl, refl, (refl, refl, (refl, refl, (refl, refl, (refl, refl, (refl, refl, _)))))),
          ),
        ),
      ),
    ),
  ),
)

found_lem :
    (cs : List CommandInfo) (i n : ℕ) (c : CommandInfo)
    → AreFound i cs
    → get_elem? cs n ≡ some c
    → IsWord c.name × (find_command commands 0 c.name ≡ some (i + n, c.expected_args))
unfolding AreFound
found_lem [] i n c f e = absurd (none-ne-some _ e)
found_lem (d ∷ cs) i zero c f e =
    let same : d ≡ c = some-injective _ _ e in
    subst (λ q. IsWord q.name × (find_command commands 0 q.name ≡ some (i + 0, q.expected_args)))
      same
      (
        is_word-IsWord d.name f.0,
        rw (f.1) (ap (λ t. some (t, d.expected_args)) {x = i} (omega arith)),
      )
found_lem (d ∷ cs) i (suc n) c f e =
    let (word, found) = found_lem cs (suc i) n c f.2 e in
    (word, found ∙ ap (λ t. some (t, c.expected_args)) {x = suc i + n} (omega arith))

judge-accepts :
    (ws : List (List ℕ)) → All (λ w. length w ≤ args_len) ws → judge (length ws) ws ≡ none
unfolding judge
judge-accepts [] h = refl
judge-accepts (w ∷ ws) h = ground (arith, h.0, judge-accepts ws h.1)

-- A line printed from the name of a command of the table and as many arguments as it takes, each a word of
-- at most `args_len` characters, is parsed as that command with those arguments.
pub parse-join :
    (parsed : ParsedCommand) (n : ℕ) (c : CommandInfo) (ws : List (List ℕ))
    → get_elem? commands n ≡ some c
    → length ws ≡ c.expected_args
    → All IsWord ws
    → All (λ w. length w ≤ args_len) ws
    → reading (s5admin_parse_command parsed (join c.name ws)) ≡ accepted n (arrays ws)
unfolding meaning
parse-join parsed n c ws e count words short =
    let (word, found) = found_lem commands 0 n c commands-AreFound e in
    s5admin_parse_command_lem parsed (join c.name ws)
    ∙ ap meaning (words-join c.name ws word words)
    ∙ ap (known ws) found
    ∙ ap (verdict (0 + n) ws) (ap (λ k. judge k ws) (sym count) ∙ judge-accepts ws short)
    ∙ ap (λ k. accepted k (arrays ws)) {x = 0 + n} (omega arith)

accepted-injective :
    (m n : ℕ) (xs ys : List (List ℕ)) → accepted m xs ≡ accepted n ys → (m ≡ n) × (xs ≡ ys)
accepted-injective m n xs ys e = (cc, cc)

cons_injective : (a b c d : List ℕ) → a ∷ b ∷ [] ≡ c ∷ d ∷ [] → (a ≡ c) × (b ≡ d)
cons_injective a b c d e = (cc, cc)

-- A command with two arguments, read from the struct.
accepted_two :
    (o : Option ParsedCommand) (n : ℕ) (a b : List ℕ)
    → arity n ≡ 2
    → reading o ≡ accepted n (a ∷ b ∷ [])
    → (q : ParsedCommand) × (o ≡ some q) × (q.cmd ≡ n) × (q.arg1 ≡ a) × (q.arg2 ≡ b)
unfolding reading
accepted_two none n a b two e = cc
accepted_two (some q) n a b two e = elim (Bool-cases (q.cmd == cmd_invalid)) [
  | inl t ↦ let r : refused (c_string q.arg1) ≡ accepted n (a ∷ b ∷ []) = rw t at (e) in cc
  | inr f ↦
      let r : accepted q.cmd (take (arity q.cmd) (q.arg1 ∷ q.arg2 ∷ [])) ≡ accepted n (a ∷ b ∷ []) =
        rw f at (e) in
      let (same, args) = accepted-injective _ _ _ _ r in
      let k : arity q.cmd ≡ 2 = ap arity same ∙ two in
      let args' =
        cons_injective q.arg1 q.arg2 a b
          (ap (λ (j : ℕ). take j (q.arg1 ∷ q.arg2 ∷ [])) (sym k) ∙ args) in
      (q, refl, same, args'.0, args'.1)
]

-- The two arrays of a command with two arguments.
pub parse-join_two :
    (parsed : ParsedCommand) (n : ℕ) (c : CommandInfo) (u v : List ℕ)
    → get_elem? commands n ≡ some c
    → c.expected_args ≡ 2
    → IsWord u × IsWord v
    → (length u ≤ args_len) × (length v ≤ args_len)
    → (q : ParsedCommand) × (s5admin_parse_command parsed (join c.name (u ∷ v ∷ [])) ≡ some q)
      × (q.cmd ≡ n)
      × (q.arg1 ≡ strncpy u)
      × (q.arg2 ≡ strncpy v)
unfolding arity
parse-join_two parsed n c u v e two ws short =
    accepted_two (s5admin_parse_command parsed (join c.name (u ∷ v ∷ []))) n (strncpy u) (strncpy v)
      (rw (e, arity) two)
      (parse-join parsed n c (u ∷ v ∷ []) e (sym two) (ws.0, (ws.1, tt)) (short.0, (short.1, tt)))
