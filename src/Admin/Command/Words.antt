-- ===== src/Admin/Command/Words.antt =====
-- The words of a line, found all at once, and `strtok` against them.
use tpe_protos.Common.{
  ℕ, ◌≡◌, refl, ap, List, [], ◌∷◌, ◌++◌, Option, none, some, false, if◌then◌else◌, All, append-nil,
  Bool-cases, inl, inr,
}
use tpe_protos.Admin.Command.{is_delimiter, token, strtok}

-- A word in front of others, if it has a character.
abbrev push_word : List ℕ → List (List ℕ) → List (List ℕ)
push_word [] ws = ws
push_word (c ∷ cs) ws = (c ∷ cs) ∷ ws

-- The characters up to the first delimiter, and the words behind it.
split_line : List ℕ → List ℕ × List (List ℕ)
split_line [] = ([], [])
split_line (c ∷ cs) =
    let (w, ws) = split_line cs in if is_delimiter c then ([], push_word w ws) else (c ∷ w, ws)

unfoldable pub words : List ℕ → List (List ℕ)
unfolding split_line
words line = push_word (split_line line).0 (split_line line).1

abbrev pub first_word : Option (List ℕ × List ℕ) → List (List ℕ)
first_word none = []
first_word (some (t, rest)) = t ∷ words rest

token-split_line :
    (cs : List ℕ) → ((split_line cs).0 ≡ (token cs).0) × ((split_line cs).1 ≡ words (token cs).1)
unfolding split_line token words
token-split_line [] = (refl, refl)
token-split_line (c ∷ cs) =
    let ih = token-split_line cs in
    elim (Bool-cases (is_delimiter c)) [
      | inl e ↦ rw e (refl, refl)
      | inr e ↦ rw e (ap (λ t. c ∷ t) ih.0, ih.1)
    ]

pub words-strtok : (line : List ℕ) → words line ≡ first_word (strtok line)
unfolding words strtok split_line
words-strtok [] = refl
words-strtok (c ∷ cs) = elim (Bool-cases (is_delimiter c)) [
  | inl e ↦ rw e (words-strtok cs)
  | inr e ↦ rw (e, (token-split_line cs).0, (token-split_line cs).1)
]

split_line-newline : (line : List ℕ) → split_line (line ++ 10 ∷ []) ≡ split_line line
unfolding split_line
split_line-newline [] = refl
split_line-newline (c ∷ cs) = rw (split_line-newline cs) refl

-- A newline behind a line adds no word.
pub words-newline : (line : List ℕ) → words (line ++ 10 ∷ []) ≡ words line
unfolding words
words-newline line = rw (split_line-newline line) refl

-- Words joined by single spaces.
unfoldable pub join : List ℕ → List (List ℕ) → List ℕ
join w [] = w
join w (v ∷ vs) = w ++ 32 ∷ join v vs

abbrev IsClear : ℕ → Type 0
IsClear c = is_delimiter c ≡ false

-- A word has characters, none of them a delimiter.
abbrev pub IsWord : List ℕ → Type 0
IsWord [] = ⊥
IsWord (c ∷ cs) = IsClear c × All IsClear cs

split_line-append :
    (w r : List ℕ)
    → All IsClear w
    → ((split_line (w ++ r)).0 ≡ w ++ (split_line r).0)
      × ((split_line (w ++ r)).1 ≡ (split_line r).1)
unfolding split_line
split_line-append [] r h = (refl, refl)
split_line-append (c ∷ w) r h =
    let ih = split_line-append w r h.1 in rw h.0 (ap (λ t. c ∷ t) ih.0, ih.1)

split_line-word : (w : List ℕ) → All IsClear w → split_line w ≡ (w, [])
unfolding split_line
split_line-word [] h = refl
split_line-word (c ∷ w) h = rw (split_line-word w h.1, h.0)

pub words-join :
    (w : List ℕ) (ws : List (List ℕ)) → IsWord w → All IsWord ws → words (join w ws) ≡ w ∷ ws
unfolding join words split_line
words-join [] ws h k = absurd h
words-join (c ∷ w) [] h k = ap (λ p. push_word p.0 p.1) (split_line-word (c ∷ w) h)
words-join (c ∷ w) (v ∷ vs) h k =
    let e = split_line-append (c ∷ w) (32 ∷ join v vs) h in
    rw (e.0, e.1, append-nil w) (ap (λ t. (c ∷ w) ∷ t) (words-join v vs k.0 k.1))
