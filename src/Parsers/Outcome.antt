-- ===== src/Parsers/Outcome.antt =====
-- What a message parser says of a list of bytes, and the loop that feeds a parser until it says so.
use tpe_protos.Common.{
  ℕ, zero, suc, drop, List, [], ◌∷◌, ◌==◌, if◌then◌else◌, ◌<◌, ◌≡◌, true, false,
}

-- More bytes are wanted, the message is malformed, or it is complete: its value and the bytes
-- behind it.
pub data Outcome {ℓ} (A : Type ℓ) : Type ℓ where
  more : Outcome A
  bad : Outcome A
  complete : A → List ℕ → Outcome A

abbrev pub map_outcome {ℓ κ} : {A : Type ℓ} {B : Type κ} → (A → B) → Outcome A → Outcome B
map_outcome f more = more
map_outcome f bad = bad
map_outcome f (complete a rest) = complete (f a) rest

-- Every element of the list is a byte.
abbrev pub AreBytes : List ℕ → Type 0
AreBytes [] = Unit {0}
AreBytes (c ∷ cs) = (c < 256) × AreBytes cs

-- Feeds `p` until `feed` returns the state `done` or `error`.
unfoldable pub drive {ℓ} : {P : Type ℓ} → (P → ℕ → P × ℕ) → ℕ → ℕ → P → List ℕ → Outcome P
drive feed done error p [] = more
drive feed done error p (c ∷ cs) =
    let (p', s) = feed p c in
    if s == done then complete p' cs else if s == error then bad else drive feed done error p' cs

module _ {ℓ} {P : Type ℓ} (feed : P → ℕ → P × ℕ) (done error : ℕ) where
  -- A byte that leaves the message unfinished.
  pub drive_next :
      (p : P) (c : ℕ) (cs : List ℕ) (p' : P) (s : ℕ)
      → feed p c ≡ (p', s)
      → (s == done) ≡ false
      → (s == error) ≡ false
      → drive feed done error p (c ∷ cs) ≡ drive feed done error p' cs
  unfolding drive
  drive_next p c cs p' s e h k = rw (e, h, k)

  pub drive-done :
      (p : P) (c : ℕ) (cs : List ℕ) (p' : P) (s : ℕ)
      → feed p c ≡ (p', s)
      → (s == done) ≡ true
      → drive feed done error p (c ∷ cs) ≡ complete p' cs
  unfolding drive
  drive-done p c cs p' s e h = rw (e, h)

  pub drive_bad :
      (p : P) (c : ℕ) (cs : List ℕ) (p' : P) (s : ℕ)
      → feed p c ≡ (p', s)
      → (s == done) ≡ false
      → (s == error) ≡ true
      → drive feed done error p (c ∷ cs) ≡ bad
  unfolding drive
  drive_bad p c cs p' s e h k = rw (e, h, k)

pub AreBytes-drop : (n : ℕ) (bytes : List ℕ) → AreBytes bytes → AreBytes (drop n bytes)
AreBytes-drop zero bytes h = h
AreBytes-drop (suc n) [] h = tt
AreBytes-drop (suc n) (c ∷ cs) h = AreBytes-drop n cs h.1
