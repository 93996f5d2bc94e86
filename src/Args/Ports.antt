-- ===== src/Args/Ports.antt =====
-- Every port, printed in decimal, is read back.
use tpe_protos.Common.{
  ℕ, zero, suc, ◌+◌, ◌-◌, ◌*◌, ◌/◌, ◌%◌, ◌≤◌, ◌<◌, ◌≡◌, ◌≢◌, refl, ap, ◌∙◌, true, false, List, [],
  ◌∷◌, ◌++◌, some, ltb, decimal, decimal_digits, is_digit, read_digits, skip_spaces, signed, strtol,
  is_space, All, arith, Bool-cases, inl, inr, ◌==◌,
}
use tpe_protos.Args.{port}

abbrev AreDigits : List ℕ → Type 0
AreDigits xs = All (λ c. is_digit c ≡ true) xs

read_digits-append :
    (acc d : ℕ) (xs : List ℕ)
    → AreDigits xs
    → d < 10
    → read_digits acc (xs ++ (48 + d) ∷ []) ≡ ((read_digits acc xs).0 * 10 + d, [])
unfolding read_digits
read_digits-append acc d [] h l = ground arith
read_digits-append acc d (x ∷ xs) h l =
    rw (h.0) (read_digits-append (acc * 10 + (x - 48)) d xs h.1 l)

AreDigits-append : (xs : List ℕ) (d : ℕ) → AreDigits xs → d < 10 → AreDigits (xs ++ (48 + d) ∷ [])
AreDigits-append [] d h l = (ground arith, tt)
AreDigits-append (x ∷ xs) d h l = (h.0, AreDigits-append xs d h.1 l)

decimal_digits-AreDigits : (fuel n : ℕ) → AreDigits (decimal_digits fuel n)
unfolding decimal_digits
decimal_digits-AreDigits zero n = (ground arith, tt)
decimal_digits-AreDigits (suc fuel) n = elim (Bool-cases (ltb n 10)) [
  | inl t ↦ rw (t, decimal_digits) (ground arith, tt)
  | inr f ↦
      rw (f, decimal_digits)
        (AreDigits-append (decimal_digits fuel (n / 10)) (n % 10)
          (decimal_digits-AreDigits fuel (n / 10)) (omega arith))
]

append_one-nonempty : (xs : List ℕ) (d : ℕ) → xs ++ d ∷ [] ≢ []
append_one-nonempty [] d e = absurd (cc e)
append_one-nonempty (x ∷ xs) d e = absurd (cc e)

decimal_digits-nonempty : (fuel n : ℕ) → decimal_digits fuel n ≢ []
unfolding decimal_digits
decimal_digits-nonempty zero n = λ e. absurd (cc e)
decimal_digits-nonempty (suc fuel) n = elim (Bool-cases (ltb n 10)) [
  | inl t ↦ rw (t, decimal_digits) (λ e. absurd (cc e))
  | inr f ↦
      rw (f, decimal_digits) (append_one-nonempty (decimal_digits fuel (n / 10)) (48 + n % 10))
]

read_digits-decimal_digits :
    (fuel n : ℕ) → n ≤ fuel → read_digits 0 (decimal_digits fuel n) ≡ (n, [])
unfolding decimal_digits read_digits
read_digits-decimal_digits zero n h =
    read_digits-append 0 (n % 10) [] tt (omega arith)
    ∙ ap (λ k. (k, [])) {x = 0 * 10 + n % 10} (omega arith)
read_digits-decimal_digits (suc fuel) n h = elim (Bool-cases (ltb n 10)) [
  | inl t ↦
      rw (t, decimal_digits)
        (read_digits-append 0 n [] tt (ground arith)
          ∙ ap (λ k. (k, [])) {x = 0 * 10 + n} (omega arith))
  | inr f ↦
      rw (f, decimal_digits)
        (read_digits-append 0 (n % 10) (decimal_digits fuel (n / 10))
            (decimal_digits-AreDigits fuel (n / 10)) (omega arith)
          ∙ ap (λ (r : ℕ × List ℕ). (r.0 * 10 + n % 10, []))
              (read_digits-decimal_digits fuel (n / 10) (ground arith))
          ∙ ap (λ k. (k, [])) {x = n / 10 * 10 + n % 10} (omega arith))
]

space-digit : (c : ℕ) → is_digit c ≡ true → is_space c ≡ false
space-digit c h = ground (arith, h)

skip_spaces-digit : (c : ℕ) (cs : List ℕ) → is_digit c ≡ true → skip_spaces (c ∷ cs) ≡ c ∷ cs
unfolding skip_spaces
skip_spaces-digit c cs h = rw (space-digit c h) refl

minus-digit : (c : ℕ) → is_digit c ≡ true → (c == 45) ≡ false
minus-digit c h = ground (arith, h)

plus-digit : (c : ℕ) → is_digit c ≡ true → (c == 43) ≡ false
plus-digit c h = ground (arith, h)

read_digits-digit :
    (acc c : ℕ) (cs : List ℕ)
    → is_digit c ≡ true
    → read_digits (acc * 10 + (c - 48)) cs ≡ read_digits acc (c ∷ cs)
unfolding read_digits
read_digits-digit acc c cs h = rw h refl

port-digits :
    (c n : ℕ) (cs : List ℕ)
    → is_digit c ≡ true
    → read_digits 0 (c ∷ cs) ≡ (n, [])
    → n < 65536
    → port (c ∷ cs) ≡ some n
unfolding port strtol signed
port-digits c n cs h e l =
    rw
      (
        port,
        strtol,
        skip_spaces-digit c cs h,
        minus-digit c h,
        plus-digit c h,
        signed,
        h,
        read_digits-digit 0 c cs h ∙ e,
      )
      (ground arith)

port-number :
    (n : ℕ) (s : List ℕ)
    → AreDigits s
    → s ≢ []
    → read_digits 0 s ≡ (n, [])
    → n < 65536
    → port s ≡ some n
port-number n [] d some_digit e l = absurd (some_digit refl)
port-number n (c ∷ cs) d some_digit e l = port-digits c n cs d.0 e l

-- Every port number, printed in decimal, is read back.
pub port-decimal : (n : ℕ) → n < 65536 → port (decimal n) ≡ some n
unfolding decimal
port-decimal n l =
    port-number n (decimal n) (decimal_digits-AreDigits n n) (decimal_digits-nonempty n n)
      (read_digits-decimal_digits n n (omega arith)) l
