-- ===== src/Common/Strtol.antt =====
-- `strtol` with base 10, and `atoi`, as glibc has them: a `long` has 64 bits, an `int` 32.
use Prim.Native.Nat.{ℕ, zero, suc, ◌+◌, ◌-◌, ◌*◌, ◌%◌, ◌^◌}
use mathlib.Core.Bool.{Bool, true, false, ◌&&◌, ◌||◌}
use mathlib.Core.List.{List, [], ◌∷◌}
use tpe_protos.Common.Tests.{ltb, leb, ◌==◌, if◌then◌else◌}
use tpe_protos.Common.Int.{ℤ, pos, negsuc}

abbrev pub is_digit : ℕ → Bool
is_digit c = leb 48 c && leb c 57

abbrev pub is_space : ℕ → Bool
is_space c = c == 32 || (leb 9 c && leb c 13)

unfoldable pub skip_spaces : List ℕ → List ℕ
skip_spaces [] = []
skip_spaces (c ∷ cs) = let next = skip_spaces cs in if is_space c then next else c ∷ cs

-- The digits in front, read on from `n`, and what follows them.
unfoldable pub read_digits : ℕ → List ℕ → ℕ × List ℕ
read_digits n [] = (n, [])
read_digits n (c ∷ cs) =
    let next = read_digits (n * 10 + (c - 48)) cs in if is_digit c then next else (n, c ∷ cs)

-- The value, whether `errno` says that it is out of range, what `end` points at, and whether there was
-- a digit at all; where there was none, `end` is the text itself.
pub record Strtol : Type 0 where
  pub value : ℤ
  pub range_error : Bool
  pub end : List ℕ
  pub converted : Bool

abbrev long_of : Bool → ℕ → ℤ
long_of false n = if leb (2 ^ 63) n then pos (2 ^ 63 - 1) else pos n
long_of true zero = pos 0
long_of true (suc n) = if leb (2 ^ 63) n then negsuc (2 ^ 63 - 1) else negsuc n

abbrev pub long_max : ℕ
long_max = 2 ^ 63 - 1

-- A sign was read, and `cs` follows.
unfoldable pub signed : List ℕ → Bool → List ℕ → Strtol
signed s minus [] = record { value = pos 0; range_error = false; end = s; converted = false }
signed s minus (c ∷ cs) =
    if is_digit c
    then (let (n, rest) = read_digits 0 (c ∷ cs) in
        record {
          value = long_of minus n;
          range_error = if minus then ltb (2 ^ 63) n else ltb long_max n;
          end = rest;
          converted = true;
        })
    else record { value = pos 0; range_error = false; end = s; converted = false }

abbrev pub sign : List ℕ → List ℕ → Strtol
sign s [] = signed s false []
sign s (c ∷ cs) =
    if c == 45
    then signed s true cs
    else if c == 43
    then signed s false cs
    else signed s false (c ∷ cs)

unfoldable pub strtol : List ℕ → Strtol
unfolding skip_spaces signed read_digits
strtol s = sign s (skip_spaces s)

-- A `long` cast to an `int`: its low 32 bits.
abbrev int_of_bits : ℕ → ℤ
int_of_bits m = if ltb m (2 ^ 31) then pos m else negsuc (2 ^ 32 - 1 - m)

abbrev int_of : ℤ → ℤ
int_of (pos n) = int_of_bits (n % 2 ^ 32)
int_of (negsuc n) = int_of_bits (2 ^ 32 - 1 - n % 2 ^ 32)

unfoldable pub atoi : List ℕ → ℤ
unfolding strtol
atoi s = int_of (strtol s).value
