-- ===== src/Common/Decimal.antt =====
-- A number printed in decimal: `%d`, `%u` and `%lu` of a number that is not negative.
use Prim.Native.Nat.{ℕ, zero, suc, ◌+◌, ◌/◌, ◌%◌}
use mathlib.Core.Bool.{true, false}
use mathlib.Core.List.{List, [], ◌∷◌, ◌++◌}
use tpe_protos.Common.Tests.{ltb}

-- At most `fuel` more digits in front of the last one.
unfoldable pub decimal_digits : ℕ → ℕ → List ℕ
decimal_digits zero n = (48 + n % 10) ∷ []
decimal_digits (suc fuel) n = elim (ltb n 10) [
  | true ↦ (48 + n) ∷ []
  | false ↦ decimal_digits fuel (n / 10) ++ (48 + n % 10) ∷ []
]

-- A number has fewer digits than its value tells.
unfoldable pub decimal : ℕ → List ℕ
unfolding decimal_digits
decimal n = decimal_digits n n
