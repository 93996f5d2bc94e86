-- ===== src/Common/CString.antt =====
-- C strings: the characters of an array in front of its first zero.
use Prim.Native.Nat.{ℕ}
use mathlib.Core.Path.{◌≡◌, refl}
use mathlib.Core.List.{List, [], ◌∷◌, ◌++◌}
use native.Mathlib.Omega.{arith}
use tpe_protos.Common.Tests.{◌==◌, if◌then◌else◌}

unfoldable pub c_string : List ℕ → List ℕ
c_string [] = []
c_string (c ∷ cs) = if c == 0 then [] else c ∷ c_string cs

-- A zero written behind the characters ends the string, whatever follows.
pub c_string-append_zero : (xs ys : List ℕ) → c_string (xs ++ 0 ∷ ys) ≡ c_string xs
unfolding c_string
c_string-append_zero [] ys = refl
c_string-append_zero (x ∷ xs) ys = ground (arith, c_string-append_zero xs ys)
