-- ===== src/Common/Bytes.antt =====
-- Byte strings as lists of numbers, with the equality of `bytes.Equal` and of string keys.
use Prim.Native.Nat.{ℕ}
use mathlib.Core.Path.{◌≡◌}
use mathlib.Core.Logic.{◌↔◌}
use mathlib.Core.Bool.{Bool, true, false, ◌&&◌}
use mathlib.Core.List.{List, [], ◌∷◌}
use native.Mathlib.Decide.{ℕ_discrete}
use native.Mathlib.Omega.{arith}
use elrond_eth_bridge.Common.Tests.{◌==◌}

-- `[]byte`
abbrev pub Bytes : Type 0
Bytes = List ℕ

unfoldable pub bytes_equal : Bytes → Bytes → Bool
bytes_equal [] [] = true
bytes_equal [] (y ∷ ys) = false
bytes_equal (x ∷ xs) [] = false
bytes_equal (x ∷ xs) (y ∷ ys) = x == y && bytes_equal xs ys

pub bytes_equal_iff : (xs ys : Bytes) → (bytes_equal xs ys ≡ true) ↔ (xs ≡ ys)
unfolding bytes_equal
bytes_equal_iff [] [] = ground arith
bytes_equal_iff [] (y ∷ ys) = ground arith
bytes_equal_iff (x ∷ xs) [] = ground arith
bytes_equal_iff (x ∷ xs) (y ∷ ys) = ground (arith, bytes_equal_iff xs ys)

pub Bytes-discrete : Discrete Bytes
Bytes-discrete = hlevel (ℕ_discrete)
