-- ===== src/Common/Utf8.antt =====
-- Strings that encoding/json keeps as they are: `utf8.ValidString` of Go's standard library.
use elrond_eth_bridge.Common.Bytes.{Bytes}
use elrond_eth_bridge.Common.Tests.{ltb, leb, ◌==◌, if◌then◌else◌}
use Prim.Native.Nat.{ℕ, zero, suc}
use mathlib.Core.Bool.{Bool, true, false, ◌&&◌}
use mathlib.Core.Option.{Option, none, some}
use mathlib.Core.List.{[], ◌∷◌}

abbrev within : ℕ → ℕ → ℕ → Bool
within low high b = leb low b && leb b high

-- What a first byte asks for: how many bytes follow, and the range of the next one.
unfoldable pub lead : ℕ → Option (ℕ × ℕ × ℕ)
lead b =
    if ltb b 128
    then some (0, 128, 191)
    else if within 194 223 b
    then some (1, 128, 191)
    else if b == 224
    then some (2, 160, 191)
    else if b == 237
    then some (2, 128, 159)
    else if within 225 239 b
    then some (2, 128, 191)
    else if b == 240
    then some (3, 144, 191)
    else if within 241 243 b
    then some (3, 128, 191)
    else if b == 244
    then some (3, 128, 143)
    else none

-- From inside a character of which so many bytes are missing, the next of them in that range.
unfoldable pub utf8_from : ℕ → ℕ → ℕ → Bytes → Bool
utf8_from zero low high [] = true
utf8_from (suc n) low high [] = false
utf8_from (suc n) low high (b ∷ bytes) =
    let rest = utf8_from n 128 191 bytes in within low high b && rest
utf8_from zero low high (b ∷ bytes) = elim (lead b) [
  | none ↦ false
  | some (n, next_low, next_high) ↦ utf8_from n next_low next_high bytes
]

unfoldable pub is_utf8 : Bytes → Bool
is_utf8 bytes = utf8_from 0 128 191 bytes
