-- ===== src/Common/Uint.antt =====
-- `binary.BigEndian` on `uint64` values: eight bytes, the most significant first.
use Prim.Native.Nat.{ℕ, ◌+◌, ◌*◌, ◌/◌, ◌%◌, ◌^◌, ◌<◌}
use mathlib.Core.Path.{◌≡◌}
use mathlib.Core.List.{[], ◌∷◌}
use native.Mathlib.Omega.{arith}
use elrond_eth_bridge.Common.Bytes.{Bytes}

-- `PutUint64` into a new buffer.
unfoldable pub put_uint64 : ℕ → Bytes
put_uint64 n =
    n / 2 ^ 56 % 256
    ∷ n / 2 ^ 48 % 256
    ∷ n / 2 ^ 40 % 256
    ∷ n / 2 ^ 32 % 256
    ∷ n / 2 ^ 24 % 256
    ∷ n / 2 ^ 16 % 256
    ∷ n / 2 ^ 8 % 256
    ∷ n % 256
    ∷ []

-- `Uint64`; a shorter buffer panics in Go.
unfoldable pub get_uint64 : Bytes → ℕ
get_uint64 (a ∷ b ∷ c ∷ d ∷ e ∷ f ∷ g ∷ h ∷ _) =
    a * 2 ^ 56 + b * 2 ^ 48 + c * 2 ^ 40 + d * 2 ^ 32 + e * 2 ^ 24 + f * 2 ^ 16 + g * 2 ^ 8 + h
get_uint64 _ = 0

pub get-put_uint64 : (n : ℕ) → n < 2 ^ 64 → get_uint64 (put_uint64 n) ≡ n
unfolding get_uint64 put_uint64
get-put_uint64 n h = omega arith
