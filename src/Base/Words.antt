-- ===== src/Base/Words.antt =====
-- Machine words: little-endian bytes and `next_multiple_of`.
use idf_remote.Base.Tests.{◌==◌, if◌then◌else◌}
use idf_remote.Base.Lists.{Bytes, length, All, IsByte}
use Prim.Native.Nat.{ℕ, zero, suc, ◌+◌, ◌-◌, ◌*◌, ◌/◌, ◌%◌, ◌^◌, ◌≤◌, ◌<◌}
use mathlib.Core.Path.{◌≡◌, refl, ap}
use mathlib.Core.List.{[], ◌∷◌}
use native.Mathlib.Omega.{arith}
use native.Mathlib.Nat.{pow-suc}

-- `to_le_bytes` of a word of `k` bytes, and `from_le_bytes`.
unfoldable pub to_le_bytes : ℕ → ℕ → Bytes
to_le_bytes zero n = []
to_le_bytes (suc k) n = n % 256 ∷ to_le_bytes k (n / 256)

unfoldable pub from_le_bytes : Bytes → ℕ
from_le_bytes [] = 0
from_le_bytes (b ∷ bs) = b + 256 * from_le_bytes bs

pub length-to_le_bytes : (k n : ℕ) → length (to_le_bytes k n) ≡ k
unfolding to_le_bytes
length-to_le_bytes zero n = refl
length-to_le_bytes (suc k) n = ap suc (length-to_le_bytes k (n / 256))

pub from_le_bytes-to_le_bytes : (k n : ℕ) → n < 256 ^ k → from_le_bytes (to_le_bytes k n) ≡ n
unfolding to_le_bytes from_le_bytes
from_le_bytes-to_le_bytes zero n h = omega arith
from_le_bytes-to_le_bytes (suc k) n h =
    omega
      (arith, pow-suc 256 k, from_le_bytes-to_le_bytes k (n / 256) (omega (arith, pow-suc 256 k)))

-- `next_multiple_of`, where the sum does not leave the word.
unfoldable pub next_multiple_of : ℕ → ℕ → ℕ
next_multiple_of n m = if n % m == 0 then n else n + (m - n % m)

pub next_multiple_of_bounds :
    (n m : ℕ) → 0 < m → (n ≤ next_multiple_of n m) × (next_multiple_of n m < n + m)
unfolding next_multiple_of
next_multiple_of_bounds n m h = ground arith

pub next_multiple_of_four : (n : ℕ) → next_multiple_of n 4 % 4 ≡ 0
unfolding next_multiple_of
next_multiple_of_four n = ground arith

pub next_multiple_of_sector : (n : ℕ) → next_multiple_of n 4096 % 4096 ≡ 0
unfolding next_multiple_of
next_multiple_of_sector n = ground arith

pub to_le_bytes-from_le_bytes :
    (bs : Bytes) → All IsByte bs → to_le_bytes (length bs) (from_le_bytes bs) ≡ bs
unfolding to_le_bytes from_le_bytes
to_le_bytes-from_le_bytes [] h = refl
to_le_bytes-from_le_bytes (b ∷ bs) (h, t) =
    let low : (b + 256 * from_le_bytes bs) % 256 ≡ b = omega arith in
    let high : (b + 256 * from_le_bytes bs) / 256 ≡ from_le_bytes bs = omega arith in
    rw (low, high, to_le_bytes-from_le_bytes bs t)

pub from_le_bytes-lt : (bs : Bytes) → All IsByte bs → from_le_bytes bs < 256 ^ length bs
unfolding from_le_bytes
from_le_bytes-lt [] h = omega arith
from_le_bytes-lt (b ∷ bs) (h, t) = omega (arith, pow-suc 256 (length bs), from_le_bytes-lt bs t)
