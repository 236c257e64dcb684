-- ===== src/Prelude/Bits.antt =====
-- Single bits of a number, for the source's `b & (1 << k) != 0` and `b |= 1 << k`.
use Prim.Native.Nat.{ℕ, zero, suc, ◌+◌, ◌-◌, ◌*◌, ◌/◌, ◌%◌, ◌^◌, ◌<◌}
use mathlib.Core.Path.{◌≡◌}
use mathlib.Core.Bool.{Bool, true}
use native.Mathlib.Omega.{arith}
use native.Mathlib.Nat.{pow-suc}
use raku_sika_hub.Prelude.Tests.{◌==◌, if◌then◌else◌}

-- b & (1 << k) != 0
abbrev pub has_bit : ℕ → ℕ → Bool
has_bit b zero = b % 2 == 1
has_bit b (suc k) = has_bit (b / 2) k

-- b | (1 << k)
abbrev pub set_bit : ℕ → ℕ → ℕ
set_bit b zero = b + (1 - b % 2)
set_bit b (suc k) = set_bit (b / 2) k * 2 + b % 2

pub has_bit-set_bit : (b k j : ℕ) → has_bit (set_bit b k) j ≡ (if k == j then true else has_bit b j)
has_bit-set_bit b zero zero = ground arith
has_bit-set_bit b zero (suc j) =
    let half : (b + (1 - b % 2)) / 2 ≡ b / 2 = omega arith in rw half (ground arith)
has_bit-set_bit b (suc k) zero = ground arith
has_bit-set_bit b (suc k) (suc j) =
    let half : (set_bit (b / 2) k * 2 + b % 2) / 2 ≡ set_bit (b / 2) k = omega arith in
    rw (half, has_bit-set_bit (b / 2) k j) (ground arith)

pub set_bit-lt : (b k w : ℕ) → b < 2 ^ w → k < w → set_bit b k < 2 ^ w
set_bit-lt b k zero h l = absurd (omega arith)
set_bit-lt b zero (suc w) h l = omega (arith, pow-suc 2 w)
set_bit-lt b (suc k) (suc w) h l =
    omega (arith, pow-suc 2 w, set_bit-lt (b / 2) k w (omega (arith, pow-suc 2 w)) (omega arith))
