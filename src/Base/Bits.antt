-- ===== src/Base/Bits.antt =====
-- Masks on one byte as arithmetic: each is a table of 256 entries, checked by evaluation.
use Prim.Native.Nat.{ℕ, zero, suc, ◌+◌, ◌-◌, ◌*◌, ◌/◌, ◌%◌, ◌<◌, bit_and, bit_or}
use mathlib.Core.Path.{◌≡◌, refl}
use mathlib.Core.Bool.{Bool, true, ◌&&◌}
use native.Mathlib.Omega.{arith}
use aqueduct.Base.Tests.{◌==◌}

-- Whether two functions agree at all numbers below a bound.
agree_below : (ℕ → ℕ) → (ℕ → ℕ) → ℕ → Bool
agree_below f g zero = true
agree_below f g (suc n) = f n == g n && agree_below f g n

agree_below_sound : (f g : ℕ → ℕ) (n i : ℕ) → agree_below f g n ≡ true → i < n → f i ≡ g i
unfolding agree_below
agree_below_sound f g zero i e h = absurd (omega arith)
agree_below_sound f g (suc n) i e h = ground (arith, agree_below_sound f g n i)

-- Clearing bits 7 and 6 leaves the low six.
pub clear_control : (b : ℕ) → b < 256 → bit_and (bit_and b 0x7f) 0xbf ≡ b % 64
unfolding agree_below
clear_control b h =
    agree_below_sound (λ x. bit_and (bit_and x 0x7f) 0xbf) (λ x. x % 64) 256 b refl h

pub bit_six : (b : ℕ) → b < 256 → bit_and b 0x40 ≡ b / 64 % 2 * 64
unfolding agree_below
bit_six b h = agree_below_sound (λ x. bit_and x 0x40) (λ x. x / 64 % 2 * 64) 256 b refl h

pub bit_seven : (b : ℕ) → b < 256 → bit_and b 0x80 ≡ b / 128 * 128
unfolding agree_below
bit_seven b h = agree_below_sound (λ x. bit_and x 0x80) (λ x. x / 128 * 128) 256 b refl h

pub set_bit_six : (b : ℕ) → b < 256 → bit_or b 0x40 ≡ b + (1 - b / 64 % 2) * 64
unfolding agree_below
set_bit_six b h =
    agree_below_sound (λ x. bit_or x 0x40) (λ x. x + (1 - x / 64 % 2) * 64) 256 b refl h

pub set_bit_seven : (b : ℕ) → b < 256 → bit_or b 0x80 ≡ b % 128 + 128
unfolding agree_below
set_bit_seven b h = agree_below_sound (λ x. bit_or x 0x80) (λ x. x % 128 + 128) 256 b refl h
