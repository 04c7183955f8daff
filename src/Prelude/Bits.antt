-- ===== src/Prelude/Bits.antt =====
-- Masks of one byte as arithmetic; each is a table over all bytes, checked by evaluation.
use Prim.Native.Nat.{ℕ, zero, suc, ◌*◌, ◌/◌, ◌%◌, ◌<◌, bit_and}
use mathlib.Core.Path.{◌≡◌, refl}
use mathlib.Core.Bool.{Bool, true, ◌&&◌}
use native.Mathlib.Omega.{arith}
use dns_relay.Prelude.Tests.{◌==◌}

module _ (f g : ℕ → ℕ) where
  same_below : ℕ → Bool
  same_below zero = true
  same_below (suc n) = f n == g n && same_below n

  same_below_sound : (n : ℕ) → same_below n ≡ true → (b : ℕ) → b < n → f b ≡ g b
  unfolding same_below
  same_below_sound zero e b h = absurd (omega arith)
  same_below_sound (suc n) e b h = ground (arith, same_below_sound n (ground arith) b)

-- `b & 0xC0` and `b & 0x3F`: the two high bits of a length byte, and the rest.
pub high_bits : (b : ℕ) → b < 256 → bit_and b 0xC0 ≡ b / 64 * 64
unfolding same_below
high_bits = same_below_sound _ _ 256 refl

pub low_bits : (b : ℕ) → b < 256 → bit_and b 0x3F ≡ b % 64
unfolding same_below
low_bits = same_below_sound _ _ 256 refl

-- `b & 0xFE`
pub even_bits : (b : ℕ) → b < 256 → bit_and b 0xFE ≡ b / 2 * 2
unfolding same_below
even_bits = same_below_sound _ _ 256 refl
