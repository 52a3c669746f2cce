-- ===== src/Base/Bits.antt =====
-- Single bits of a byte, and masks as arithmetic.
use Prim.Native.Nat.{ℕ, zero, suc, ◌+◌, ◌*◌, ◌/◌, ◌%◌, ◌<◌, compare, Ordering, bit_and, bit_or}
use mathlib.Core.Path.{◌≡◌, refl}
use mathlib.Core.Bool.{Bool, true, false, ◌&&◌}
use native.Mathlib.Omega.{arith}

-- `x & m != 0`
abbrev pub has_bit : ℕ → ℕ → Bool
has_bit x m = elim (compare (bit_and x m) 0) [ Ordering.eq ↦ false | _ ↦ true ]

module _ (f g : ℕ → ℕ) where
  agree_below : ℕ → Bool
  agree_below zero = true
  agree_below (suc n) =
      elim (compare (f n) (g n)) [ Ordering.eq ↦ true | _ ↦ false ] && agree_below n

  agree_below→eq : (n : ℕ) → agree_below n ≡ true → (i : ℕ) → i < n → f i ≡ g i
  unfolding agree_below
  agree_below→eq zero e i h = absurd (omega arith)
  agree_below→eq (suc n) e i h = ground (arith, agree_below→eq n (ground arith) i)

pub low_seven : (b : ℕ) → b < 256 → bit_and b 0x7f ≡ b % 128
unfolding agree_below
low_seven = agree_below→eq _ _ 256 refl

pub top_bit : (b : ℕ) → b < 256 → bit_and b 0x80 ≡ b / 128 * 128
unfolding agree_below
top_bit = agree_below→eq _ _ 256 refl

pub set_top_bit : (b : ℕ) → b < 128 → bit_or b 0x80 ≡ b + 128
unfolding agree_below
set_top_bit = agree_below→eq _ _ 128 refl

pub low_nibble : (b : ℕ) → b < 256 → bit_and b 0x0f ≡ b % 16
unfolding agree_below
low_nibble = agree_below→eq _ _ 256 refl

pub low_two : (b : ℕ) → b < 256 → bit_and b 0x03 ≡ b % 4
unfolding agree_below
low_two = agree_below→eq _ _ 256 refl

pub low_seven_small : (b : ℕ) → b < 128 → bit_and b 0x7f ≡ b
unfolding agree_below
low_seven_small = agree_below→eq _ _ 128 refl

top_bit_small : (b : ℕ) → b < 128 → bit_and b 0x80 ≡ 0
unfolding agree_below
top_bit_small = agree_below→eq _ _ 128 refl

pub has_top_bit_small : (b : ℕ) → b < 128 → has_bit b 0x80 ≡ false
has_top_bit_small b h = ground (arith, top_bit_small b h)

pub low_seven-set_top : (b : ℕ) → b < 128 → bit_and (bit_or b 0x80) 0x7f ≡ b
unfolding agree_below
low_seven-set_top = agree_below→eq _ _ 128 refl

top_bit-set_top : (b : ℕ) → b < 128 → bit_and (bit_or b 0x80) 0x80 ≡ 128
unfolding agree_below
top_bit-set_top = agree_below→eq _ (λ _. 128) 128 refl

pub has_top_bit-set_top : (b : ℕ) → b < 128 → has_bit (bit_or b 0x80) 0x80 ≡ true
has_top_bit-set_top b h = ground (arith, top_bit-set_top b h)
