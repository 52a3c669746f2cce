-- ===== src/Packet/Length.antt =====
-- core/transport/mqtt/packet.go: `readRemainingLength` against `encodeRemainingLength`.
use broker_message.Base.{
  ℕ, zero, suc, ◌+◌, ◌*◌, ◌/◌, ◌%◌, ◌^◌, ◌≤◌, ◌<◌, bit_or, ◌≡◌, ap, ◌∷◌, ◌++◌, arith, Bytes,
  low_seven_small, has_top_bit_small, low_seven-set_top, has_top_bit-set_top, lt→ltb, le→not_ltb,
  ok, err,
}
use broker_message.Packet.{length_overflow}
use broker_message.Packet.Read.{read_length_loop, read_remaining_length}
use broker_message.Packet.Write.{encode_length_loop, encode_remaining_length}
use native.Mathlib.Nat.{div-add-mod}
use native.Mathlib.Numerals.{towards_suc}

-- One round on a last byte, on a byte with the top bit set, and on one that stands fourth.
last_byte :
    (g len shift : ℕ) (rest : Bytes)
    → g < 128
    → read_length_loop (g ∷ rest) len shift ≡ ok (len + g * 2 ^ shift, rest)
unfolding read_length_loop
last_byte g len shift rest h = rw (low_seven_small g h, has_top_bit_small g h)

inner_byte :
    (g len shift : ℕ) (rest : Bytes)
    → g < 128
    → shift + 7 ≤ 21
    → read_length_loop (bit_or g 0x80 ∷ rest) len shift
      ≡ read_length_loop rest (len + g * 2 ^ shift) (shift + 7)
unfolding read_length_loop
inner_byte g len shift rest h p =
    rw (low_seven-set_top g h, has_top_bit-set_top g h, le→not_ltb 21 (shift + 7) p)

fourth_byte :
    (g len shift : ℕ) (rest : Bytes)
    → g < 128
    → 21 < shift + 7
    → read_length_loop (bit_or g 0x80 ∷ rest) len shift ≡ err length_overflow
unfolding read_length_loop
fourth_byte g len shift rest h p =
    rw (low_seven-set_top g h, has_top_bit-set_top g h, lt→ltb 21 (shift + 7) p)

shift_seven : (s : ℕ) → 2 ^ (s + 7) ≡ 128 * 2 ^ s
shift_seven s = simp towards_suc (omega arith)

split_group : (n s : ℕ) → n * 2 ^ s ≡ n % 128 * 2 ^ s + n / 128 * 2 ^ (s + 7)
split_group n s = omega (
  arith,
  ap (λ (t : ℕ). t * 2 ^ s) (div-add-mod n 128),
  ap (λ (t : ℕ). n / 128 * t) (shift_seven s),
)

-- `k` more groups are allowed behind this one.
read_length-encode_loop :
    (k fuel n len shift : ℕ) (rest : Bytes)
    → k < fuel
    → shift + 7 * k ≡ 21
    → n < 128 ^ suc k
    → read_length_loop (encode_length_loop fuel n ++ rest) len shift
      ≡ ok (len + n * 2 ^ shift, rest)
unfolding encode_length_loop
read_length-encode_loop k zero n len shift rest f s h = absurd (omega arith)
read_length-encode_loop zero (suc fuel) n len shift rest f s h =
    ground (arith, last_byte n len shift rest)
read_length-encode_loop (suc k) (suc fuel) n len shift rest f s h = ground (
  arith,
  last_byte n len shift rest,
  split_group n shift,
  inner_byte (n % 128) len shift (encode_length_loop fuel (n / 128) ++ rest),
  read_length-encode_loop k fuel (n / 128) (len + n % 128 * 2 ^ shift) (shift + 7) rest
      (omega arith) (omega arith) (omega arith),
)

-- A length below 2 ^ 28 is read back, and what follows it is left.
pub read_remaining_length-encode :
    (n : ℕ) (rest : Bytes)
    → n < 2 ^ 28
    → read_remaining_length (encode_remaining_length n ++ rest) ≡ ok (n, rest)
unfolding read_remaining_length encode_remaining_length
read_remaining_length-encode n rest h =
    rw (read_length-encode_loop 3 9 n 0 0 rest (omega arith) (omega arith) (omega arith))
      (ap (λ (t : ℕ). ok (t, rest)) (omega arith))

pow_pos : (k : ℕ) → 0 < 128 ^ k
pow_pos zero = omega arith
pow_pos (suc k) = omega (arith, pow_pos k)

overflow_loop :
    (k fuel n len shift : ℕ) (rest : Bytes)
    → k < fuel
    → shift + 7 * k ≡ 21
    → 128 ^ suc k ≤ n
    → read_length_loop (encode_length_loop (suc fuel) n ++ rest) len shift ≡ err length_overflow
unfolding encode_length_loop
overflow_loop k zero n len shift rest f s h = absurd (omega arith)
overflow_loop zero (suc fuel) n len shift rest f s h =
    ground
      (arith, fourth_byte (n % 128) len shift (encode_length_loop (suc fuel) (n / 128) ++ rest))
overflow_loop (suc k) (suc fuel) n len shift rest f s h = ground (
  arith,
  inner_byte (n % 128) len shift (encode_length_loop (suc fuel) (n / 128) ++ rest),
  pow_pos k,
  overflow_loop k fuel (n / 128) (len + n % 128 * 2 ^ shift) (shift + 7) rest (omega arith)
      (omega arith) (omega arith),
)

-- A length from 2 ^ 28 on is written, and the reader refuses it whatever follows.
read_remaining_length-overflow :
    (n : ℕ) (rest : Bytes)
    → 2 ^ 28 ≤ n
    → read_remaining_length (encode_remaining_length n ++ rest) ≡ err length_overflow
unfolding read_remaining_length encode_remaining_length
read_remaining_length-overflow n rest h =
    overflow_loop 3 8 n 0 0 rest (omega arith) (omega arith) (omega arith)
