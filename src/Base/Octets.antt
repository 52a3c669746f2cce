-- ===== src/Base/Octets.antt =====
-- Byte slices, Go strings among them, as lists of numbers; `encoding/binary`'s big-endian words.
use Prim.Native.Nat.{ℕ, ◌+◌, ◌*◌, ◌/◌, ◌%◌, ◌^◌, ◌<◌, compare, Ordering}
use mathlib.Core.Path.{◌≡◌, refl}
use mathlib.Core.Logic.{◌↔◌}
use mathlib.Core.Bool.{Bool, true, false, ◌&&◌}
use mathlib.Core.List.{List, [], ◌∷◌}
use native.Mathlib.Omega.{arith}

-- `[]byte`, and a `string` by its bytes
abbrev pub Bytes : Type 0
Bytes = List ℕ

abbrev pub IsByte : ℕ → Type 0
IsByte b = b < 256

nat_eq : ℕ → ℕ → Bool
nat_eq a b = elim (compare a b) [ Ordering.eq ↦ true | _ ↦ false ]

-- `==` on strings and on byte arrays
unfoldable pub bytes_eq : Bytes → Bytes → Bool
unfolding nat_eq
bytes_eq [] [] = true
bytes_eq [] (b ∷ bs) = false
bytes_eq (a ∷ xs) [] = false
bytes_eq (a ∷ xs) (b ∷ ys) = nat_eq a b && bytes_eq xs ys

bytes_eq_sound : (xs ys : Bytes) → bytes_eq xs ys ≡ true → xs ≡ ys
unfolding bytes_eq
bytes_eq_sound [] [] h = refl
bytes_eq_sound [] (b ∷ ys) h = cc
bytes_eq_sound (a ∷ xs) [] h = cc
bytes_eq_sound (a ∷ xs) (b ∷ ys) h = ground (arith, bytes_eq_sound xs ys)

pub bytes_eq_refl : (xs : Bytes) → bytes_eq xs xs ≡ true
unfolding bytes_eq
bytes_eq_refl [] = refl
bytes_eq_refl (a ∷ xs) = ground (arith, bytes_eq_refl xs)

-- The test decides equality.
pub bytes_eq_iff : (xs ys : Bytes) → (bytes_eq xs ys ≡ true) ↔ (xs ≡ ys)
bytes_eq_iff xs ys = (bytes_eq_sound xs ys, λ e. rw e (bytes_eq_refl ys))

-- `byte(v >> 8), byte(v)` of a uint16
unfoldable pub put_uint16 : ℕ → Bytes
put_uint16 v = (v / 256 % 256) ∷ (v % 256) ∷ []

-- `binary.BigEndian.Uint16` of the first two bytes
unfoldable pub be_uint16 : Bytes → ℕ
be_uint16 (hi ∷ lo ∷ rest) = hi * 256 + lo
be_uint16 _ = 0

-- `binary.BigEndian.Uint64`: the value of the bytes, the first the highest
unfoldable pub be_value : ℕ → Bytes → ℕ
be_value acc [] = acc
be_value acc (b ∷ bs) = be_value (acc * 256 + b) bs

-- `binary.BigEndian.PutUint64`
unfoldable pub put_uint64 : ℕ → Bytes
put_uint64 v =
    (v / 2 ^ 56 % 256)
    ∷ (v / 2 ^ 48 % 256)
    ∷ (v / 2 ^ 40 % 256)
    ∷ (v / 2 ^ 32 % 256)
    ∷ (v / 2 ^ 24 % 256)
    ∷ (v / 2 ^ 16 % 256)
    ∷ (v / 2 ^ 8 % 256)
    ∷ (v % 256)
    ∷ []

abbrev pub be_uint64 : Bytes → ℕ
be_uint64 = be_value 0

pub be-put_uint16 : (v : ℕ) → v < 2 ^ 16 → be_uint16 (put_uint16 v) ≡ v
unfolding be_uint16 put_uint16
be-put_uint16 v h = omega arith

pub be-put_uint64 : (v : ℕ) → v < 2 ^ 64 → be_uint64 (put_uint64 v) ≡ v
unfolding be_value put_uint64
be-put_uint64 v h = omega arith
