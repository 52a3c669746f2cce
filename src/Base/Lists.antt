-- ===== src/Base/Lists.antt =====
-- Lists measured and indexed by native numbers, and Go's slice expressions.
use Prim.Native.Nat.{ℕ, zero, suc, ◌+◌, ◌-◌, ◌≤◌}
use mathlib.Core.Path.{◌≡◌, refl, ap}
use mathlib.Core.List.{List, [], ◌∷◌, ◌++◌}
use native.Mathlib.Omega.{arith}

module _ {ℓ} {A : Type ℓ} where
  abbrev pub length : List A → ℕ
  length [] = 0
  length (x ∷ xs) = suc (length xs)

  abbrev pub get_or : List A → ℕ → A → A
  get_or [] i d = d
  get_or (x ∷ xs) zero d = x
  get_or (x ∷ xs) (suc i) d = get_or xs i d

  abbrev pub take : ℕ → List A → List A
  take zero xs = []
  take (suc n) [] = []
  take (suc n) (x ∷ xs) = x ∷ take n xs

  abbrev pub drop : ℕ → List A → List A
  drop zero xs = xs
  drop (suc n) [] = []
  drop (suc n) (x ∷ xs) = drop n xs

  abbrev pub replicate : ℕ → A → List A
  replicate zero a = []
  replicate (suc n) a = a ∷ replicate n a

  -- `b[lo:hi]`, for lo <= hi <= len(b)
  abbrev pub slice : List A → ℕ → ℕ → List A
  slice b lo hi = take (hi - lo) (drop lo b)

  pub length-append : (xs ys : List A) → length (xs ++ ys) ≡ length xs + length ys
  length-append [] ys = omega arith
  length-append (x ∷ xs) ys = omega (arith, length-append xs ys)

  pub drop-append : (xs ys : List A) → drop (length xs) (xs ++ ys) ≡ ys
  drop-append [] ys = refl
  drop-append (x ∷ xs) ys = drop-append xs ys

  pub take-append : (xs ys : List A) → take (length xs) (xs ++ ys) ≡ xs
  take-append [] ys = refl
  take-append (x ∷ xs) ys = ap (◌∷◌ x) (take-append xs ys)

  pub take_all : (xs : List A) → take (length xs) xs ≡ xs
  take_all [] = refl
  take_all (x ∷ xs) = ap (◌∷◌ x) (take_all xs)

  pub get_or-append :
      (xs : List A) (y : A) (ys : List A) (d : A) → get_or (xs ++ (y ∷ ys)) (length xs) d ≡ y
  get_or-append [] y ys d = refl
  get_or-append (x ∷ xs) y ys d = get_or-append xs y ys d

  pub length-take : (n : ℕ) (xs : List A) → n ≤ length xs → length (take n xs) ≡ n
  length-take zero xs h = refl
  length-take (suc n) [] h = absurd (omega arith)
  length-take (suc n) (x ∷ xs) h = omega (arith, length-take n xs (omega arith))

  pub length-drop : (n : ℕ) (xs : List A) → length (drop n xs) ≡ length xs - n
  length-drop zero xs = omega arith
  length-drop (suc n) [] = omega arith
  length-drop (suc n) (x ∷ xs) = omega (arith, length-drop n xs)

  pub take-append-drop : (n : ℕ) (xs : List A) → take n xs ++ drop n xs ≡ xs
  take-append-drop zero xs = refl
  take-append-drop (suc n) [] = refl
  take-append-drop (suc n) (x ∷ xs) = ap (◌∷◌ x) (take-append-drop n xs)

  pub length-replicate : (n : ℕ) (a : A) → length (replicate n a) ≡ n
  length-replicate zero a = refl
  length-replicate (suc n) a = ap suc (length-replicate n a)

  -- A slice that starts behind `pre` and is as long as `mid` is `mid`.
  pub slice-append :
      (pre mid post : List A) (lo hi : ℕ)
      → lo ≡ length pre
      → hi ≡ lo + length mid
      → slice (pre ++ (mid ++ post)) lo hi ≡ mid
  slice-append pre mid post lo hi p q =
      rw (q, p, drop-append)
        (let e : length pre + length mid - length pre ≡ length mid = omega arith in
          rw (e, take-append))

  pub drop-append_add :
      (xs ys : List A) (n k : ℕ) → n ≡ length xs → drop (n + k) (xs ++ ys) ≡ drop k ys
  drop-append_add [] ys n k e = ap (λ (t : ℕ). drop t ys) (omega arith)
  drop-append_add (x ∷ xs) ys n k e =
      let m : n + k ≡ suc (length xs + k) = omega arith in
      rw m (drop-append_add xs ys (length xs) k refl)

  -- A slice that starts behind `xs` does not look at it.
  pub slice-append_add :
      (xs ys : List A) (n lo hi : ℕ)
      → n ≡ length xs
      → slice (xs ++ ys) (n + lo) (n + hi) ≡ slice ys lo hi
  slice-append_add xs ys n lo hi e =
      let m : n + hi - (n + lo) ≡ hi - lo = omega arith in
      rw m (ap (take (hi - lo)) (drop-append_add xs ys n lo e))

  pub length-slice :
      (b : List A) (lo hi : ℕ) → lo ≤ hi → hi ≤ length b → length (slice b lo hi) ≡ hi - lo
  length-slice b lo hi p q = length-take (hi - lo) (drop lo b) (omega (arith, length-drop lo b))

  abbrev pub All {κ} : (A → Type κ) → List A → Type κ
  All P [] = Unit {κ}
  All P (x ∷ xs) = P x × All P xs

  pub All-append {κ} : (P : A → Type κ) (xs ys : List A) → All P xs → All P ys → All P (xs ++ ys)
  All-append P [] ys front back = back
  All-append P (x ∷ xs) ys front back = (front.0, All-append P xs ys front.1 back)
