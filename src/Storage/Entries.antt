-- ===== src/Storage/Entries.antt =====
-- What a Badger database holds: keys and values in the byte order of the keys.
use broker_message.Base.{
  ◌≡◌, refl, Bool, true, false, not, ◌&&◌, none, some, ◌++◌, [], ◌∷◌, arith, ltb, ◌==◌,
  if◌then◌else◌, Bytes, bytes_eq, bytes_eq_iff, Assoc, lookup, remove, bytes_key, All, Bool-cases,
  inl, inr,
}

-- `bytes.Compare(a, b) < 0`
unfoldable pub bytes_lt : Bytes → Bytes → Bool
bytes_lt [] [] = false
bytes_lt [] (y ∷ ys) = true
bytes_lt (x ∷ xs) [] = false
bytes_lt (x ∷ xs) (y ∷ ys) = if ltb x y then true else if x == y then bytes_lt xs ys else false

-- `bytes.HasPrefix(k, prefix)`
unfoldable pub has_prefix : Bytes → Bytes → Bool
has_prefix [] k = true
has_prefix (x ∷ xs) [] = false
has_prefix (x ∷ xs) (y ∷ ys) = x == y && has_prefix xs ys

unfoldable pub put : Bytes → Bytes → Assoc Bytes Bytes → Assoc Bytes Bytes
put k v [] = (k, v) ∷ []
put k v ((j, w) ∷ m) =
    let later = put k v m in
    if bytes_eq j k
    then (k, v) ∷ m
    else if bytes_lt k j
    then (k, v) ∷ (j, w) ∷ m
    else (j, w) ∷ later

-- The entries whose key has the prefix, from the first key that is not below `seek`.
unfoldable pub within : Bytes → Bytes → Assoc Bytes Bytes → Assoc Bytes Bytes
within prefix seek [] = []
within prefix seek ((k, v) ∷ m) =
    let rest = within prefix seek m in
    if has_prefix prefix k && not (bytes_lt k seek) then (k, v) ∷ rest else rest

-- Every key is below all that follow it.
abbrev pub Above : Bytes → Assoc Bytes Bytes → Type 0
Above k m = All (λ e. bytes_lt k e.0 ≡ true) m

abbrev pub IsSorted : Assoc Bytes Bytes → Type 0
IsSorted [] = Unit {0}
IsSorted ((k, v) ∷ m) = Above k m × IsSorted m

pub lookup-put :
    (k j v : Bytes) (m : Assoc Bytes Bytes)
    → lookup j (put k v m) ≡ (if bytes_eq k j then some v else lookup j m)
unfolding lookup put
lookup-put k j v [] = refl
lookup-put k j v ((i, w) ∷ m) =
    ground (arith, bytes_eq_iff k j, bytes_eq_iff i k, bytes_eq_iff i j, lookup-put k j v m)

pub bytes_lt_irrefl : (k : Bytes) → bytes_lt k k ≡ false
unfolding bytes_lt
bytes_lt_irrefl [] = refl
bytes_lt_irrefl (x ∷ k) = ground (arith, bytes_lt_irrefl k)

pub bytes_lt_trans :
    (a c d : Bytes) → bytes_lt a c ≡ true → bytes_lt c d ≡ true → bytes_lt a d ≡ true
unfolding bytes_lt
bytes_lt_trans [] [] d p q = cc
bytes_lt_trans [] (y ∷ c) [] p q = cc
bytes_lt_trans [] (y ∷ c) (z ∷ d) p q = refl
bytes_lt_trans (x ∷ a) [] d p q = cc
bytes_lt_trans (x ∷ a) (y ∷ c) [] p q = cc
bytes_lt_trans (x ∷ a) (y ∷ c) (z ∷ d) p q = ground (arith, bytes_lt_trans a c d)

-- Two keys that differ are in one order or the other.
bytes_lt-total : (a c : Bytes) → bytes_eq a c ≡ false → bytes_lt c a ≡ false → bytes_lt a c ≡ true
unfolding bytes_lt bytes_eq
bytes_lt-total [] [] p q = cc
bytes_lt-total [] (y ∷ c) p q = refl
bytes_lt-total (x ∷ a) [] p q = cc
bytes_lt-total (x ∷ a) (y ∷ c) p q = ground (arith, bytes_lt-total a c)

Above-put :
    (i k v : Bytes) (m : Assoc Bytes Bytes) → bytes_lt i k ≡ true → Above i m → Above i (put k v m)
unfolding put
Above-put i k v [] h a = (h, tt)
Above-put i k v ((j, w) ∷ m) h a = elim (Bool-cases (bytes_eq j k)) [
  | inl e ↦ rw e (h, a.1)
  | inr e ↦ elim (Bool-cases (bytes_lt k j)) [
    | inl f ↦ rw (e, f) (h, a)
    | inr f ↦ rw (e, f) (a.0, Above-put i k v m h a.1)
  ]
]

Above-trans : (i k : Bytes) (m : Assoc Bytes Bytes) → bytes_lt i k ≡ true → Above k m → Above i m
Above-trans i k [] h a = tt
Above-trans i k ((j, w) ∷ m) h a = (bytes_lt_trans i k j h a.0, Above-trans i k m h a.1)

Above-remove : (i k : Bytes) (m : Assoc Bytes Bytes) → Above i m → Above i (remove k m)
unfolding remove
Above-remove i k [] a = tt
Above-remove i k ((j, w) ∷ m) a = elim (Bool-cases (bytes_eq j k)) [
  | inl e ↦ rw e (Above-remove i k m a.1)
  | inr e ↦ rw e (a.0, Above-remove i k m a.1)
]

pub remove-IsSorted : (k : Bytes) (m : Assoc Bytes Bytes) → IsSorted m → IsSorted (remove k m)
unfolding remove
remove-IsSorted k [] s = tt
remove-IsSorted k ((j, w) ∷ m) s = elim (Bool-cases (bytes_eq j k)) [
  | inl e ↦ rw e (remove-IsSorted k m s.1)
  | inr e ↦ rw e (Above-remove j k m s.0, remove-IsSorted k m s.1)
]

pub put-IsSorted : (k v : Bytes) (m : Assoc Bytes Bytes) → IsSorted m → IsSorted (put k v m)
unfolding put
put-IsSorted k v [] s = (tt, tt)
put-IsSorted k v ((j, w) ∷ m) s = elim (Bool-cases (bytes_eq j k)) [
  | inl e ↦ rw (e, ← (bytes_eq_iff j k).0 e) s
  | inr e ↦ elim (Bool-cases (bytes_lt k j)) [
    | inl f ↦ rw (e, f) ((f, Above-trans k j m f s.0), s)
    | inr f ↦ rw (e, f) (Above-put j k v m (bytes_lt-total j k e f) s.0, put-IsSorted k v m s.1)
  ]
]

-- What an iterator with a prefix meets.
pub lookup-within :
    (prefix seek j : Bytes) (m : Assoc Bytes Bytes)
    → lookup j (within prefix seek m)
      ≡ (if has_prefix prefix j && not (bytes_lt j seek) then lookup j m else none)
unfolding lookup within
lookup-within prefix seek j [] = ground arith
lookup-within prefix seek j ((k, v) ∷ m) =
    ground (arith, bytes_eq_iff k j, lookup-within prefix seek j m)

pub within-Above :
    (k prefix seek : Bytes) (m : Assoc Bytes Bytes) → Above k m → Above k (within prefix seek m)
unfolding within
within-Above k prefix seek [] a = tt
within-Above k prefix seek ((j, v) ∷ m) a =
    elim (Bool-cases (has_prefix prefix j && not (bytes_lt j seek))) [
      | inl e ↦ rw e (a.0, within-Above k prefix seek m a.1)
      | inr e ↦ rw e (within-Above k prefix seek m a.1)
    ]

pub within-IsSorted :
    (prefix seek : Bytes) (m : Assoc Bytes Bytes) → IsSorted m → IsSorted (within prefix seek m)
unfolding within
within-IsSorted prefix seek [] h = tt
within-IsSorted prefix seek ((j, v) ∷ m) h =
    elim (Bool-cases (has_prefix prefix j && not (bytes_lt j seek))) [
      | inl e ↦ rw e (within-Above j prefix seek m h.0, within-IsSorted prefix seek m h.1)
      | inr e ↦ rw e (within-IsSorted prefix seek m h.1)
    ]

pub lookup-Above : (k : Bytes) (m : Assoc Bytes Bytes) → Above k m → lookup k m ≡ none
unfolding lookup
lookup-Above k [] a = refl
lookup-Above k ((j, v) ∷ m) a =
    ground (arith, bytes_eq_iff j k, bytes_lt_irrefl k, lookup-Above k m a.1)

pub has_prefix-append : (p k : Bytes) → has_prefix p (p ++ k) ≡ true
unfolding has_prefix
has_prefix-append [] k = refl
has_prefix-append (x ∷ p) k = ground (arith, has_prefix-append p k)

pub bytes_lt-append : (p k : Bytes) → bytes_lt (p ++ k) p ≡ false
unfolding bytes_lt
bytes_lt-append [] [] = refl
bytes_lt-append [] (x ∷ k) = refl
bytes_lt-append (x ∷ p) k = ground (arith, bytes_lt-append p k)
