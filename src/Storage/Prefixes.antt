-- ===== src/Storage/Prefixes.antt =====
-- What a Badger iterator with a prefix meets, before and after a key is put or removed.
use broker_message.Base.{
  ◌≡◌, refl, sym, ap, ◌∙◌, true, false, not, ◌&&◌, none, some, [], ◌∷◌, ◌++◌, arith, Bytes,
  bytes_eq, bytes_eq_iff, bytes_eq_refl, Assoc, lookup, bytes_key, All, Bool-cases, inl, inr,
}
use broker_message.Storage.Entries.{
  bytes_lt, has_prefix, put, within, Above, IsSorted, bytes_lt_irrefl, bytes_lt_trans, within-Above,
}

pub bytes_lt_asym : (a c : Bytes) → bytes_lt a c ≡ true → bytes_lt c a ≡ false
bytes_lt_asym a c h = elim (Bool-cases (bytes_lt c a)) [
  | inl back ↦ let loop = sym (bytes_lt_irrefl a) ∙ bytes_lt_trans a c a h back in cc
  | inr none_back ↦ none_back
]

-- A key that has the prefix is not below it.
pub has_prefix-not-lt : (p k : Bytes) → has_prefix p k ≡ true → bytes_lt k p ≡ false
unfolding has_prefix bytes_lt
has_prefix-not-lt [] [] h = refl
has_prefix-not-lt [] (x ∷ k) h = refl
has_prefix-not-lt (x ∷ p) [] h = cc
has_prefix-not-lt (x ∷ p) (y ∷ k) h = ground (arith, has_prefix-not-lt p k)

-- All entries with the prefix.
abbrev pub under : Bytes → Assoc Bytes Bytes → Assoc Bytes Bytes
under p m = within p p m

-- Whether an entry is met, and the two ways in which `within` goes on.
within-met :
    (p s k v : Bytes) (m : Assoc Bytes Bytes)
    → (has_prefix p k && not (bytes_lt k s)) ≡ true
    → within p s ((k, v) ∷ m) ≡ (k, v) ∷ within p s m
unfolding within
within-met p s k v m h = rw h refl

within-passed :
    (p s k v : Bytes) (m : Assoc Bytes Bytes)
    → (has_prefix p k && not (bytes_lt k s)) ≡ false
    → within p s ((k, v) ∷ m) ≡ within p s m
unfolding within
within-passed p s k v m h = rw h refl

under-met :
    (p k v : Bytes) (m : Assoc Bytes Bytes)
    → has_prefix p k ≡ true
    → under p ((k, v) ∷ m) ≡ (k, v) ∷ under p m
under-met p k v m h = within-met p p k v m (rw (h, has_prefix-not-lt p k h) refl)

under-passed :
    (p k v : Bytes) (m : Assoc Bytes Bytes)
    → has_prefix p k ≡ false
    → under p ((k, v) ∷ m) ≡ under p m
under-passed p k v m h = within-passed p p k v m (rw h refl)

-- A seek further on meets the entries with the prefix from there on.
pub within-under : (p s : Bytes) (m : Assoc Bytes Bytes) → within p s (under p m) ≡ within p s m
within-under p s [] = unfold within in refl
within-under p s ((k, v) ∷ m) = elim (Bool-cases (has_prefix p k)) [
  | inr other ↦
      rw (under-passed p k v m other, within-passed p s k v m (rw other refl)) (within-under p s m)
  | inl same ↦ elim (Bool-cases (bytes_lt k s)) [
    | inl before ↦
        rw
          (
            under-met p k v m same,
            within-passed p s k v (under p m) (rw (same, before) refl),
            within-passed p s k v m (rw (same, before) refl),
          )
          (within-under p s m)
    | inr from ↦
        rw
          (
            under-met p k v m same,
            within-met p s k v (under p m) (rw (same, from) refl),
            within-met p s k v m (rw (same, from) refl),
          )
          (ap (◌∷◌ (k, v)) (within-under p s m))
  ]
]

-- A key without the prefix is put and removed unseen.
pub under-put_other :
    (p k v : Bytes) (m : Assoc Bytes Bytes)
    → has_prefix p k ≡ false
    → under p (put k v m) ≡ under p m
unfolding put
under-put_other p k v [] h = under-passed p k v [] h
under-put_other p k v ((j, w) ∷ m) h = elim (Bool-cases (bytes_eq j k)) [
  | inl same ↦
      let key = (bytes_eq_iff j k).0 same in
      rw same (under-passed p k v m h ∙ sym (under-passed p j w m (rw key h)))
  | inr other ↦ elim (Bool-cases (bytes_lt k j)) [
    | inl before ↦ rw (other, before) (under-passed p k v ((j, w) ∷ m) h)
    | inr after ↦
        rw (other, after)
          (elim (Bool-cases (has_prefix p j)) [
            | inl met ↦
                rw (under-met p j w (put k v m) met, under-met p j w m met)
                  (ap (◌∷◌ (j, w)) (under-put_other p k v m h))
            | inr passed ↦
                rw (under-passed p j w (put k v m) passed, under-passed p j w m passed)
                  (under-put_other p k v m h)
          ])
  ]
]

-- Every key is below this one.
abbrev pub Below : Bytes → Assoc Bytes Bytes → Type 0
Below k m = All (λ e. bytes_lt e.0 k ≡ true) m

Below-Above : (k : Bytes) (m : Assoc Bytes Bytes) → Below k m → Above k m → m ≡ []
Below-Above k [] b a = refl
Below-Above k ((j, w) ∷ m) b a = let back = sym (bytes_lt_asym k j a.0) ∙ b.0 in absurd cc

Above-step :
    (k j w : Bytes) (m : Assoc Bytes Bytes) → bytes_lt k j ≡ true → Above j m → Above k ((j, w) ∷ m)
Above-step k j w m h a = (h, all m a)
  where
    all : (m : Assoc Bytes Bytes) → Above j m → Above k m
    all [] a = tt
    all ((i, x) ∷ m) a = (bytes_lt_trans k j i h a.0, all m a.1)

-- A key that is above all with its prefix comes last among them.
pub under-put_last :
    (p k v : Bytes) (m : Assoc Bytes Bytes)
    → has_prefix p k ≡ true
    → IsSorted m
    → Below k (under p m)
    → under p (put k v m) ≡ under p m ++ ((k, v) ∷ [])
unfolding put
under-put_last p k v [] h s b = unfold within in under-met p k v [] h
under-put_last p k v ((j, w) ∷ m) h s b = elim (Bool-cases (bytes_eq j k)) [
  | inl same ↦
      let key = (bytes_eq_iff j k).0 same in
      let last = rw (under-met p j w m (rw key h)) at b in
      let loop = sym (bytes_lt_irrefl k) ∙ ap (λ (x : Bytes). bytes_lt x k) (sym key) ∙ last.0 in
      absurd cc
  | inr other ↦ elim (Bool-cases (bytes_lt k j)) [
    | inl before ↦
        let empty =
          Below-Above k (under p ((j, w) ∷ m)) b
            (within-Above k p p ((j, w) ∷ m) (Above-step k j w m before s.0)) in
        rw (other, before) (under-met p k v ((j, w) ∷ m) h ∙ rw empty refl)
    | inr after ↦
        rw (other, after)
          (elim (Bool-cases (has_prefix p j)) [
            | inl met ↦
                let rest = rw (under-met p j w m met) at b in
                rw (under-met p j w (put k v m) met, under-met p j w m met)
                  (ap (◌∷◌ (j, w)) (under-put_last p k v m h s.1 rest.1))
            | inr passed ↦
                let rest = rw (under-passed p j w m passed) at b in
                rw (under-passed p j w (put k v m) passed, under-passed p j w m passed)
                  (under-put_last p k v m h s.1 rest)
          ])
  ]
]

lookup-tail :
    (k j w : Bytes) (m : Assoc Bytes Bytes) → lookup k ((j, w) ∷ m) ≡ none → lookup k m ≡ none
unfolding lookup
lookup-tail k j w m h = ground arith

-- Where no key with the prefix is left, the iterator meets nothing.
pub under-none :
    (p : Bytes) (m : Assoc Bytes Bytes)
    → ((k : Bytes) → has_prefix p k ≡ true → lookup k m ≡ none)
    → under p m ≡ []
under-none p [] h = unfold within in refl
under-none p ((j, w) ∷ m) h = elim (Bool-cases (has_prefix p j)) [
  | inl met ↦
      let there : lookup j ((j, w) ∷ m) ≡ some w = unfold lookup in rw (bytes_eq_refl j) refl in
      let gone = sym (h j met) ∙ there in absurd cc
  | inr passed ↦ under-passed p j w m passed ∙ under-none p m (λ k e. lookup-tail k j w m (h k e))
]
