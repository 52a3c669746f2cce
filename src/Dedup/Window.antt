-- ===== src/Dedup/Window.antt =====
-- core/dedup/dedup.go: how long `Check` knows a key that `Remember` has recorded.
use broker_message.Base.{
  ℕ, ◌≤◌, ◌<◌, ◌≡◌, ◌≢◌, refl, sym, ap, ◌∙◌, true, false, some, none, List, [], ◌∷◌, ◌++◌, arith,
  ltb, le→not_ltb, length, All, All-append, Bytes, bytes_eq, bytes_eq_iff, lookup, remove,
  bytes_key, lookup-remove, Bool-cases, inl, inr,
}
use broker_message.Storage.{Badger}
use broker_message.Dedup.{
  Entry, Store, is_stale, delete_key, evict_loop, evict_expired, check_lru, check, trim_loop,
}

pub bytes_ne : (a c : Bytes) → a ≢ c → bytes_eq a c ≡ false
bytes_ne a c h = elim (Bool-cases (bytes_eq a c)) [
  | inl e ↦ absurd (h ((bytes_eq_iff a c).0 e))
  | inr e ↦ e
]

abbrev pub NotIn : Bytes → List Bytes → Type 0
NotIn id = All (λ k. k ≢ id)

-- A record of the key that is not stale.
abbrev pub IsFresh : {Db : Type 0} → ℕ → Bytes → Store Db → Type 0
IsFresh now id s = is_stale now (lookup id s.lru) ≡ false

module _ {Db : Type 0} ⦃b : Badger Db⦄ where
  abbrev pub swept : Bytes → Store Db → Store Db
  swept k s = record s { lru = remove k s.lru; db = delete_key k s.db }

  evict_loop-fresh :
      (now : ℕ) (k : Bytes) (order kept : List Bytes) (s : Store Db)
      → IsFresh now k s
      → evict_loop now (k ∷ order) kept s ≡ evict_loop now order (kept ++ (k ∷ [])) s
  unfolding evict_loop
  evict_loop-fresh now k order kept s h = rw h refl

  evict_loop-stale :
      (now : ℕ) (k : Bytes) (order kept : List Bytes) (s : Store Db)
      → is_stale now (lookup k s.lru) ≡ true
      → evict_loop now (k ∷ order) kept s ≡ evict_loop now order kept (swept k s)
  unfolding evict_loop
  evict_loop-stale now k order kept s h = rw h refl

  -- What the sweep leaves: the keys that it lists are fresh, and a fresh key keeps its entry.
  lookup-swept :
      (k id : Bytes) (s : Store Db) → k ≢ id → lookup id (swept k s).lru ≡ lookup id s.lru
  lookup-swept k id s h = lookup-remove k id s.lru ∙ rw (bytes_ne k id h) refl

  pub evict_loop-keeps :
      (now : ℕ) (order kept : List Bytes) (s : Store Db) (id : Bytes)
      → IsFresh now id s
      → lookup id (evict_loop now order kept s).lru ≡ lookup id s.lru
  evict_loop-keeps now [] kept s id f = unfold evict_loop in refl
  evict_loop-keeps now (k ∷ order) kept s id f = elim (Bool-cases (is_stale now (lookup k s.lru))) [
    | inr fresh ↦
        rw (evict_loop-fresh now k order kept s fresh)
          (evict_loop-keeps now order (kept ++ (k ∷ [])) s id f)
    | inl stale ↦
        let other : k ≢ id =
          λ same. ground (arith, ap (λ (x : Bytes). is_stale now (lookup x s.lru)) same) in
        let same = lookup-swept k id s other in
        rw (evict_loop-stale now k order kept s stale)
          (evict_loop-keeps now order kept (swept k s) id (ap (is_stale now) same ∙ f) ∙ same)
  ]

  pub evict_loop-setting :
      (now : ℕ) (order kept : List Bytes) (s : Store Db)
      → ((evict_loop now order kept s).capacity ≡ s.capacity)
        × ((evict_loop now order kept s).ttl ≡ s.ttl)
  evict_loop-setting now [] kept s = unfold evict_loop in (refl, refl)
  evict_loop-setting now (k ∷ order) kept s = elim (Bool-cases (is_stale now (lookup k s.lru))) [
    | inr fresh ↦
        rw (evict_loop-fresh now k order kept s fresh)
          (evict_loop-setting now order (kept ++ (k ∷ [])) s)
    | inl stale ↦
        rw (evict_loop-stale now k order kept s stale)
          (evict_loop-setting now order kept (swept k s))
  ]

  -- A key that is not listed is not looked at.
  pub evict_loop-unlisted :
      (now : ℕ) (order kept : List Bytes) (s : Store Db) (id : Bytes)
      → NotIn id order
      → lookup id (evict_loop now order kept s).lru ≡ lookup id s.lru
  evict_loop-unlisted now [] kept s id h = unfold evict_loop in refl
  evict_loop-unlisted now (k ∷ order) kept s id h =
      elim (Bool-cases (is_stale now (lookup k s.lru))) [
        | inr fresh ↦
            rw (evict_loop-fresh now k order kept s fresh)
              (evict_loop-unlisted now order (kept ++ (k ∷ [])) s id h.1)
        | inl stale ↦
            rw (evict_loop-stale now k order kept s stale)
              (evict_loop-unlisted now order kept (swept k s) id h.1 ∙ lookup-swept k id s h.0)
      ]

  -- A fresh key is none that has no entry after the sweep.
  fresh_other :
      (now : ℕ) (k id : Bytes) (order kept : List Bytes) (s : Store Db)
      → IsFresh now k s
      → lookup id (evict_loop now order kept s).lru ≡ none
      → k ≢ id
  unfolding is_stale
  fresh_other now k id order kept s fresh gone same =
      let at_id : IsFresh now id s =
        ap (λ (x : Bytes). is_stale now (lookup x s.lru)) (sym same) ∙ fresh in
      let none_there : lookup id s.lru ≡ none =
        sym (evict_loop-keeps now order kept s id at_id) ∙ gone in
      let stale : is_stale now (lookup id s.lru) ≡ true = ap (is_stale now) none_there in
      ground arith

  -- A key that has no entry after the sweep is not listed after it.
  pub evict_loop-missing :
      (now : ℕ) (order kept : List Bytes) (s : Store Db) (id : Bytes)
      → NotIn id kept
      → lookup id (evict_loop now order kept s).lru ≡ none
      → NotIn id (evict_loop now order kept s).order
  evict_loop-missing now [] kept s id n h = unfold evict_loop in n
  evict_loop-missing now (k ∷ order) kept s id n h =
      elim (Bool-cases (is_stale now (lookup k s.lru))) [
        | inr fresh ↦
            let step = evict_loop-fresh now k order kept s fresh in
            let gone : lookup id (evict_loop now order (kept ++ (k ∷ [])) s).lru ≡ none =
              ap (λ (t : Store Db). lookup id t.lru) (sym step) ∙ h in
            rw step (
              evict_loop-missing now order (kept ++ (k ∷ [])) s id
                (All-append (λ x. x ≢ id) kept (k ∷ []) n
                  (fresh_other now k id order (kept ++ (k ∷ [])) s fresh gone, tt))
                gone)
        | inl stale ↦
            let step = evict_loop-stale now k order kept s stale in
            rw step (
              evict_loop-missing now order kept (swept k s) id n
                (ap (λ (t : Store Db). lookup id t.lru) (sym step) ∙ h))
      ]

  -- The trimming never drops the key that stands last, where there is room for one.
  pub lookup-trim_loop :
      (ks : List Bytes) (id : Bytes) (s : Store Db)
      → NotIn id ks
      → 0 < s.capacity
      → lookup id (trim_loop (ks ++ (id ∷ [])) s).lru ≡ lookup id s.lru
  unfolding trim_loop
  lookup-trim_loop [] id s n h = rw (le→not_ltb s.capacity 1 (omega arith)) refl
  lookup-trim_loop (k ∷ ks) id s n h =
      elim (Bool-cases (ltb s.capacity (length (k ∷ (ks ++ (id ∷ [])))))) [
        | inl over ↦ rw over (lookup-trim_loop ks id (swept k s) n.1 h ∙ lookup-swept k id s n.0)
        | inr fits ↦ rw fits refl
      ]

  pub length-trim_loop :
      (order : List Bytes) (s : Store Db) → length (trim_loop order s).order ≤ s.capacity
  unfolding trim_loop
  length-trim_loop [] s = omega arith
  length-trim_loop (k ∷ order) s = ground (arith, length-trim_loop order (swept k s))

  -- An entry that the sweep leaves is what `Check` returns.
  pub check-found :
      (now : ℕ) (id : Bytes) (s : Store Db) (e : Entry)
      → lookup id (evict_expired now s).lru ≡ some e
      → (check now id s).1 ≡ some e
  unfolding check check_lru
  check-found now id s e h = rw h refl
