-- ===== src/Caches/Writing.antt =====
-- tasks/task_4/internal/store: `Set` of each store, and a `Get` behind it.
use broker_message.Base.{
  ◌≡◌, inl, inr, refl, sym, subst, ◌∙◌, Bool, true, Option, some, none, if◌then◌else◌, Bytes,
  bytes_eq, Assoc, lookup, insert, lookup-insert, bytes_key, ok, Bool-cases,
}
use broker_message.Caches.{Redis, Sqlite, Metrics, db_set}
use broker_message.Caches.Strategies.{
  Strategy, cache_aside, write_through, write_back, Store, stored, invalidated, updated, mark_dirty,
  get, set,
}
use broker_message.Caches.Coherence.{Coherent, view, or_else, insert-IsDistinct, Answers, get-Reads}

-- The map after one of its keys has been given a value.
abbrev pub given : Bytes → Bytes → (Bytes → Option Bytes) → Bytes → Option Bytes
given key v m j = if bytes_eq key j then some v else m j

-- A write that the cache and the map have both seen.
put-hit :
    (key v j w : Bytes) (held map held' map' : Option Bytes)
    → held' ≡ (if bytes_eq key j then some v else held)
    → map' ≡ (if bytes_eq key j then some v else map)
    → (held ≡ some w → map ≡ some w)
    → held' ≡ some w
    → map' ≡ some w
put-hit key v j w held map held' map' p q h e = elim (Bool-cases (bytes_eq key j)) [
  | inl same ↦ (rw same at q) ∙ sym (rw same at p) ∙ e
  | inr other ↦ (rw other at q) ∙ h (sym (rw other at p) ∙ e)
]

-- A write that the map has seen, of a key that the cache has dropped.
drop-hit :
    (key v j w : Bytes) (held map held' map' : Option Bytes)
    → held' ≡ (if bytes_eq key j then none else held)
    → map' ≡ (if bytes_eq key j then some v else map)
    → (held ≡ some w → map ≡ some w)
    → held' ≡ some w
    → map' ≡ some w
drop-hit key v j w held map held' map' p q h e = elim (Bool-cases (bytes_eq key j)) [
  | inl same ↦ let none_held = sym (rw same at p) ∙ e in absurd cc
  | inr other ↦ (rw other at q) ∙ h (sym (rw other at p) ∙ e)
]

dirty_view :
    (key v j : Bytes) (m : Assoc Bytes Bytes) (o : Option Bytes)
    → or_else (lookup j (insert key v m)) o
      ≡ (if bytes_eq key j then some v else or_else (lookup j m) o)
dirty_view key v j m o = elim (Bool-cases (bytes_eq key j)) [
  | inl same ↦ rw (lookup-insert key j v m, same) refl
  | inr other ↦ rw (lookup-insert key j v m, other) refl
]

module _ {R D : Type 0} ⦃c : Redis R⦄ ⦃d : Sqlite D⦄ where
  -- Whether the call that drops the key from the cache succeeds, where there is one: `CacheAside.Set`
  -- goes on when it fails.
  abbrev pub invalidates : Strategy → Bytes → Store R D → Bool
  invalidates cache_aside key s = (c.del_key s.cache key).1
  invalidates write_through key s = true
  invalidates write_back key s = true

  -- A write that changes one key of the map, and leaves the cache coherent.
  abbrev pub Writes : Strategy → Bytes → Bytes → Store R D → Store R D → Type 0
  Writes strategy key v s s' =
      Coherent strategy s' × ((j : Bytes) → view strategy s' j ≡ given key v (view strategy s) j)

  write_back-Writes :
      (key v : Bytes) (s : Store R D)
      → (c.set_key s.cache key v).1 ≡ true
      → Coherent write_back s
      → Writes write_back key v s
          (mark_dirty key v (record s { cache = (c.set_key s.cache key v).0 }))
  unfolding mark_dirty
  write_back-Writes key v s done h =
      let seen = λ (j : Bytes). dirty_view key v j s.dirty (d.rows s.database j) in
      (
        record {
          hit = λ j w.
              put-hit key v j w (c.held s.cache j) (view write_back s j) _ _
                (c.set_done s.cache key v j done) (seen j) (h.hit j w);
          distinct = insert-IsDistinct key v s.dirty h.distinct;
        },
        seen,
      )

  write_through-Writes :
      (key v : Bytes) (m : Metrics) (s : Store R D)
      → (d.upsert s.database key v).1 ≡ true
      → (c.set_key s.cache key v).1 ≡ true
      → Coherent write_through s
      → Writes write_through key v s (record s {
        cache = (c.set_key s.cache key v).0;
        database = (d.upsert s.database key v).0;
        metrics = m;
      })
  write_through-Writes key v m s kept done h =
      let seen = λ (j : Bytes). d.upsert_done s.database key v j kept in
      (
        record {
          hit = λ j w.
              put-hit key v j w (c.held s.cache j) (view write_through s j) _ _
                (c.set_done s.cache key v j done) (seen j) (h.hit j w);
          distinct = h.distinct;
        },
        seen,
      )

  cache_aside-Writes :
      (key v : Bytes) (m : Metrics) (s : Store R D)
      → (d.upsert s.database key v).1 ≡ true
      → (c.del_key s.cache key).1 ≡ true
      → Coherent cache_aside s
      → Writes cache_aside key v s (record s {
        cache = (c.del_key s.cache key).0;
        database = (d.upsert s.database key v).0;
        metrics = m;
      })
  cache_aside-Writes key v m s kept done h =
      let seen = λ (j : Bytes). d.upsert_done s.database key v j kept in
      (
        record {
          hit = λ j w.
              drop-hit key v j w (c.held s.cache j) (view cache_aside s j) _ _
                (c.del_done s.cache key j done) (seen j) (h.hit j w);
          distinct = h.distinct;
        },
        seen,
      )

  -- A `Set` that succeeds changes its key alone.
  set-Writes :
      (strategy : Strategy) (key v : Bytes) (s : Store R D)
      → Coherent strategy s
      → invalidates strategy key s ≡ true
      → (set strategy key v s).1 ≡ ok tt
      → Writes strategy key v s (set strategy key v s).0
  unfolding set stored updated invalidated db_set
  set-Writes cache_aside key v s h dropped done = elim (Bool-cases (d.upsert s.database key v).1) [
    | inl kept ↦ rw kept (cache_aside-Writes key v _ s kept dropped h)
    | inr lost ↦ let bad = rw lost at done in absurd cc
  ]
  set-Writes write_through key v s h dropped done =
      elim (Bool-cases (d.upsert s.database key v).1) [
        | inl kept ↦ elim (Bool-cases (c.set_key s.cache key v).1) [
          | inl cached ↦ rw kept (write_through-Writes key v _ s kept cached h)
          | inr lost ↦ let bad = rw (kept, lost) at done in absurd cc
        ]
        | inr lost ↦ let bad = rw lost at done in absurd cc
      ]
  set-Writes write_back key v s h dropped done = elim (Bool-cases (c.set_key s.cache key v).1) [
    | inl cached ↦ rw cached (write_back-Writes key v s cached h)
    | inr lost ↦ let bad = rw lost at done in absurd cc
  ]

  -- After a `Set` that succeeds, a `Get` of any of the three stores answers by the map that the store
  -- stood for before, changed at the key that was set: with the value there, or with the error for no
  -- value where there is none, or with an error of the cache or the database where that call of it has
  -- failed. The cache held nothing else than the map, and `CacheAside.Set` could drop the key from it.
  pub get-set :
      (strategy : Strategy) (key v j : Bytes) (s : Store R D)
      → Coherent strategy s
      → invalidates strategy key s ≡ true
      → (set strategy key v s).1 ≡ ok tt
      → Answers
          (set strategy key v s).0
          j
          (get strategy j (set strategy key v s).0).1
          (given key v (view strategy s) j)
  get-set strategy key v j s h dropped done =
      let (coherent, seen) = set-Writes strategy key v s h dropped done in
      let (_, _, answer) = get-Reads strategy j (set strategy key v s).0 coherent in
      subst (Answers (set strategy key v s).0 j (get strategy j (set strategy key v s).0).1)
        (seen j) answer
