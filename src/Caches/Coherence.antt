-- ===== src/Caches/Coherence.antt =====
-- tasks/task_4/internal/store: what a cache holds is what the store stands for.
use broker_message.Base.{
  ◌≡◌, inl, inr, refl, sym, ap, subst, ◌∙◌, true, false, Option, some, none, [], ◌∷◌, if◌then◌else◌,
  Bytes, bytes_eq, bytes_eq_iff, Assoc, lookup, insert, lookup-insert, bytes_key, Result, ok, err,
  Bool-cases, arith,
}
use broker_message.Caches.{
  Reply, found, missing, failed, Redis, Sqlite, Metrics, add_one, cache_get, db_get,
}
use broker_message.Caches.Strategies.{
  Strategy, cache_aside, write_through, write_back, StoreError, not_found, cache_failed, db_failed,
  Store, loaded, load, dirty_or_load, on_miss, answered, get,
}

-- No key stands twice.
abbrev pub IsDistinct : Assoc Bytes Bytes → Type 0
IsDistinct [] = Unit {0}
IsDistinct ((k, v) ∷ m) = (lookup k m ≡ none) × IsDistinct m

differ : (j k : Bytes) → bytes_eq j k ≡ false → bytes_eq k j ≡ false
differ j k h = ground (arith, bytes_eq_iff j k, bytes_eq_iff k j)

pub insert-IsDistinct :
    (k v : Bytes) (m : Assoc Bytes Bytes) → IsDistinct m → IsDistinct (insert k v m)
unfolding insert
insert-IsDistinct k v [] h = (unfold lookup in refl, tt)
insert-IsDistinct k v ((j, w) ∷ m) h = elim (Bool-cases (bytes_eq j k)) [
  | inl same ↦ rw same (rw (← (bytes_eq_iff j k).0 same) h)
  | inr other ↦
      let later : lookup j (insert k v m) ≡ none =
        lookup-insert k j v m ∙ rw (differ j k other) h.0 in
      rw other (later, insert-IsDistinct k v m h.1)
]

abbrev pub or_else : Option Bytes → Option Bytes → Option Bytes
or_else none o = o
or_else (some v) o = some v

module _ {R : Type 0} ⦃c : Redis R⦄ where
  -- The cache after a SET, be it done or not, of what the store stands for.
  set_key-held :
      (r : R) (key v k w : Bytes) (o : Option Bytes)
      → (bytes_eq key k ≡ true → o ≡ some v)
      → (c.held r k ≡ some w → o ≡ some w)
      → c.held (c.set_key r key v).0 k ≡ some w
      → o ≡ some w
  set_key-held r key v k w o new old h = elim (Bool-cases (c.set_key r key v).1) [
    | inl done ↦ after r key v k w o new old (sym (c.set_done r key v k done) ∙ h)
    | inr lost ↦ elim (c.set_failed r key v k lost) [
      | inl same ↦ old (sym same ∙ h)
      | inr put ↦ after r key v k w o new old (sym put ∙ h)
    ]
  ]
    where
      after :
          (r : R) (key v k w : Bytes) (o : Option Bytes)
          → (bytes_eq key k ≡ true → o ≡ some v)
          → (c.held r k ≡ some w → o ≡ some w)
          → (if bytes_eq key k then some v else c.held r k) ≡ some w
          → o ≡ some w
      after r key v k w o new old h = elim (Bool-cases (bytes_eq key k)) [
        | inl e ↦ new e ∙ (rw e at h)
        | inr e ↦ old (rw e at h)
      ]

module _ {R D : Type 0} ⦃c : Redis R⦄ ⦃d : Sqlite D⦄ where
  -- The map that a store stands for: the rows of the database, behind what is dirty.
  abbrev pub view : Strategy → Store R D → Bytes → Option Bytes
  view cache_aside s k = d.rows s.database k
  view write_through s k = d.rows s.database k
  view write_back s k = or_else (lookup k s.dirty) (d.rows s.database k)

  -- What an answer tells of the map: the value, or that there is none. It is an error of the cache or
  -- of the database only where the call of it has failed.
  abbrev pub Answers : Store R D → Bytes → Result StoreError Bytes → Option Bytes → Type 0
  Answers s key (ok v) o = o ≡ some v
  Answers s key (err not_found) o = o ≡ none
  Answers s key (err cache_failed) o = c.get_key s.cache key ≡ failed
  Answers s key (err db_failed) o = d.select s.database key ≡ failed

  -- What the cache holds is what the store stands for.
  pub record Coherent (strategy : Strategy) (s : Store R D) : Type 0 where
    pub hit : (k v : Bytes) → c.held s.cache k ≡ some v → view strategy s k ≡ some v
    pub distinct : IsDistinct s.dirty

  -- A read that leaves the map, keeps the cache coherent, and answers by the map.
  abbrev pub Reads : Strategy → Bytes → Store R D → Store R D × Result StoreError Bytes → Type 0
  Reads strategy key s r =
      Coherent strategy r.0
      × ((j : Bytes) → view strategy r.0 j ≡ view strategy s j)
      × Answers s key r.1 (view strategy s key)

  view-cache :
      (strategy : Strategy) (s : Store R D) (r : R) (k : Bytes)
      → view strategy (record s { cache = r }) k ≡ view strategy s k
  view-cache cache_aside s r k = refl
  view-cache write_through s r k = refl
  view-cache write_back s r k = refl

  -- A cache into which what the store stands for is put.
  filled-Coherent :
      (strategy : Strategy) (key v : Bytes) (s : Store R D)
      → view strategy s key ≡ some v
      → Coherent strategy s
      → Coherent strategy (record s { cache = (c.set_key s.cache key v).0 })
  filled-Coherent strategy key v s there h = record {
    hit = λ k w e.
        view-cache strategy s (c.set_key s.cache key v).0 k
        ∙ set_key-held s.cache key v k w (view strategy s k)
            (λ same. ap (view strategy s) (sym ((bytes_eq_iff key k).0 same)) ∙ there) (h.hit k w)
            e;
    distinct = h.distinct;
  }

  loaded-Reads :
      (strategy : Strategy) (key : Bytes) (reply : Reply) (s : Store R D)
      → d.select s.database key ≡ reply
      → view strategy s key ≡ d.rows s.database key
      → Coherent strategy s
      → Reads strategy key s (loaded key reply s)
  unfolding loaded
  loaded-Reads strategy key (found v) s e same h =
      let there = same ∙ d.select_found s.database key v e in
      (
        filled-Coherent strategy key v s there h,
        view-cache strategy s (c.set_key s.cache key v).0,
        there,
      )
  loaded-Reads strategy key missing s e same h =
      (h, λ j. refl, same ∙ d.select_missing s.database key e)
  loaded-Reads strategy key failed s e same h = (h, λ j. refl, e)

  -- A store with other counters.
  abbrev pub recounted : Metrics → Store R D → Store R D
  recounted m s = record s { metrics = m }

  recounted-view :
      (strategy : Strategy) (m : Metrics) (s : Store R D) (k : Bytes)
      → view strategy (recounted m s) k ≡ view strategy s k
  recounted-view cache_aside m s k = refl
  recounted-view write_through m s k = refl
  recounted-view write_back m s k = refl

  recounted-Coherent :
      (strategy : Strategy) (m : Metrics) (s : Store R D)
      → Coherent strategy s
      → Coherent strategy (recounted m s)
  recounted-Coherent strategy m s h = record {
    hit = λ k v e. recounted-view strategy m s k ∙ h.hit k v e;
    distinct = h.distinct;
  }

  -- A read is one of the store with other counters, too.
  recounted-Reads :
      (strategy : Strategy) (key : Bytes) (m : Metrics) (s : Store R D)
      (r : Store R D × Result StoreError Bytes)
      → Reads strategy key (recounted m s) r
      → Reads strategy key s r
  recounted-Reads strategy key m s r (h, same, answer) = (
    h,
    λ j. same j ∙ recounted-view strategy m s j,
    subst (Answers s key r.1) (recounted-view strategy m s key) answer,
  )

  load-Reads :
      (strategy : Strategy) (key : Bytes) (s : Store R D)
      → view strategy s key ≡ d.rows s.database key
      → Coherent strategy s
      → Reads strategy key s (load key s)
  unfolding load db_get
  load-Reads strategy key s same h =
      let m = (db_get s.database key s.metrics).0 in
      recounted-Reads strategy key m s _ (
        loaded-Reads strategy key (d.select s.database key) (recounted m s) refl
          (recounted-view strategy m s key ∙ same) (recounted-Coherent strategy m s h))

  dirty-Reads :
      (key : Bytes) (o : Option Bytes) (s : Store R D)
      → lookup key s.dirty ≡ o
      → Coherent write_back s
      → Reads write_back key s (dirty_or_load key o s)
  unfolding dirty_or_load
  dirty-Reads key none s e h = load-Reads write_back key s (rw e refl) h
  dirty-Reads key (some v) s e h =
      let m : Metrics = record s.metrics { cache_hits = add_one s.metrics.cache_hits } in
      (recounted-Coherent write_back m s h, recounted-view write_back m s, rw e refl)

  on_miss-Reads :
      (strategy : Strategy) (key : Bytes) (s : Store R D)
      → Coherent strategy s
      → Reads strategy key s (on_miss strategy key s)
  unfolding on_miss
  on_miss-Reads cache_aside key s h = load-Reads cache_aside key s refl h
  on_miss-Reads write_through key s h = load-Reads write_through key s refl h
  on_miss-Reads write_back key s h = dirty-Reads key (lookup key s.dirty) s refl h

  answered-Reads :
      (strategy : Strategy) (key : Bytes) (reply : Reply) (s : Store R D)
      → c.get_key s.cache key ≡ reply
      → Coherent strategy s
      → Reads strategy key s (answered strategy key reply s)
  unfolding answered
  answered-Reads strategy key (found v) s e h =
      (h, λ j. refl, h.hit key v (c.get_found s.cache key v e))
  answered-Reads strategy key missing s e h = on_miss-Reads strategy key s h
  answered-Reads strategy key failed s e h = (h, λ j. refl, e)

  -- `Get` of each of the three stores answers by the map that the store stands for, leaves it, and
  -- keeps the cache coherent.
  pub get-Reads :
      (strategy : Strategy) (key : Bytes) (s : Store R D)
      → Coherent strategy s
      → Reads strategy key s (get strategy key s)
  unfolding get cache_get
  get-Reads strategy key s h =
      let m = (cache_get s.cache key s.metrics).0 in
      recounted-Reads strategy key m s _ (
        answered-Reads strategy key (c.get_key s.cache key) (recounted m s) refl
          (recounted-Coherent strategy m s h))
