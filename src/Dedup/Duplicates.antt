-- ===== src/Dedup/Duplicates.antt =====
-- core/dedup/dedup.go: what `Check` answers about a key before and after `Remember`.
use broker_message.Base.{
  ℕ, ◌+◌, ◌≤◌, ◌<◌, ◌≡◌, refl, sym, ap, ◌∙◌, Option, some, none, [], ◌∷◌, ◌++◌, arith, le→not_ltb,
  length, Bytes, lookup, insert, bytes_key, lookup-insert, bytes_eq_refl,
}
use broker_message.Storage.{Badger}
use broker_message.Dedup.{
  Entry, Store, is_stale, evict_loop, evict_expired, persist, load, after_load, check_lru, check,
  record_entry, fresh_entry, remember,
}
use broker_message.Dedup.Window.{
  NotIn, evict_loop-keeps, evict_loop-unlisted, evict_loop-missing, evict_loop-setting,
  lookup-trim_loop, length-trim_loop, check-found,
}

module _ {Db : Type 0} ⦃b : Badger Db⦄ where
  -- A call that finds nothing: the swept store had no entry, and nothing is listed for the key.
  after_load-none :
      (id : Bytes) (s s₁ : Store Db) (l : Option Db × Option Entry)
      → after_load id s l ≡ (s₁, none)
      → (s₁.order ≡ s.order) × (s₁.capacity ≡ s.capacity)
  unfolding after_load
  after_load-none id s s₁ (db, none) h = (
    ap (λ (t : Store Db × Option Entry). t.0.order) (sym h),
    ap (λ (t : Store Db × Option Entry). t.0.capacity) (sym h),
  )
  after_load-none id s s₁ (db, some e) h = cc

  missed :
      (now : ℕ) (id : Bytes) (s s₁ : Store Db) (o : Option Entry)
      → lookup id s.lru ≡ o
      → check_lru now id s o ≡ (s₁, none)
      → (o ≡ none) × (s₁.order ≡ s.order) × (s₁.capacity ≡ s.capacity)
  unfolding check_lru
  missed now id s s₁ none f h =
      let (order, capacity) = after_load-none id s s₁ (load now id s.db) h in
      (refl, order, capacity)
  missed now id s s₁ (some e) f h = cc

  check-missed :
      (now : ℕ) (id : Bytes) (s s₁ : Store Db)
      → check now id s ≡ (s₁, none)
      → NotIn id s₁.order × (s₁.capacity ≡ s.capacity)
  unfolding check evict_expired
  check-missed now id s s₁ h =
      let swept_store = evict_loop now s.order [] s in
      let (gone, same_order, same_capacity) =
        missed now id swept_store s₁ (lookup id swept_store.lru) refl h in
      (
        rw same_order (evict_loop-missing now s.order [] s id tt gone),
        same_capacity ∙ (evict_loop-setting now s.order [] s).0,
      )

  lookup-remember :
      (now seq : ℕ) (id server_id : Bytes) (s : Store Db)
      → NotIn id s.order
      → 0 < s.capacity
      → lookup id (remember now id server_id seq s).lru ≡ some (fresh_entry now server_id seq s)
  unfolding remember record_entry
  lookup-remember now seq id server_id s n room =
      let e = fresh_entry now server_id seq s in
      lookup-trim_loop s.order id (record s { lru = insert id e s.lru; db = persist id e s.db }) n
        room
      ∙ lookup-insert id id e s.lru
      ∙ rw (bytes_eq_refl id) refl

  check-listed :
      (now : ℕ) (id : Bytes) (s : Store Db) (e : Entry)
      → lookup id s.lru ≡ some e
      → now ≤ e.expires_at
      → (check now id s).1 ≡ some e
  unfolding evict_expired is_stale
  check-listed now id s e h fits =
      check-found now id s e
        (evict_loop-keeps now s.order [] s id (rw h (le→not_ltb e.expires_at now fits)) ∙ h)

  -- A key that `Check` did not know and that `Remember` then recorded is known, with the message id
  -- and the sequence number that were recorded, to every `Check` that comes next and not later than
  -- the time to live. The store has room for a key.
  pub check-remember :
      (now at later seq : ℕ) (id server_id : Bytes) (s s₁ : Store Db)
      → check now id s ≡ (s₁, none)
      → 0 < s.capacity
      → later ≤ at + s₁.ttl
      → (check later id (remember at id server_id seq s₁)).1
        ≡ some (fresh_entry at server_id seq s₁)
  check-remember now at later seq id server_id s s₁ miss room fits =
      let (absent, same) = check-missed now id s s₁ miss in
      check-listed later id (remember at id server_id seq s₁) (fresh_entry at server_id seq s₁)
        (lookup-remember at seq id server_id s₁ absent (omega arith)) fits

  -- `Remember` leaves no more keys listed than the capacity.
  pub remember-bounded :
      (now seq : ℕ) (id server_id : Bytes) (s : Store Db)
      → length (remember now id server_id seq s).order ≤ s.capacity
  unfolding remember record_entry
  remember-bounded now seq id server_id s =
      let e = fresh_entry now server_id seq s in
      length-trim_loop (s.order ++ (id ∷ []))
        (record s { lru = insert id e s.lru; db = persist id e s.db })

  after_load-some :
      (id : Bytes) (s s₁ : Store Db) (e : Entry) (l : Option Db × Option Entry)
      → after_load id s l ≡ (s₁, some e)
      → (s₁.order ≡ s.order) × (lookup id s₁.lru ≡ some e)
  unfolding after_load
  after_load-some id s s₁ e (db, none) h = cc
  after_load-some id s s₁ e (db, some f) h = (
    ap (λ (t : Store Db × Option Entry). t.0.order) (sym h),
    ap (λ (t : Store Db × Option Entry). lookup id t.0.lru) (sym h)
        ∙ lookup-insert id id f s.lru
        ∙ rw (bytes_eq_refl id) (ap (λ (t : Store Db × Option Entry). t.1) h),
  )

  -- An entry that `Check` takes from the database, because the sweep left none in memory, is not
  -- listed: every later `Check` that comes next answers with it, however long it has expired.
  pub check-loaded_forever :
      (now later : ℕ) (id : Bytes) (s s₁ : Store Db) (e : Entry)
      → lookup id (evict_expired now s).lru ≡ none
      → check now id s ≡ (s₁, some e)
      → (check later id s₁).1 ≡ some e
  unfolding check evict_expired check_lru
  check-loaded_forever now later id s s₁ e gone h =
      let s' = evict_loop now s.order [] s in
      let computed : check now id s ≡ after_load id s' (load now id s'.db) = rw gone refl in
      let loaded : after_load id s' (load now id s'.db) ≡ (s₁, some e) = sym computed ∙ h in
      let (same, there) = after_load-some id s' s₁ e (load now id s'.db) loaded in
      check-found later id s₁ e (
        evict_loop-unlisted later s₁.order [] s₁ id
          (rw same (evict_loop-missing now s.order [] s id tt gone))
        ∙ there)
