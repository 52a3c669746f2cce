-- ===== src/Caches/Flushing.antt =====
-- tasks/task_4/internal: `flushDirty` and `BatchSet`, which write what is dirty to the database.
use broker_message.Base.{
  ℕ, zero, suc, ◌≤◌, ◌≡◌, inl, inr, refl, ap, ◌∙◌, true, Option, some, none, List, [], ◌∷◌, ◌++◌,
  length, length-drop, take, drop, take-append-drop, append_assoc, append-nil, Bytes, bytes_eq,
  bytes_eq_iff, Assoc, lookup, bytes_key, ok, Bool-cases, arith,
}
use broker_message.Caches.{
  Redis, Sqlite, Metrics, upserted, max_pairs, batch_loop, finish_batch, batch_set,
}
use broker_message.Caches.Strategies.{write_back, Store, flush_dirty}
use broker_message.Caches.Coherence.{IsDistinct, Coherent, view, or_else}

-- The pairs of a map with distinct keys, inserted one after the other, are the map in front of the rows.
upserted-lookup :
    (m : Assoc Bytes Bytes) (j : Bytes) (o : Option Bytes)
    → IsDistinct m
    → upserted m j o ≡ or_else (lookup j m) o
upserted-lookup [] j o h = unfold lookup in refl
upserted-lookup ((k, v) ∷ m) j o h = elim (Bool-cases (bytes_eq k j)) [
  | inl same ↦
      let gone : lookup j m ≡ none = rw (← (bytes_eq_iff k j).0 same) h.0 in
      let whole : lookup j ((k, v) ∷ m) ≡ some v = unfold lookup in rw same refl in
      rw (same, whole) (upserted-lookup m j (some v) h.1 ∙ rw gone refl)
  | inr other ↦
      let whole : lookup j ((k, v) ∷ m) ≡ lookup j m = unfold lookup in rw other refl in
      rw (other, whole) (upserted-lookup m j o h.1)
]

module _ {D : Type 0} ⦃d : Sqlite D⦄ where
  -- The loop sends all pairs that are left, with a round at hand for each of them.
  batch_loop-all :
      (fuel : ℕ) (db : D) (sent rest : List (Bytes × Bytes)) (m : Metrics)
      → ((done chunk : List (Bytes × Bytes)) → d.insert_rows db done chunk ≡ true)
      → length rest ≤ fuel
      → (batch_loop fuel db sent rest m).1 ≡ some (sent ++ rest)
  unfolding batch_loop
  batch_loop-all fuel db sent [] m h l = rw (append-nil sent) refl
  batch_loop-all zero db sent (p ∷ ps) m h l = absurd (omega arith)
  batch_loop-all (suc fuel) db sent (p ∷ ps) m h l =
      let chunk = take max_pairs (p ∷ ps) in
      let rest = drop max_pairs (p ∷ ps) in
      let shorter : length rest ≤ fuel = omega (arith, length-drop max_pairs (p ∷ ps)) in
      rw (h sent chunk) (
        batch_loop-all fuel db (sent ++ chunk) rest _ h shorter
        ∙ ap some
            (append_assoc sent chunk rest ∙ ap (◌++◌ sent) (take-append-drop max_pairs (p ∷ ps))))

  finish_batch-sent :
      (db : D) (r : Metrics × Option (List (Bytes × Bytes))) (ps : List (Bytes × Bytes))
      → r.1 ≡ some ps
      → ((finish_batch db r).1 ≡ (d.commit db ps).0) × ((finish_batch db r).2 ≡ (d.commit db ps).1)
  unfolding finish_batch
  finish_batch-sent db (m, none) ps h = cc
  finish_batch-sent db (m, some sent) ps h =
      let same : sent ≡ ps = cc in (rw same refl, rw same refl)

  -- `BatchSet` with a transaction that goes through.
  batch_set-rows :
      (db : D) (m : Assoc Bytes Bytes) (n : Metrics) (j : Bytes)
      → IsDistinct m
      → d.begin db ≡ true
      → ((done chunk : List (Bytes × Bytes)) → d.insert_rows db done chunk ≡ true)
      → (d.commit db m).1 ≡ true
      → ((batch_set db m n).2 ≡ true)
        × (d.rows (batch_set db m n).1 j ≡ or_else (lookup j m) (d.rows db j))
  unfolding batch_set
  batch_set-rows db [] n j distinct begins inserts commits = (refl, unfold lookup in refl)
  batch_set-rows db (p ∷ ps) n j distinct begins inserts commits =
      let all = batch_loop-all (length (p ∷ ps)) db [] (p ∷ ps) n inserts (omega arith) in
      let (stored, done) = finish_batch-sent db _ (p ∷ ps) all in
      rw begins (
        done ∙ commits,
        ap (λ (x : D). d.rows x j) stored
            ∙ d.commit_done db (p ∷ ps) j commits
            ∙ upserted-lookup (p ∷ ps) j (d.rows db j) distinct,
      )

module _ {R D : Type 0} ⦃c : Redis R⦄ ⦃d : Sqlite D⦄ where
  -- A flush of `WriteBack` whose transaction goes through succeeds, in as many rounds as there are dirty
  -- entries at most, and makes the rows of the database what the store stood for, with nothing dirty.
  pub rows-flush_dirty :
      (s : Store R D) (j : Bytes)
      → Coherent write_back s
      → d.begin s.database ≡ true
      → ((done chunk : List (Bytes × Bytes)) → d.insert_rows s.database done chunk ≡ true)
      → (d.commit s.database s.dirty).1 ≡ true
      → ((flush_dirty s).1 ≡ ok tt)
        × (d.rows (flush_dirty s).0.database j ≡ view write_back s j)
        × ((flush_dirty s).0.dirty ≡ [])
  unfolding flush_dirty
  rows-flush_dirty s j h begins inserts commits =
      let (done, seen) =
        batch_set-rows s.database s.dirty s.metrics j h.distinct begins inserts commits in
      (rw done refl, seen, refl)
