-- ===== src/Caches.antt =====
-- tasks/task_4/internal: three ways to keep a cache in front of a database. Redis and SQLite are not
-- part of the repository: they are interfaces with the documented behaviour that the code relies on.
-- This file has cache/redis.go, db/sqlite.go and the counters of metrics/metrics.go; Strategies has
-- store/.
pub mod Strategies
pub mod Coherence
pub mod Writing
pub mod Flushing
use broker_message.Base.{
  ℕ, zero, suc, ◌+◌, ◌%◌, ◌^◌, ◌≡◌, ◌⊎◌, Bool, true, false, Option, some, none, List, [], ◌∷◌, ◌++◌,
  if◌then◌else◌, length, take, drop, Bytes, bytes_eq,
}

pub data Reply : Type 0 where
  found : Bytes → Reply
  missing : Reply
  failed : Reply

-- `held r k` is what the server holds for a key. A key may expire at any time, so a server that
-- answers `missing` (`redis.Nil`) tells nothing. A SET or DEL whose call fails may have been done.
pub record Redis (R : Type 0) : Type 0 where
  pub held : R → Bytes → Option Bytes
  pub get_key : R → Bytes → Reply
  pub set_key : R → Bytes → Bytes → R × Bool
  pub del_key : R → Bytes → R × Bool
  pub get_found : (r : R) (k v : Bytes) → get_key r k ≡ found v → held r k ≡ some v
  pub set_done :
      (r : R) (k v j : Bytes)
      → (set_key r k v).1 ≡ true
      → held (set_key r k v).0 j ≡ (if bytes_eq k j then some v else held r j)
  pub set_failed :
      (r : R) (k v j : Bytes)
      → (set_key r k v).1 ≡ false
      → (held (set_key r k v).0 j ≡ held r j)
        ⊎ (held (set_key r k v).0 j ≡ (if bytes_eq k j then some v else held r j))
  pub del_done :
      (r : R) (k j : Bytes)
      → (del_key r k).1 ≡ true
      → held (del_key r k).0 j ≡ (if bytes_eq k j then none else held r j)

-- What a row is after the pairs have been inserted one after the other, an older value replaced.
abbrev pub upserted : List (Bytes × Bytes) → Bytes → Option Bytes → Option Bytes
upserted [] j o = o
upserted ((k, v) ∷ ps) j o = upserted ps j (if bytes_eq k j then some v else o)

-- `rows d k` is what the table kv has for a key. A transaction is the pairs that its statements have
-- inserted so far: `begin` and `insert_rows` tell whether the call succeeds, and `commit` makes them
-- rows, all or none.
pub record Sqlite (D : Type 0) : Type 0 where
  pub rows : D → Bytes → Option Bytes
  pub select : D → Bytes → Reply
  pub upsert : D → Bytes → Bytes → D × Bool
  pub begin : D → Bool
  pub insert_rows : D → List (Bytes × Bytes) → List (Bytes × Bytes) → Bool
  pub commit : D → List (Bytes × Bytes) → D × Bool
  pub select_found : (d : D) (k v : Bytes) → select d k ≡ found v → rows d k ≡ some v
  pub select_missing : (d : D) (k : Bytes) → select d k ≡ missing → rows d k ≡ none
  pub upsert_done :
      (d : D) (k v j : Bytes)
      → (upsert d k v).1 ≡ true
      → rows (upsert d k v).0 j ≡ (if bytes_eq k j then some v else rows d j)
  pub commit_done :
      (d : D) (ps : List (Bytes × Bytes)) (j : Bytes)
      → (commit d ps).1 ≡ true
      → rows (commit d ps).0 j ≡ upserted ps j (rows d j)

pub record Metrics : Type 0 where
  pub cache_hits : ℕ
  pub cache_misses : ℕ
  pub db_gets : ℕ
  pub db_sets : ℕ
  pub wb_max_dirty : ℕ

-- `Add(1)` on an atomic.Int64, by its bits.
abbrev pub add_one : ℕ → ℕ
add_one n = (n + 1) % 2 ^ 64

count_read : Reply → Metrics → Metrics
count_read (found v) m = record m { cache_hits = add_one m.cache_hits }
count_read missing m = record m { cache_misses = add_one m.cache_misses }
count_read failed m = record m { cache_misses = add_one m.cache_misses }

abbrev pub max_pairs : ℕ
max_pairs = 400

-- `Redis.Get`
unfoldable pub cache_get : {R : Type 0} ⦃c : Redis R⦄ → R → Bytes → Metrics → Metrics × Reply
unfolding count_read
cache_get ⦃c⦄ r key m = (count_read (c.get_key r key) m, c.get_key r key)

module _ {D : Type 0} ⦃d : Sqlite D⦄ where
  -- `SQLite.Get`
  unfoldable pub db_get : D → Bytes → Metrics → Metrics × Reply
  db_get db key m = (record m { db_gets = add_one m.db_gets }, d.select db key)

  -- `SQLite.Set`
  unfoldable pub db_set : D → Bytes → Bytes → Metrics → Metrics × D × Bool
  db_set db key value m =
      let (db', done) = d.upsert db key value in
      (record m { db_sets = add_one m.db_sets }, db', done)

  -- The loop of `BatchSet` over the pairs that are left, 400 to a statement; `sent` are those before.
  unfoldable pub batch_loop :
      ℕ
      → D
      → List (Bytes × Bytes)
      → List (Bytes × Bytes)
      → Metrics
      → Metrics × Option (List (Bytes × Bytes))
  batch_loop fuel db sent [] m = (m, some sent)
  batch_loop zero db sent (p ∷ ps) m = (m, none)
  batch_loop (suc fuel) db sent (p ∷ ps) m =
      let chunk = take max_pairs (p ∷ ps) in
      let next =
        batch_loop fuel db (sent ++ chunk) (drop max_pairs (p ∷ ps))
          (record m { db_sets = add_one m.db_sets }) in
      if d.insert_rows db sent chunk then next else (m, none)

  unfoldable pub finish_batch : D → Metrics × Option (List (Bytes × Bytes)) → Metrics × D × Bool
  finish_batch db (m, none) = (m, db, false)
  finish_batch db (m, some sent) = let (db', done) = d.commit db sent in (m, db', done)

  -- `SQLite.BatchSet`. The order of the pairs is that in which Go ranges over the map.
  unfoldable pub batch_set : D → List (Bytes × Bytes) → Metrics → Metrics × D × Bool
  unfolding batch_loop finish_batch
  batch_set db [] m = (m, db, true)
  batch_set db (p ∷ ps) m =
      if d.begin db
      then finish_batch db (batch_loop (length (p ∷ ps)) db [] (p ∷ ps) m)
      else (m, db, false)
