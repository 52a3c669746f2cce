-- ===== src/Caches/Strategies.antt =====
-- tasks/task_4/internal/store: cache_aside.go, write_through.go, write_back.go.
use broker_message.Base.{
  ℕ, Bool, true, false, Option, some, none, [], leb, if◌then◌else◌, length, Bytes, Assoc, lookup,
  insert, bytes_key, Result, ok, err,
}
use broker_message.Exec.{Exec}
use broker_message.Caches.{
  Reply, found, missing, failed, Redis, Sqlite, Metrics, add_one, cache_get, db_get, db_set,
  batch_set,
}

-- The implementations of the interface `Store`.
pub data Strategy : Type 0 where
  cache_aside : Strategy
  write_through : Strategy
  write_back : Strategy

pub data StoreError : Type 0 where
  not_found : StoreError
  cache_failed : StoreError
  db_failed : StoreError

-- A store. Only `WriteBack` has entries that are `dirty`, a size of batches (one that is not positive
-- is like 0), and a channel of one element that asks its goroutine to flush.
pub record Store (R D : Type 0) : Type 0 where
  pub cache : R
  pub database : D
  pub metrics : Metrics
  pub dirty : Assoc Bytes Bytes
  pub batch_size : ℕ
  pub triggered : Bool

module _ {R D : Type 0} ⦃c : Redis R⦄ ⦃d : Sqlite D⦄ where
  unfoldable pub loaded : Bytes → Reply → Exec (Store R D) StoreError Bytes
  loaded key (found v) s = (record s { cache = (c.set_key s.cache key v).0 }, ok v)
  loaded key missing s = (s, err not_found)
  loaded key failed s = (s, err db_failed)

  -- `val, err = s.d.Get(ctx, key)` and what follows: the value is put into the cache, whatever that
  -- returns.
  unfoldable pub load : Bytes → Exec (Store R D) StoreError Bytes
  unfolding loaded
  load key s =
      let (m, reply) = db_get s.database key s.metrics in
      loaded key reply (record s { metrics = m })

  unfoldable pub dirty_or_load : Bytes → Option Bytes → Exec (Store R D) StoreError Bytes
  dirty_or_load key none s = load key s
  dirty_or_load key (some v) s =
      (record s { metrics = record s.metrics { cache_hits = add_one s.metrics.cache_hits } }, ok v)

  -- What follows a miss of the cache.
  unfoldable pub on_miss : Strategy → Bytes → Exec (Store R D) StoreError Bytes
  unfolding dirty_or_load
  on_miss cache_aside key s = load key s
  on_miss write_through key s = load key s
  on_miss write_back key s = dirty_or_load key (lookup key s.dirty) s

  unfoldable pub answered : Strategy → Bytes → Reply → Exec (Store R D) StoreError Bytes
  answered strategy key (found v) s = (s, ok v)
  answered strategy key missing s = on_miss strategy key s
  answered strategy key failed s = (s, err cache_failed)

  -- `Get`
  unfoldable pub get : Strategy → Bytes → Exec (Store R D) StoreError Bytes
  unfolding answered
  get strategy key s =
      let (m, reply) = cache_get s.cache key s.metrics in
      answered strategy key reply (record s { metrics = m })

  -- The part that `CacheAside.Set` and `WriteThrough.Set` share: the database comes first.
  unfoldable pub stored : Bytes → Bytes → Store R D → Store R D × Bool
  stored key value s =
      let (m, db, done) = db_set s.database key value s.metrics in
      (record s { database = db; metrics = m }, done)

  unfoldable pub invalidated : Bytes → Store R D × Bool → Store R D × Result StoreError (Unit {0})
  invalidated key (s, false) = (s, err db_failed)
  invalidated key (s, true) = (record s { cache = (c.del_key s.cache key).0 }, ok tt)

  unfoldable pub updated :
      Bytes → Bytes → Store R D × Bool → Store R D × Result StoreError (Unit {0})
  updated key value (s, false) = (s, err db_failed)
  updated key value (s, true) =
      let (r, done) = c.set_key s.cache key value in
      (record s { cache = r }, if done then ok tt else err cache_failed)

  -- The part of `WriteBack.Set` under the lock and behind it.
  unfoldable pub mark_dirty : Bytes → Bytes → Store R D → Store R D
  mark_dirty key value s =
      let dirty = insert key value s.dirty in
      let n = length dirty in
      record s {
        dirty = dirty;
        metrics = record s.metrics {
          wb_max_dirty = if leb n s.metrics.wb_max_dirty then s.metrics.wb_max_dirty else n;
        };
        triggered = if leb s.batch_size n then true else s.triggered;
      }

  unfoldable pub set : Strategy → Bytes → Bytes → Exec (Store R D) StoreError (Unit {0})
  unfolding stored invalidated updated
  set cache_aside key value s = invalidated key (stored key value s)
  set write_through key value s = updated key value (stored key value s)
  set write_back key value s =
      let (r, done) = c.set_key s.cache key value in
      if done
      then (mark_dirty key value (record s { cache = r }), ok tt)
      else (record s { cache = r }, err cache_failed)

  abbrev pub dirty_len : Store R D → ℕ
  dirty_len s = length s.dirty

  -- `flushDirty`: the dirty entries are taken, and then given to the database.
  unfoldable pub flush_dirty : Exec (Store R D) StoreError (Unit {0})
  flush_dirty s =
      let (m, db, done) = batch_set s.database s.dirty s.metrics in
      (record s { dirty = []; database = db; metrics = m }, if done then ok tt else err db_failed)

  -- `Flush`; that of `WriteBack` is called with nothing dirty as well.
  unfoldable pub flush : Strategy → Exec (Store R D) StoreError (Unit {0})
  flush cache_aside s = (s, ok tt)
  flush write_through s = (s, ok tt)
  flush write_back s = flush_dirty s

  -- The goroutine of `WriteBack`: a trigger that it receives, and a tick. An error is dropped.
  unfoldable pub flusher_trigger : Store R D → Store R D
  flusher_trigger s = if s.triggered then (flush_dirty (record s { triggered = false })).0 else s

  unfoldable pub flusher_tick : Store R D → Store R D
  flusher_tick s = (flush_dirty s).0
