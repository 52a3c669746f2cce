-- ===== src/Tests/Stores.antt =====
-- tasks/task_4/internal/store over a cache and a database in memory, which never fail.
use broker_message.Base.{
  ◌≡◌, refl, ◌∙◌, true, false, Option, some, none, List, [], ◌∷◌, Bytes, Assoc, lookup, insert,
  remove, lookup-insert, lookup-remove, bytes_key, ok, ap,
}
use broker_message.Storage.Memory.{true_ne_false}
use broker_message.Caches.{Reply, found, missing, Redis, Sqlite, upserted}
use broker_message.Caches.Strategies.{write_back, Store, get, set, flush_dirty}
use broker_message.Caches.Coherence.{Coherent, view, Answers}
use broker_message.Caches.Writing.{given, get-set}
use broker_message.Caches.Flushing.{rows-flush_dirty}

abbrev Table : Type 0
Table = Assoc Bytes Bytes

abbrev reply_of : Option Bytes → Reply
reply_of none = missing
reply_of (some v) = found v

reply_found : (o : Option Bytes) (v : Bytes) → reply_of o ≡ found v → o ≡ some v
reply_found none v h = cc
reply_found (some w) v h = cc

reply_missing : (o : Option Bytes) → reply_of o ≡ missing → o ≡ none
reply_missing none h = refl
reply_missing (some w) h = cc

instance abbrev memory_cache : Redis Table
memory_cache = record {
  held = λ r k. lookup k r;
  get_key = λ r k. reply_of (lookup k r);
  set_key = λ r k v. (insert k v r, true);
  del_key = λ r k. (remove k r, true);
  get_found = λ r k v h. reply_found (lookup k r) v h;
  set_done = λ r k v j h. lookup-insert k j v r;
  set_failed = λ r k v j h. absurd (true_ne_false h);
  del_done = λ r k j h. lookup-remove k j r;
}

abbrev insert_all : List (Bytes × Bytes) → Table → Table
insert_all [] t = t
insert_all ((k, v) ∷ ps) t = insert_all ps (insert k v t)

lookup-insert_all :
    (ps : List (Bytes × Bytes)) (t : Table) (j : Bytes)
    → lookup j (insert_all ps t) ≡ upserted ps j (lookup j t)
lookup-insert_all [] t j = refl
lookup-insert_all ((k, v) ∷ ps) t j =
    lookup-insert_all ps (insert k v t) j ∙ ap (upserted ps j) (lookup-insert k j v t)

instance abbrev memory_table : Sqlite Table
memory_table = record {
  rows = λ d k. lookup k d;
  select = λ d k. reply_of (lookup k d);
  upsert = λ d k v. (insert k v d, true);
  begin = λ d. true;
  insert_rows = λ d done chunk. true;
  commit = λ d ps. (insert_all ps d, true);
  select_found = λ d k v h. reply_found (lookup k d) v h;
  select_missing = λ d k h. reply_missing (lookup k d) h;
  upsert_done = λ d k v j h. lookup-insert k j v d;
  commit_done = λ d ps j h. lookup-insert_all ps d j;
}

abbrev key : Bytes
key = b'k' ∷ []

-- The database has an older value than what is dirty.
abbrev store : Store Table Table
store = record {
  cache = (key, 2 ∷ []) ∷ [];
  database = (key, 1 ∷ []) ∷ [];
  metrics = record { cache_hits = 0; cache_misses = 0; db_gets = 0; db_sets = 0; wb_max_dirty = 1 };
  dirty = (key, 2 ∷ []) ∷ [];
  batch_size = 5;
  triggered = false;
}

store-hit : (k v : Bytes) → lookup k store.cache ≡ some v → view write_back store k ≡ some v
store-hit k v h = rw h refl

store-Coherent : Coherent write_back store
unfolding lookup
store-Coherent = record { hit = store-hit; distinct = (refl, tt) }

set_done : (set write_back key (3 ∷ []) store).1 ≡ ok tt
unfolding set
set_done = refl

get-set_example :
    Answers
      (set write_back key (3 ∷ []) store).0
      key
      (get write_back key (set write_back key (3 ∷ []) store).0).1
      (given key (3 ∷ []) (view write_back store) key)
get-set_example = get-set write_back key (3 ∷ []) key store store-Coherent refl set_done

rows-flush_dirty_example :
    ((flush_dirty store).1 ≡ ok tt)
    × (lookup key (flush_dirty store).0.database ≡ view write_back store key)
    × ((flush_dirty store).0.dirty ≡ [])
rows-flush_dirty_example = rows-flush_dirty store key store-Coherent refl (λ done chunk. refl) refl
