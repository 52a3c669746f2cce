-- ===== src/Tests/Keys.antt =====
-- core/dedup/dedup.go on a concrete store.
use broker_message.Base.{
  ◌≤◌, ◌≡◌, refl, some, none, [], ◌∷◌, arith, length, replicate, Bytes, bytes_eq, put_uint64,
  be_value, lookup, insert, bytes_key,
}
use broker_message.Storage
use broker_message.Storage.{Badger}
use broker_message.Storage.Memory.{MemDb, mem_badger}
use broker_message.Dedup.{
  Entry, Store, db_key, entry_bytes, check, remember, fresh_entry, evict_expired, load,
  load_from_db,
}
use broker_message.Dedup.Duplicates.{check-remember, remember-bounded, check-loaded_forever}

abbrev key : Bytes
key = replicate 16 7

abbrev empty_store : Store MemDb
empty_store = record { lru = []; order = []; capacity = 2; ttl = 100; db = none }

empty_store_miss : check 5 key empty_store ≡ (empty_store, none)
unfolding check evict_expired load lookup
empty_store_miss = refl

check-remember_example :
    (check 100 key (remember 6 key (replicate 16 9) 1 empty_store)).1
    ≡ some (fresh_entry 6 (replicate 16 9) 1 empty_store)
check-remember_example =
    check-remember 5 6 100 1 key (replicate 16 9) empty_store empty_store empty_store_miss
      (omega arith) (omega arith)

remember-bounded_example : length (remember 6 key (replicate 16 9) 1 empty_store).order ≤ 2
remember-bounded_example = remember-bounded 6 1 key (replicate 16 9) empty_store

abbrev kept : Entry
kept = record { server_msg_id = replicate 16 9; seq = 1; expires_at = 50 }

abbrev stored_db : MemDb
stored_db = record { entries = (db_key key, entry_bytes kept) ∷ []; sorted = (tt, tt) }

abbrev restarted : Store MemDb
restarted = record { lru = []; order = []; capacity = 2; ttl = 100; db = some stored_db }

restarted_hit : check 5 key restarted ≡ (record restarted { lru = (key, kept) ∷ [] }, some kept)
unfolding check evict_expired load load_from_db Storage.get entry_bytes bytes_eq put_uint64 be_value
    lookup insert
restarted_hit = refl

restarted_empty : lookup key (evict_expired 5 restarted).lru ≡ none
unfolding evict_expired lookup
restarted_empty = refl

check-loaded_forever_example :
    (check 1000 key (record restarted { lru = (key, kept) ∷ [] })).1 ≡ some kept
check-loaded_forever_example =
    check-loaded_forever 5 1000 key restarted (record restarted { lru = (key, kept) ∷ [] }) kept
      restarted_empty restarted_hit
