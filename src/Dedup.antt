-- ===== src/Dedup.antt =====
-- core/dedup/dedup.go: the idempotency keys that have been published lately. Times are nanoseconds
-- since 1970, and `now` is what `time.Now()` returns in the call. The database is optional.
pub mod Window
pub mod Duplicates
use broker_message.Base.{
  ℕ, zero, suc, ◌+◌, ◌^◌, Bool, true, false, not, ◌&&◌, ◌||◌, Option, some, none, List, [], ◌∷◌,
  ◌++◌, ltb, leb, if◌then◌else◌, length, take, slice, Bytes, bytes_eq, be_uint64, be_value,
  put_uint64, Assoc, lookup, insert, remove, bytes_key, Result, ok, err,
}
use broker_message.Storage
use broker_message.Storage.{Badger, StorageError}

abbrev pub dedup_key_prefix : Bytes
dedup_key_prefix = b'd' ∷ b'e' ∷ b'd' ∷ b'u' ∷ b'p' ∷ b':' ∷ []

pub record Entry : Type 0 where
  pub server_msg_id : Bytes
  pub seq : ℕ
  pub expires_at : ℕ

pub record Store (Db : Type 0) : Type 0 where
  pub lru : Assoc Bytes Entry
  pub order : List Bytes
  pub capacity : ℕ
  pub ttl : ℕ
  pub db : Option Db

-- Ten minutes.
abbrev pub default_ttl : ℕ
default_ttl = 600_000_000_000

abbrev pub db_key : Bytes → Bytes
db_key id = dedup_key_prefix ++ id

-- `New`, for a capacity and a time to live that are not negative: those are raised like 0.
unfoldable pub new : {Db : Type 0} → Option Db → ℕ → ℕ → Store Db
new db capacity ttl = record {
  lru = [];
  order = [];
  capacity = if ltb capacity 1024 then 1024 else capacity;
  ttl = if leb ttl 0 then default_ttl else ttl;
  db = db;
}

abbrev pub size : {Db : Type 0} → Store Db → ℕ
size s = length s.lru

-- The loop of `touchLocked`: the key, where it stands first, goes to the end.
move_to_end : Bytes → List Bytes → Option (List Bytes)
move_to_end id [] = none
move_to_end id (k ∷ order) =
    let later = move_to_end id order in
    if bytes_eq k id
    then some (order ++ (id ∷ []))
    else elim later [ none ↦ none | some rest ↦ some (k ∷ rest) ]

or_same : List Bytes → Option (List Bytes) → List Bytes
or_same order none = order
or_same order (some moved) = moved

unfoldable pub touch : {Db : Type 0} → Bytes → Store Db → Store Db
unfolding move_to_end or_same
touch id s = record s { order = or_same s.order (move_to_end id s.order) }

-- `uint64(e.expiresAt.UnixNano())` and the two other fields, in 32 bytes.
unfoldable pub entry_bytes : Entry → Bytes
entry_bytes e = e.server_msg_id ++ (put_uint64 e.seq ++ put_uint64 e.expires_at)

-- `now.After(exp)` for an `exp` that was read as a uint64: from 2 ^ 63 on it is a negative int64,
-- a time before 1970.
abbrev pub after_stored : ℕ → ℕ → Bool
after_stored now exp = not (ltb exp (2 ^ 63)) || ltb exp now

-- `!ok || now.After(e.expiresAt)`
unfoldable pub is_stale : ℕ → Option Entry → Bool
is_stale now none = true
is_stale now (some e) = ltb e.expires_at now

module _ {Db : Type 0} ⦃b : Badger Db⦄ where
  -- `if s.db != nil { _ = s.db.Delete(dedupDBKey(id)) }`
  unfoldable pub delete_key : Bytes → Option Db → Option Db
  delete_key id none = none
  delete_key id (some db) = some (Storage.delete db (db_key id)).0

  -- The loop of `evictExpiredLocked`; `kept` is what is kept of the order so far.
  unfoldable pub evict_loop : ℕ → List Bytes → List Bytes → Store Db → Store Db
  evict_loop now [] kept s = record s { order = kept }
  evict_loop now (id ∷ order) kept s =
      let stale = is_stale now (lookup id s.lru) in
      evict_loop now order (if stale then kept else kept ++ (id ∷ []))
        (if stale then record s { lru = remove id s.lru; db = delete_key id s.db } else s)

  unfoldable pub evict_expired : ℕ → Store Db → Store Db
  unfolding evict_loop is_stale
  evict_expired now s = evict_loop now s.order [] s

  -- `persistLocked`: an error is logged and dropped.
  unfoldable pub persist : Bytes → Entry → Option Db → Option Db
  persist id e none = none
  persist id e (some db) = some (Storage.set db (db_key id) (entry_bytes e)).0

  decode_entry : ℕ → Bytes → Db → Bytes → Db × Option Entry
  decode_entry now id db raw =
      let exp = be_uint64 (slice raw 24 32) in
      if ltb (length raw) 32
      then (db, none)
      else if after_stored now exp
      then ((Storage.delete db (db_key id)).0, none)
      else (
        db,
        some (record {
          server_msg_id = slice raw 0 16;
          seq = be_uint64 (slice raw 16 24);
          expires_at = exp;
        }),
      )

  read_entry : ℕ → Bytes → Db → Result StorageError Bytes → Db × Option Entry
  read_entry now id db (err e) = (db, none)
  read_entry now id db (ok raw) = decode_entry now id db raw

  -- `loadFromDB`, which asks for the time again: `now` is the later of the two.
  unfoldable pub load_from_db : ℕ → Bytes → Db → Db × Option Entry
  unfolding read_entry decode_entry
  load_from_db now id db = read_entry now id db (Storage.get db (db_key id))

  -- The part of `Check` and `SeenOrRemember` behind `if s.db != nil`.
  unfoldable pub load : ℕ → Bytes → Option Db → Option Db × Option Entry
  unfolding load_from_db
  load now id none = (none, none)
  load now id (some db) = let (db', e) = load_from_db now id db in (some db', e)

  after_load : Bytes → Store Db → Option Db × Option Entry → Store Db × Option Entry
  after_load id s (db, none) = (record s { db = db }, none)
  after_load id s (db, some e) = (record s { db = db; lru = insert id e s.lru }, some e)

  check_lru : ℕ → Bytes → Store Db → Option Entry → Store Db × Option Entry
  check_lru now id s (some e) = (s, some e)
  check_lru now id s none = after_load id s (load now id s.db)

  -- `Check`: the entry of a key that was seen, or none.
  unfoldable pub check : ℕ → Bytes → Store Db → Store Db × Option Entry
  unfolding after_load check_lru
  check now id s = let s' = evict_expired now s in check_lru now id s' (lookup id s'.lru)

  -- `for len(s.order) > s.capacity { … }`
  unfoldable pub trim_loop : List Bytes → Store Db → Store Db
  trim_loop [] s = record s { order = [] }
  trim_loop (oldest ∷ order) s =
      let rest =
        trim_loop order (record s { lru = remove oldest s.lru; db = delete_key oldest s.db }) in
      if ltb s.capacity (length (oldest ∷ order)) then rest else record s { order = oldest ∷ order }

  record_entry : Bytes → Entry → Store Db → Store Db
  record_entry id e s =
      trim_loop (s.order ++ (id ∷ []))
        (record s { lru = insert id e s.lru; db = persist id e s.db })

  abbrev pub fresh_entry : ℕ → Bytes → ℕ → Store Db → Entry
  fresh_entry now server_msg_id seq s = record {
    server_msg_id = server_msg_id;
    seq = seq;
    expires_at = now + s.ttl;
  }

  unfoldable pub remember : ℕ → Bytes → Bytes → ℕ → Store Db → Store Db
  unfolding record_entry
  remember now id server_msg_id seq s = record_entry id (fresh_entry now server_msg_id seq s) s

  seen_loaded :
      ℕ → Bytes → Bytes → ℕ → Store Db → Option Db × Option Entry → Store Db × Entry × Bool
  seen_loaded now id server_msg_id seq s (db, some e) =
      (touch id (record s { db = db; lru = insert id e s.lru }), e, true)
  seen_loaded now id server_msg_id seq s (db, none) =
      let e = fresh_entry now server_msg_id seq s in
      (record_entry id e (record s { db = db }), e, false)

  seen_lru : ℕ → Bytes → Bytes → ℕ → Store Db → Option Entry → Store Db × Entry × Bool
  seen_lru now id server_msg_id seq s (some e) = (s, e, true)
  seen_lru now id server_msg_id seq s none =
      seen_loaded now id server_msg_id seq s (load now id s.db)

  unfoldable pub seen_or_remember : ℕ → Bytes → Bytes → ℕ → Store Db → Store Db × Entry × Bool
  unfolding record_entry seen_loaded seen_lru
  seen_or_remember now id server_msg_id seq s =
      let s' = evict_expired now s in seen_lru now id server_msg_id seq s' (lookup id s'.lru)
