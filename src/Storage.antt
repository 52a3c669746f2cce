-- ===== src/Storage.antt =====
-- core/storage/badger.go over Badger, a library that is not part of the repository: its operations
-- are the fields of an interface, with the documented behaviour that the broker relies on as laws.
pub mod Entries
pub mod Memory
pub mod Prefixes
use broker_message.Base.{
  ℕ, ◌^◌, ◌<◌, ◌≡◌, Bool, true, false, not, Option, none, some, List, [], ◌∷◌, map, ltb,
  if◌then◌else◌, length, take, All, Bytes, be_uint64, be_value, put_uint64, Assoc, lookup, remove,
  bytes_key, Result, ok, err,
}
use broker_message.Storage.Entries.{put, within, IsSorted}

pub data Read : Type 0 where
  found : Bytes → Read
  missing : Read
  failed : Read

-- `entries d` is what has been committed, in the order of the keys. `set`, `get` and `delete` are
-- transactions of one operation; the flag says whether the transaction was committed. `iterate`
-- lists what an iterator with the option `Prefix` meets after `Seek`, with `none` for a value that
-- cannot be copied.
pub record Badger (Db : Type 0) : Type 0 where
  pub entries : Db → Assoc Bytes Bytes
  pub txn_set : Db → Bytes → Bytes → Db × Bool
  pub txn_get : Db → Bytes → Read
  pub txn_delete : Db → Bytes → Db × Bool
  pub iterate : Db → Bytes → Bytes → List (Bytes × Option Bytes)
  pub entries_sorted : (d : Db) → IsSorted (entries d)
  pub set_commits :
      (d : Db) (k v : Bytes)
      → (txn_set d k v).1 ≡ true
      → entries (txn_set d k v).0 ≡ put k v (entries d)
  pub set_aborts :
      (d : Db) (k v : Bytes) → (txn_set d k v).1 ≡ false → entries (txn_set d k v).0 ≡ entries d
  pub delete_commits :
      (d : Db) (k : Bytes)
      → (txn_delete d k).1 ≡ true
      → entries (txn_delete d k).0 ≡ remove k (entries d)
  pub delete_aborts :
      (d : Db) (k : Bytes) → (txn_delete d k).1 ≡ false → entries (txn_delete d k).0 ≡ entries d
  pub get_found : (d : Db) (k v : Bytes) → txn_get d k ≡ found v → lookup k (entries d) ≡ some v
  pub get_missing : (d : Db) (k : Bytes) → txn_get d k ≡ missing → lookup k (entries d) ≡ none
  pub iterate_reads :
      (d : Db) (prefix seek : Bytes)
      → All (λ i. i.1 ≡ none → ⊥) (iterate d prefix seek)
      → iterate d prefix seek ≡ map (λ e. (e.0, some e.1)) (within prefix seek (entries d))

pub data StorageError : Type 0 where
  key_not_found : StorageError
  storage_failed : StorageError

-- What the callback of a scan asks for: `return nil`, `return ErrStopScan`, or another error.
pub data Step : Type 0 where
  next : Step
  stop : Step
  fail : Step

from_read : Read → Result StorageError Bytes
from_read (found v) = ok v
from_read missing = err key_not_found
from_read failed = err storage_failed

uint64_of : Result StorageError Bytes → Result StorageError ℕ
uint64_of (ok v) = if ltb (length v) 8 then ok 0 else ok (be_uint64 (take 8 v))
uint64_of (err key_not_found) = ok 0
uint64_of (err storage_failed) = err storage_failed

module _ {S : Type 0} where
  -- How a scan goes on after a callback that has left `s`.
  unfoldable pub after_step : Step → (S → S × Bool) → S → S × Bool
  after_step next rest s = rest s
  after_step stop rest s = (s, true)
  after_step fail rest s = (s, false)

  -- The loop of `Scan` and `ScanFrom`; the flag is false for an error.
  unfoldable pub scan_loop :
      (S → Bytes → Bytes → S × Step) → List (Bytes × Option Bytes) → S → S × Bool
  unfolding after_step
  scan_loop fn [] s = (s, true)
  scan_loop fn ((k, none) ∷ items) s = (s, false)
  scan_loop fn ((k, some v) ∷ items) s =
      let (s', step) = fn s k v in after_step step (scan_loop fn items) s'

module _ {Db : Type 0} ⦃b : Badger Db⦄ where
  abbrev pub set : Db → Bytes → Bytes → Db × Bool
  set = b.txn_set

  unfoldable pub get : Db → Bytes → Result StorageError Bytes
  unfolding from_read
  get db key = from_read (b.txn_get db key)

  abbrev pub delete : Db → Bytes → Db × Bool
  delete = b.txn_delete

  abbrev pub scan_from :
      {S : Type 0} → Db → Bytes → Bytes → (S → Bytes → Bytes → S × Step) → S → S × Bool
  scan_from db start_key prefix fn s = scan_loop fn (b.iterate db prefix start_key) s

  abbrev pub scan : {S : Type 0} → Db → Bytes → (S → Bytes → Bytes → S × Step) → S → S × Bool
  scan db prefix fn s = scan_loop fn (b.iterate db prefix prefix) s

  unfoldable pub get_uint64 : Db → Bytes → Result StorageError ℕ
  unfolding uint64_of get
  get_uint64 db key = uint64_of (get db key)

  abbrev pub set_uint64 : Db → Bytes → ℕ → Db × Bool
  set_uint64 db key val = set db key (put_uint64 val)
