-- ===== src/Storage/Memory.antt =====
-- A database in memory that never fails: the laws of the interface can be met.
use broker_message.Base.{
  ◌≡◌, ◌≢◌, refl, true, false, Option, none, some, [], map, Bytes, Assoc, lookup, remove, bytes_key,
}
use broker_message.Storage.Entries.{put, within, IsSorted, put-IsSorted, remove-IsSorted}
use broker_message.Storage.{Read, found, missing, Badger}

pub record MemDb : Type 0 where
  pub entries : Assoc Bytes Bytes
  pub sorted : IsSorted entries

abbrev pub read_of : Option Bytes → Read
read_of none = missing
read_of (some v) = found v

pub read_found : (o : Option Bytes) (v : Bytes) → read_of o ≡ found v → o ≡ some v
read_found none v h = cc
read_found (some w) v h = cc

pub read_missing : (o : Option Bytes) → read_of o ≡ missing → o ≡ none
read_missing none h = refl
read_missing (some w) h = cc

pub true_ne_false : true ≢ false
true_ne_false h = cc

instance abbrev pub mem_badger : Badger MemDb
mem_badger = record {
  entries = λ d. d.entries;
  txn_set = λ d k v.
      (record { entries = put k v d.entries; sorted = put-IsSorted k v d.entries d.sorted }, true);
  txn_get = λ d k. read_of (lookup k d.entries);
  txn_delete = λ d k. (
    record { entries = remove k d.entries; sorted = remove-IsSorted k d.entries d.sorted },
    true,
  );
  iterate = λ d prefix seek. map (λ e. (e.0, some e.1)) (within prefix seek d.entries);
  entries_sorted = λ d. d.sorted;
  set_commits = λ d k v h. refl;
  set_aborts = λ d k v h. absurd (true_ne_false h);
  delete_commits = λ d k h. refl;
  delete_aborts = λ d k h. absurd (true_ne_false h);
  get_found = λ d k v h. read_found (lookup k d.entries) v h;
  get_missing = λ d k h. read_missing (lookup k d.entries) h;
  iterate_reads = λ d prefix seek h. refl;
}

abbrev pub empty_db : MemDb
empty_db = record { entries = []; sorted = tt }
