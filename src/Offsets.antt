-- ===== src/Offsets.antt =====
-- core/offsets/offsets.go: how far each client has got in a topic, in memory and in the topic's
-- database. A method takes and returns the database beside the map. Errors of the database are
-- logged and dropped.
pub mod Restart
use broker_message.Base.{
  ℕ, ◌+◌, ◌%◌, ◌^◌, Bool, Option, some, none, [], ◌∷◌, ◌++◌, ltb, if◌then◌else◌, length, take,
  Bytes, be_uint64, put_uint64, Assoc, lookup, insert, remove, bytes_key,
}
use broker_message.Storage
use broker_message.Storage.{Badger, Step, next}

abbrev pub offset_key_prefix : Bytes
offset_key_prefix = b'o' ∷ b'f' ∷ b'f' ∷ b's' ∷ b'e' ∷ b't' ∷ b':' ∷ []

abbrev pub Offsets : Type 0
Offsets = Assoc Bytes ℕ

abbrev pub build_key : Bytes → Bytes
build_key group_id = offset_key_prefix ++ group_id

-- `m[k]` of a map of numbers: 0 for a key that is not there
abbrev pub value_or_zero : Option ℕ → ℕ
value_or_zero none = 0
value_or_zero (some n) = n

unfoldable pub get : Offsets → Bytes → ℕ
get o group_id = value_or_zero (lookup (build_key group_id) o)

-- The callback of `LoadFromStorage`.
unfoldable pub load_entry : Offsets → Bytes → Bytes → Offsets × Step
load_entry o key value =
    if ltb (length value) 8 then (o, next) else (insert key (be_uint64 (take 8 value)) o, next)

module _ {Db : Type 0} ⦃b : Badger Db⦄ where
  -- Into the map that `NewOffsets` made, which is empty; the flag is false for an error.
  unfoldable pub load_from_storage : Db → Offsets × Bool
  unfolding load_entry
  load_from_storage db = Storage.scan db offset_key_prefix load_entry []

  unfoldable pub set : Offsets → Db → Bytes → ℕ → Offsets × Db
  set o db group_id offset =
      let key = build_key group_id in
      (insert key offset o, (Storage.set db key (put_uint64 offset)).0)

  unfoldable pub inc : Offsets → Db → Bytes → Offsets × Db
  unfolding get set
  inc o db group_id = set o db group_id ((get o group_id + 1) % 2 ^ 64)

  unfoldable pub delete : Offsets → Db → Bytes → Offsets × Db
  delete o db group_id = let key = build_key group_id in (remove key o, (Storage.delete db key).0)
