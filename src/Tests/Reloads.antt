-- ===== src/Tests/Reloads.antt =====
-- core/topic/topic.go, `LoadFromDir` after a message has been published, with a database that keeps
-- every write and one that loses those of the sequence number.
use broker_message.Base.{
  ◌+◌, ◌≡◌, ◌≢◌, refl, be_value, List, Option, none, Bool, true, false, some, [], ◌∷◌, arith,
  replicate, Bytes, bytes_eq, lookup, put_uint64, bytes_key, ok, if◌then◌else◌, Bool-cases, inl,
  inr,
}
use broker_message.Envelope.{Envelope, nil_uuid}
use broker_message.Envelope.RoundTrip.{IsWire}
use broker_message.Storage
use broker_message.Offsets
use broker_message.Storage.{Badger, scan_loop, get_uint64}
use broker_message.Storage.Entries.{put, within, has_prefix, bytes_lt, put-IsSorted}
use broker_message.Storage.Memory.{MemDb, mem_badger, true_ne_false}
use broker_message.Topic.{Topic, Message, name_key, seq_key, load_from_dir, publish}
use broker_message.Topic.Keys.{msg_key, hex, hex_digit}
use broker_message.Topic.Publishing.{next_message}
use broker_message.Topic.Refinement.{Refines}
use broker_message.Registry.{DirEntry, get, load_entries}
use broker_message.Registry.Loading.{or_else, if_named, first_named, load_entries-get}
use broker_message.Topic.Restart.{
  Durable, IsNamed, CanLoad, load_from_dir-publish, load_from_dir-repeats,
}

abbrev topic_name : Bytes
topic_name = b't' ∷ []

abbrev name_stored : MemDb
name_stored = record {
  entries = put name_key topic_name [];
  sorted = put-IsSorted name_key topic_name [] tt;
}

abbrev named_db : MemDb
named_db = record {
  entries = put seq_key (put_uint64 0) name_stored.entries;
  sorted = put-IsSorted seq_key (put_uint64 0) name_stored.entries name_stored.sorted;
}

abbrev topic : Topic MemDb
topic = record {
  name = topic_name;
  seq = 0;
  subs = [];
  chans = [];
  next_chan = 0;
  db = named_db;
  offsets = [];
}

abbrev hello : Envelope
hello = record {
  idempotency_id = replicate 16 7;
  server_msg_id = nil_uuid;
  publish_ts = 12;
  user_props = [];
  payload = 1 ∷ 2 ∷ [];
}

sevens_ne_nil : replicate 16 7 ≢ nil_uuid
sevens_ne_nil h = cc

hello-IsWire : IsWire hello
hello-IsWire = record {
  idem_len = refl;
  server_len = refl;
  idem_set = sevens_ne_nil;
  ts_fits = omega arith;
  props_fit = omega arith;
}

abbrev fresh_id : Bytes
fresh_id = replicate 16 8

topic-Refines : Refines topic []
unfolding within put bytes_eq has_prefix bytes_lt
topic-Refines = record { held = refl; read_back = tt; up_to = tt }

topic-IsNamed : IsNamed topic
unfolding put lookup bytes_eq bytes_lt
topic-IsNamed = refl

abbrev told : Message
told = next_message fresh_id topic hello

abbrev after : Topic MemDb
after = (publish fresh_id topic hello).0

hello_published : publish fresh_id topic hello ≡ (after, ok told)
unfolding publish
hello_published = refl

after-CanLoad : CanLoad after.db
unfolding publish put lookup bytes_eq bytes_lt within has_prefix msg_key hex hex_digit
after-CanLoad = record { name_alive = λ h. cc; seq_alive = λ h. cc; offsets_readable = tt }

load_from_dir-publish_example :
    (t₂ : Topic MemDb) × (load_from_dir (some after.db) ≡ ok t₂)
    × Refines t₂ (told ∷ [])
    × (t₂.name ≡ topic_name)
    × (t₂.seq ≡ 0 + 1)
load_from_dir-publish_example =
    load_from_dir-publish fresh_id topic after hello told [] hello_published refl topic-Refines
      topic-IsNamed hello-IsWire refl (omega arith) after-CanLoad

-- The database that loses the number.
forgets : MemDb → Bytes → Bytes → MemDb × Bool
forgets d k v = if bytes_eq k seq_key then (d, false) else (
  record { entries = put k v d.entries; sorted = put-IsSorted k v d.entries d.sorted },
  true,
)

forgets-commits :
    (d : MemDb) (k v : Bytes)
    → (forgets d k v).1 ≡ true
    → (forgets d k v).0.entries ≡ put k v d.entries
unfolding forgets
forgets-commits d k v h = elim (Bool-cases (bytes_eq k seq_key)) [
  | inl e ↦ absurd (true_ne_false (cc (rw e at h)))
  | inr e ↦ rw e refl
]

forgets-aborts :
    (d : MemDb) (k v : Bytes) → (forgets d k v).1 ≡ false → (forgets d k v).0.entries ≡ d.entries
unfolding forgets
forgets-aborts d k v h = elim (Bool-cases (bytes_eq k seq_key)) [
  | inl e ↦ rw e refl
  | inr e ↦ cc (rw e at h)
]

abbrev forgetful : Badger MemDb
forgetful = record mem_badger {
  txn_set = forgets;
  set_commits = forgets-commits;
  set_aborts = forgets-aborts;
}

abbrev after_lost : Topic MemDb
after_lost = (publish ⦃b = forgetful⦄ fresh_id topic hello).0

hello_half : publish ⦃b = forgetful⦄ fresh_id topic hello ≡ (after_lost, ok told)
unfolding publish forgets msg_key bytes_eq
hello_half = refl

number_lost :
    (forgets (forgets named_db (msg_key 1) told.raw_wire).0 seq_key (put_uint64 1)).1 ≡ false
unfolding forgets bytes_eq
number_lost = refl

lost-Durable : Durable ⦃b = forgetful⦄ topic
unfolding put lookup bytes_eq bytes_lt
lost-Durable = record { of_name = refl; of_seq = inl refl; seq_fits = omega arith }

lost-CanLoad : CanLoad ⦃b = forgetful⦄ after_lost.db
unfolding publish forgets put lookup bytes_eq bytes_lt within has_prefix msg_key hex hex_digit
lost-CanLoad = record { name_alive = λ h. cc; seq_alive = λ h. cc; offsets_readable = tt }

load_from_dir-repeats_example :
    (t₂ : Topic MemDb) × (load_from_dir ⦃b = forgetful⦄ (some after_lost.db) ≡ ok t₂)
    × (lookup (msg_key 1) t₂.db.entries ≡ some told.raw_wire)
    × ((next_message ⦃b = forgetful⦄ fresh_id t₂ hello).seq ≡ 1)
load_from_dir-repeats_example =
    load_from_dir-repeats ⦃b = forgetful⦄ fresh_id fresh_id topic after_lost hello hello told
      hello_half number_lost lost-Durable lost-CanLoad

-- A file, a directory that does not open, and two directories with one topic.
abbrev entries : List DirEntry
entries =
    record { name = b'f' ∷ []; is_dir = false }
    ∷ record { name = b'x' ∷ []; is_dir = true }
    ∷ record { name = b't' ∷ []; is_dir = true }
    ∷ record { name = b'u' ∷ []; is_dir = true }
    ∷ []

unfoldable open_dir : Bytes → Option MemDb
open_dir d = if bytes_eq d (b'x' ∷ []) then none else some named_db

topic_name_set : topic_name ≢ []
topic_name_set h = cc

load_entries-get_example :
    get (load_entries open_dir entries (record { topics = [] })) topic_name
    ≡ or_else none (first_named open_dir topic_name entries)
unfolding lookup
load_entries-get_example =
    load_entries-get open_dir topic_name entries (record { topics = [] }) topic_name_set

first_found : first_named open_dir topic_name entries ≡ some topic
unfolding first_named or_else if_named load_from_dir open_dir bytes_eq put within has_prefix
    bytes_lt put_uint64 lookup Storage.get Offsets.load_from_storage scan_loop get_uint64 be_value
first_found = refl
