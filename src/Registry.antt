-- ===== src/Registry.antt =====
-- core/transport/mqtt/server.go, `Registry`: the topics of the broker by name. A `*topic.Topic` that
-- other parts hold is the name under which the registry holds the topic, which it never drops.
pub mod Loading
use broker_message.Base.{
  ℕ, Bool, ◌||◌, Option, some, none, List, [], ◌∷◌, map, ◌==◌, if◌then◌else◌, Bytes, bytes_eq,
  Assoc, lookup, insert, bytes_key, Result, ok, err,
}
use broker_message.Storage.{Badger}
use broker_message.Topic
use broker_message.Topic.{Topic, TopicError}

pub record Registry (Db : Type 0) : Type 0 where
  pub topics : Assoc Bytes (Topic Db)

-- `strings.NewReplacer("/", "_", "\\", "_", ":", "_", " ", "_")` on one byte
unfoldable pub sanitize_byte : ℕ → ℕ
sanitize_byte c = if c == b'/' || (c == 0x5c || (c == b':' || c == 0x20)) then b'_' else c

unfoldable pub sanitize_topic_dir : Bytes → Bytes
unfolding sanitize_byte
sanitize_topic_dir = map sanitize_byte

-- One entry of `os.ReadDir(baseDir)`.
pub record DirEntry : Type 0 where
  pub name : Bytes
  pub is_dir : Bool

module _ {Db : Type 0} where
  abbrev pub list_topics : Registry Db → List Bytes
  list_topics r = map (λ e. e.0) r.topics

  abbrev pub get : Registry Db → Bytes → Option (Topic Db)
  get r name = lookup name r.topics

  -- A change of the topic that a `*topic.Topic` points to.
  abbrev pub put_topic : Bytes → Topic Db → Registry Db → Registry Db
  put_topic name t r = record r { topics = insert name t r.topics }

  add_loaded : Topic Db → Option (Topic Db) → Registry Db → Registry Db
  add_loaded t (some other) r = r
  add_loaded t none r = put_topic t.name t r

  -- A topic whose database cannot be read, with an empty name, or with a name that is there is left.
  keep_loaded : Result TopicError (Topic Db) → Registry Db → Registry Db
  keep_loaded (err e) r = r
  keep_loaded (ok t) r = if bytes_eq t.name [] then r else add_loaded t (lookup t.name r.topics) r

-- `open_dir` is what `badger.Open` returns for a directory below `baseDir`.
module _ {Db : Type 0} ⦃b : Badger Db⦄ (open_dir : Bytes → Option Db) where
  -- The loop of `Load`.
  unfoldable pub load_entries : List DirEntry → Registry Db → Registry Db
  unfolding add_loaded keep_loaded
  load_entries [] r = r
  load_entries (e ∷ entries) r =
      load_entries entries
        (if e.is_dir then keep_loaded (Topic.load_from_dir (open_dir e.name)) r else r)

  unfoldable pub add_created :
      Bytes → Result TopicError (Topic Db) → Registry Db → Registry Db × Option (Topic Db)
  add_created name (err e) r = (r, none)
  add_created name (ok t) r = (put_topic name t r, some t)

  unfoldable pub get_or_new :
      Bytes → Option (Topic Db) → Registry Db → Registry Db × Option (Topic Db)
  get_or_new name (some t) r = (r, some t)
  get_or_new name none r = add_created name (Topic.new name (open_dir (sanitize_topic_dir name))) r

  -- `GetOrCreate`; the second test under the write lock sees the same map.
  unfoldable pub get_or_create : Bytes → Registry Db → Registry Db × Option (Topic Db)
  unfolding get_or_new add_created
  get_or_create name r = get_or_new name (lookup name r.topics) r
