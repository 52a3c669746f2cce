-- ===== src/Topic.antt =====
-- core/topic/topic.go: a topic, its messages in a Badger database of its own, and its subscribers.
-- A channel is a queue of at most 256 messages under a number that stands for the pointer.
pub mod Keys
pub mod KeyOrder
pub mod Publishing
pub mod Subscribers
pub mod Log
pub mod Refinement
pub mod Purging
pub mod Restart
use broker_message.Base.{
  ℕ, zero, suc, ◌+◌, ◌-◌, ◌*◌, ◌/◌, ◌%◌, ◌^◌, Bool, true, false, not, Option, some, none, List, [],
  ◌∷◌, ◌++◌, ltb, leb, ◌==◌, if◌then◌else◌, length, take, drop, slice, Bytes, bytes_eq, be_uint64,
  be_value, put_uint64, Assoc, lookup, insert, remove, bytes_key, nat_key, Result, ok, err, ◌>>=◌,
}
use broker_message.Envelope
use broker_message.Envelope.{Envelope, nil_uuid}
use broker_message.Storage
use broker_message.Storage.{Badger, Step, next, stop, fail, StorageError}
use broker_message.Offsets
use broker_message.Offsets.{Offsets}
use broker_message.Topic.Keys.{msg_key_prefix, msg_key, parse_hex}

abbrev pub seq_key : Bytes
seq_key = b'm' ∷ b'e' ∷ b't' ∷ b'a' ∷ b':' ∷ b's' ∷ b'e' ∷ b'q' ∷ []

abbrev pub name_key : Bytes
name_key =
    b'm' ∷ b'e' ∷ b't' ∷ b'a' ∷ b':' ∷ b't' ∷ b'o' ∷ b'p' ∷ b'i' ∷ b'c' ∷ b'_' ∷ b'n' ∷ b'a' ∷ b'm'
    ∷ b'e' ∷ []

abbrev pub sub_chan_size : ℕ
sub_chan_size = 256

pub record Message : Type 0 where
  pub seq : ℕ
  pub topic : Bytes
  pub payload : Bytes
  pub timestamp : ℕ
  pub idempotency_id : Bytes
  pub server_msg_id : Bytes
  pub raw_wire : Bytes

-- A channel: what it buffers, and whether it has been closed.
pub record Chan : Type 0 where
  pub buffer : List Message
  pub closed : Bool

-- `subs` lists the subscribers in the order of their subscriptions. `chans` holds every channel that
-- was made, since a reader may still drain one that has been closed.
pub record Topic (Db : Type 0) : Type 0 where
  pub name : Bytes
  pub seq : ℕ
  pub subs : List ℕ
  pub chans : Assoc ℕ Chan
  pub next_chan : ℕ
  pub db : Db
  pub offsets : Offsets

pub data TopicError : Type 0 where
  open_storage : TopicError
  read_name : TopicError
  persist_name : TopicError
  load_offsets : TopicError
  persist_message : TopicError
  get_messages_failed : TopicError
  delete_failed : TopicError

-- `uuid.UUID{}` of a message in the legacy format is the nil UUID.
unfoldable pub decode_stored_message : Bytes → Bytes → Option Message
decode_stored_message topic_name raw = elim (Envelope.try_decode raw) [
  | some env ↦ some (record {
    seq = 0;
    topic = topic_name;
    payload = env.payload;
    timestamp = env.publish_ts;
    idempotency_id = env.idempotency_id;
    server_msg_id = env.server_msg_id;
    raw_wire = raw;
  })
  | none ↦
      if ltb (length raw) 16
      then none
      else some (record {
        seq = be_uint64 (slice raw 0 8);
        topic = topic_name;
        payload = drop 16 raw;
        timestamp = be_uint64 (slice raw 8 16);
        idempotency_id = nil_uuid;
        server_msg_id = nil_uuid;
        raw_wire = raw;
      })
]

-- `select { case sub.ch <- msg: default: }`: a full channel drops the message.
unfoldable pub offer : Message → Chan → Chan
offer m c =
    if ltb (length c.buffer) sub_chan_size then record c { buffer = c.buffer ++ (m ∷ []) } else c

offer_to : Message → ℕ → Option Chan → Assoc ℕ Chan → Assoc ℕ Chan
offer_to m id none chans = chans
offer_to m id (some c) chans = insert id (offer m c) chans

-- The loop over the subscribers.
unfoldable pub fan_out : Message → List ℕ → Assoc ℕ Chan → Assoc ℕ Chan
unfolding offer_to
fan_out m [] chans = chans
fan_out m (id ∷ subs) chans = fan_out m subs (offer_to m id (lookup id chans) chans)

unfoldable pub remove_first : ℕ → List ℕ → List ℕ
remove_first id [] = []
remove_first id (s ∷ subs) = let rest = remove_first id subs in if s == id then subs else s ∷ rest

unfoldable pub is_subscribed : ℕ → List ℕ → Bool
is_subscribed id [] = false
is_subscribed id (s ∷ subs) = if s == id then true else is_subscribed id subs

close_chan : ℕ → Option Chan → Assoc ℕ Chan → Assoc ℕ Chan
close_chan id none chans = chans
close_chan id (some c) chans = insert id (record c { closed = true }) chans

-- The state of the scan in `GetMessages` is the list of the messages so far.
unfoldable pub add_message : Option Message → Bytes → ℕ → List Message → List Message × Step
add_message none key limit msgs = (msgs, fail)
add_message (some m) key limit msgs =
    let seq = if leb (4 + 16) (length key) then parse_hex (drop 4 key) else m.seq in
    let msgs' = msgs ++ (record m { seq = seq } ∷ []) in
    (msgs', if leb limit (length msgs') then stop else next)

unfoldable pub collect : Bytes → ℕ → List Message → Bytes → Bytes → List Message × Step
unfolding add_message
collect topic_name limit msgs key value =
    add_message (decode_stored_message topic_name value) key limit msgs

-- The state of the scan in `Purge` is the list of the keys so far.
unfoldable pub collect_key : List Bytes → Bytes → Bytes → List Bytes × Step
collect_key keys k v = (keys ++ (k ∷ []), next)

restored_seq : Result StorageError ℕ → ℕ
restored_seq (ok n) = n
restored_seq (err e) = 0

module _ {Db : Type 0} ⦃b : Badger Db⦄ where
  -- Deletes until a deletion fails; the flag is false then.
  unfoldable pub delete_keys : List Bytes → Db → Db × Bool
  delete_keys [] db = (db, true)
  delete_keys (k ∷ keys) db =
      let (db', done) = Storage.delete db k in
      let rest = delete_keys keys db' in if done then rest else (db', false)

  with_offsets : Bytes → Db → Offsets × Bool → Result TopicError (Topic Db)
  with_offsets name db (offs, false) = err load_offsets
  with_offsets name db (offs, true) = ok (record {
    name = name;
    seq = restored_seq (Storage.get_uint64 db seq_key);
    subs = [];
    chans = [];
    next_chan = 0;
    db = db;
    offsets = offs;
  })

  -- `newFromDB`. A sequence number that cannot be read is logged, and the topic starts at 0.
  unfoldable pub new_from_db : Bytes → Db → Bool → Result TopicError (Topic Db)
  unfolding with_offsets restored_seq
  new_from_db name db false = with_offsets name db (Offsets.load_from_storage db)
  new_from_db name db true =
      let (db', done) = Storage.set db name_key name in
      if done then with_offsets name db' (Offsets.load_from_storage db') else err persist_name

  -- `New` and `LoadFromDir`; the argument is what `badger.Open` returns for the directory.
  unfoldable pub new : Bytes → Option Db → Result TopicError (Topic Db)
  unfolding new_from_db
  new name none = err open_storage
  new name (some db) = new_from_db name db true

  named : Db → Result StorageError Bytes → Result TopicError (Topic Db)
  named db (ok stored) = new_from_db stored db false
  named db (err e) = err read_name

  unfoldable pub load_from_dir : Option Db → Result TopicError (Topic Db)
  unfolding named new_from_db
  load_from_dir none = err open_storage
  load_from_dir (some db) = named db (Storage.get db name_key)

  -- `Publish`. `fresh` is what `uuid.NewV7()` returns. The sequence number is taken first and is not
  -- given back when the message cannot be stored.
  unfoldable pub publish : Bytes → Topic Db → Envelope → Topic Db × Result TopicError Message
  publish fresh t env =
      let seq = (t.seq + 1) % 2 ^ 64 in
      let server_id = if bytes_eq env.server_msg_id nil_uuid then fresh else env.server_msg_id in
      let env' = Envelope.with_server_msg_id server_id env in
      let wire = Envelope.encode env' in
      let msg : Message = record {
        seq = seq;
        topic = t.name;
        payload = env'.payload;
        timestamp = env'.publish_ts;
        idempotency_id = env'.idempotency_id;
        server_msg_id = server_id;
        raw_wire = wire;
      } in
      let (db₁, stored) = Storage.set t.db (msg_key seq) wire in
      if stored
      then (
        record t {
          seq = seq;
          db = (Storage.set_uint64 db₁ seq_key seq).0;
          chans = fan_out msg t.subs t.chans;
        },
        ok msg,
      )
      else (record t { seq = seq; db = db₁ }, err persist_message)

  -- The channel, and its number, by which the function that ends the subscription knows it.
  unfoldable pub subscribe : Topic Db → Topic Db × ℕ
  subscribe t = (
    record t {
      subs = t.subs ++ (t.next_chan ∷ []);
      chans = insert t.next_chan (record { buffer = []; closed = false }) t.chans;
      next_chan = t.next_chan + 1;
    },
    t.next_chan,
  )

  unfoldable pub unsubscribe : ℕ → Topic Db → Topic Db
  unfolding close_chan
  unsubscribe id t =
      if is_subscribed id t.subs
      then record t {
        subs = remove_first id t.subs;
        chans = close_chan id (lookup id t.chans) t.chans;
      }
      else t

  unfoldable pub get_messages : Topic Db → ℕ → ℕ → Result TopicError (List Message)
  unfolding collect
  get_messages t from_seq zero = ok []
  get_messages t from_seq (suc n) =
      let (msgs, fine) =
        Storage.scan_from t.db (msg_key from_seq) msg_key_prefix (collect t.name (suc n)) [] in
      if fine then ok msgs else err get_messages_failed

  -- `Purge`: an error of the scan is dropped; the first deletion that fails ends it.
  unfoldable pub purge : Topic Db → Topic Db × Bool
  unfolding collect_key
  purge t =
      let keys = (Storage.scan t.db msg_key_prefix collect_key []).0 in
      let (db₁, deleted) = delete_keys keys t.db in
      if deleted
      then (let (db₂, done) = Storage.set_uint64 db₁ seq_key 0 in
          (record t { seq = 0; db = db₂ }, done))
      else (record t { db = db₁ }, false)
