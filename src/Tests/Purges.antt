-- ===== src/Tests/Purges.antt =====
-- core/topic/topic.go, `Purge`, on a concrete topic.
use broker_message.Base.{
  ◌≡◌, refl, true, false, some, none, [], ◌∷◌, arith, replicate, Bytes, bytes_eq, lookup, bytes_key,
  ok,
}
use broker_message.Envelope.{Envelope, nil_uuid}
use broker_message.Storage.{scan_loop}
use broker_message.Storage.Memory.{MemDb, mem_badger}
use broker_message.Storage.Entries.{within, has_prefix, bytes_lt}
use broker_message.Offsets
use broker_message.Topic.{Topic, Message, purge, delete_keys, collect_key, publish}
use broker_message.Topic.Keys.{msg_key, hex, hex_digit}
use broker_message.Topic.Publishing.{next_message}
use broker_message.Registry
use broker_message.Session.{Session, State, Env, Reader}
use broker_message.Session.Deliver.{receive}
use broker_message.Session.AfterPurge.{receive-after_purge}

abbrev client : Bytes
client = b'c' ∷ []

abbrev news : Topic MemDb
news = record {
  name = b'n' ∷ [];
  seq = 3;
  subs = [];
  chans = [];
  next_chan = 0;
  db = record { entries = (msg_key 3, 1 ∷ []) ∷ []; sorted = (tt, tt) };
  offsets = (Offsets.build_key client, 3) ∷ [];
}

abbrev purged : Topic MemDb
purged = (purge news).0

purge_done : purge news ≡ (purged, true)
unfolding purge delete_keys scan_loop collect_key within has_prefix bytes_lt msg_key hex hex_digit
purge_done = refl

abbrev hello : Envelope
hello = record {
  idempotency_id = replicate 16 7;
  server_msg_id = nil_uuid;
  publish_ts = 12;
  user_props = [];
  payload = 1 ∷ [];
}

abbrev fresh_id : Bytes
fresh_id = replicate 16 8

abbrev message : Message
message = next_message fresh_id purged hello

abbrev after : Topic MemDb
after = (publish fresh_id purged hello).0

hello_published : publish fresh_id purged hello ≡ (after, ok message)
unfolding publish
hello_published = refl

had_offset : Offsets.get news.offsets client ≡ 3
unfolding Offsets.get lookup bytes_eq
had_offset = refl

abbrev reader : Reader
reader = record { topic = b'n' ∷ []; chan = 0; qos = 0 }

abbrev session : Session
session = record {
  id = 1;
  conn = record { sent = []; outcomes = [] };
  remote_addr = [];
  closed = false;
  has_owner = false;
  client_id = client;
  user = none;
  auth_store = none;
  auth_req = false;
  subs = [];
  sub_qos = [];
  inflight = [];
  next_pkt_id = 1;
  readers = [];
}

abbrev state : State MemDb
state = record {
  session = session;
  broker = record {
    registry = record { topics = (b'n' ∷ [], after) ∷ [] };
    dedup = none;
    sessions = [];
    metrics = [];
  };
}

news_there : Registry.get state.broker.registry (b'n' ∷ []) ≡ some after
unfolding lookup bytes_eq
news_there = refl

abbrev env : Env MemDb
env = record {
  now = 5;
  fresh_idempotency = replicate 16 3;
  fresh_server = replicate 16 4;
  open_dir = λ d. none;
}

receive-after_purge_example : receive env reader message state ≡ (state, ok tt)
receive-after_purge_example =
    receive-after_purge fresh_id news purged after hello message env reader state purge_done
      hello_published (omega (arith, had_offset)) news_there
