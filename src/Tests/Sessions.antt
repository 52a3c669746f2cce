-- ===== src/Tests/Sessions.antt =====
-- core/transport/mqtt/session.go on a concrete session and broker.
use broker_message.Base.{
  ℕ, ◌≡◌, refl, true, false, some, none, [], ◌∷◌, arith, replicate, Bytes, lookup, insert, remove,
  bytes_eq, be_uint16, be_value, put_uint16, put_uint64, bytes_key, nat_key, ok,
}
use broker_message.Envelope
use broker_message.Envelope.{Envelope, nil_uuid}
use broker_message.Storage.Memory.{MemDb, mem_badger, empty_db}
use broker_message.Dedup
use broker_message.Topic.{Topic, publish}
use broker_message.Registry
use broker_message.Packet.{PublishPacket}
use broker_message.Session.{Session, State, Env, InflightMsg, alloc_packet_id, write, write_conn}
use broker_message.Session.Deliver.{client_offset}
use broker_message.Session.Acks.{handle_pub_ack}
use broker_message.Session.Publish.{
  may_publish, envelope_of, handle_publish, publish_allowed, get_or_create, opened,
  opened_or_counted, is_duplicate, checked, publish_to, published, publish_done, remember,
  remembered, acknowledge,
}
use broker_message.Session.AckLaws.{IsPacketId, alloc_packet_id-free, handle_pub_ack-moves}
use broker_message.Session.Once.{key_of, handle_publish-once}

abbrev topic_name : Bytes
topic_name = b't' ∷ []

abbrev news : Topic MemDb
news = record {
  name = topic_name;
  seq = 9;
  subs = [];
  chans = [];
  next_chan = 0;
  db = empty_db;
  offsets = [];
}

abbrev sent_message : InflightMsg
sent_message = record {
  topic_name = topic_name;
  seq = 8;
  wire = [];
  qos = 1;
  sent_at = 0;
  topic_ref = topic_name;
}

abbrev session : Session
session = record {
  id = 1;
  conn = record { sent = []; outcomes = [] };
  remote_addr = [];
  closed = false;
  has_owner = false;
  client_id = b'c' ∷ [];
  user = none;
  auth_store = none;
  auth_req = false;
  subs = [];
  sub_qos = [];
  inflight = (65535, sent_message) ∷ [];
  next_pkt_id = 65535;
  readers = [];
}

abbrev dedup_store : Dedup.Store MemDb
dedup_store = record { lru = []; order = []; capacity = 2; ttl = 100; db = none }

abbrev state : State MemDb
state = record {
  session = session;
  broker = record {
    registry = record { topics = (topic_name, news) ∷ [] };
    dedup = some dedup_store;
    sessions = [];
    metrics = [];
  };
}

alloc_packet_id-free_example :
    (id : ℕ) × (s' : Session) × (alloc_packet_id session ≡ some (id, s'))
    × (lookup id session.inflight ≡ none)
    × IsPacketId id
    × IsPacketId s'.next_pkt_id
unfolding lookup bytes_eq
alloc_packet_id-free_example =
    alloc_packet_id-free session 1 (omega arith, omega arith) (omega arith, omega arith) refl

handle_pub_ack-moves_example :
    (client_offset topic_name (handle_pub_ack 65535 state) ≡ 8)
    × ((handle_pub_ack 65535 state).session.inflight ≡ remove 65535 session.inflight)
unfolding lookup bytes_eq
handle_pub_ack-moves_example = handle_pub_ack-moves 65535 state sent_message news refl refl

abbrev first_env : Env MemDb
first_env = record {
  now = 5;
  fresh_idempotency = replicate 16 3;
  fresh_server = replicate 16 4;
  open_dir = λ d. none;
}

abbrev later_env : Env MemDb
later_env = record first_env { now = 50; fresh_server = replicate 16 6 }

abbrev hello : Envelope
hello = record {
  idempotency_id = replicate 16 7;
  server_msg_id = nil_uuid;
  publish_ts = 12;
  user_props = [];
  payload = 1 ∷ [];
}

-- The first PUBLISH, and the same message for another topic.
abbrev packet : PublishPacket
packet = record {
  topic_name = topic_name;
  packet_id = 1;
  qos = 1;
  retain = false;
  dup = false;
  payload = Envelope.encode hello;
}

abbrev other_name : Bytes
other_name = b'u' ∷ []

abbrev other : Topic MemDb
other = record news { name = other_name }

abbrev again : PublishPacket
again = record packet { topic_name = other_name; dup = true }

abbrev before : State MemDb
before = record state {
  broker = record state.broker {
    registry = record { topics = (topic_name, news) ∷ (other_name, other) ∷ [] };
  };
}

abbrev after : State MemDb
after = (handle_publish first_env packet before).0

first_miss : Dedup.check 5 (key_of first_env packet) dedup_store ≡ (dedup_store, none)
unfolding Dedup.check Dedup.evict_expired Dedup.load lookup
first_miss = refl

first_published : handle_publish first_env packet before ≡ (after, ok tt)
unfolding handle_publish may_publish publish_allowed get_or_create opened opened_or_counted
    Registry.get_or_create Registry.get_or_new is_duplicate checked Dedup.check Dedup.evict_expired
    Dedup.load publish_to published publish publish_done remember remembered acknowledge write
    write_conn lookup bytes_eq
first_published = refl

other_there : Registry.get after.broker.registry other_name ≡ some other
unfolding handle_publish may_publish publish_allowed get_or_create opened opened_or_counted
    Registry.get_or_create Registry.get_or_new is_duplicate checked Dedup.check Dedup.evict_expired
    Dedup.load publish_to published publish publish_done remember remembered acknowledge write
    write_conn lookup insert bytes_eq
other_there = refl

same_key : key_of later_env again ≡ key_of first_env packet
unfolding envelope_of Envelope.encode Envelope.decode bytes_eq be_uint16 be_value put_uint16
    put_uint64
same_key = refl

still_may : may_publish after.session.user other_name ≡ true
unfolding may_publish handle_publish publish_allowed get_or_create Registry.get_or_create lookup
    bytes_eq is_duplicate Dedup.check Dedup.evict_expired Dedup.load publish_to publish publish_done
    write
still_may = refl

handle_publish-once_example :
    (handle_publish later_env again after).0.broker.registry ≡ after.broker.registry
unfolding may_publish
handle_publish-once_example =
    handle_publish-once first_env later_env packet again before after after dedup_store dedup_store
      other refl refl (omega arith) first_miss first_published refl still_may other_there same_key
      (omega arith)
