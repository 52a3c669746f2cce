-- ===== src/Tests/Backlogs.antt =====
-- core/transport/mqtt/session.go, `handleSubscribe`, for a client that has read the first of the two
-- messages of a topic.
use broker_message.Base.{
  ◌≡◌, ◌≢◌, refl, none, [], ◌∷◌, arith, replicate, Bytes, bytes_eq, lookup, bytes_key, ok, false,
}
use broker_message.Envelope.{Envelope, nil_uuid}
use broker_message.Envelope.RoundTrip.{IsWire}
use broker_message.Storage.Memory.{MemDb, mem_badger, empty_db}
use broker_message.Storage.Entries.{put, within, has_prefix, bytes_lt}
use broker_message.Offsets
use broker_message.Topic.{Topic, Message, publish}
use broker_message.Topic.Keys.{msg_key, hex, hex_digit}
use broker_message.Topic.Publishing.{next_message}
use broker_message.Topic.Log.{from_seq}
use broker_message.Topic.Refinement.{Refines, publish-Refines}
use broker_message.Packet.{TopicFilter}
use broker_message.Packet.Write.{write_sub_ack}
use broker_message.Session.{Session, State, Env}
use broker_message.Session.Subscribe.{handle_subscribe, may_subscribe}
use broker_message.Session.Retransmission.{open_conn}
use broker_message.Session.CatchUp.{HasIds, publishes}
use broker_message.Session.Backlog.{backlog, handle_subscribe-backlog}

abbrev name : Bytes
name = b'n' ∷ []

abbrev reader : Bytes
reader = b'c' ∷ []

abbrev topic : Topic MemDb
topic = record {
  name = name;
  seq = 0;
  subs = [];
  chans = [];
  next_chan = 0;
  db = empty_db;
  offsets = (Offsets.build_key reader, 1) ∷ [];
}

topic-Refines : Refines topic []
unfolding within
topic-Refines = record { held = refl; read_back = tt; up_to = tt }

abbrev hello : Envelope
hello = record {
  idempotency_id = replicate 16 7;
  server_msg_id = nil_uuid;
  publish_ts = 12;
  user_props = [];
  payload = 1 ∷ 2 ∷ [];
}

hello_id : replicate 16 7 ≢ nil_uuid
hello_id h = cc

hello-IsWire : IsWire hello
hello-IsWire = record {
  idem_len = refl;
  server_len = refl;
  idem_set = hello_id;
  ts_fits = omega arith;
  props_fit = omega arith;
}

abbrev fresh_id : Bytes
fresh_id = replicate 16 8

abbrev first : Message
first = next_message fresh_id topic hello

abbrev with_one : Topic MemDb
with_one = (publish fresh_id topic hello).0

one_published : publish fresh_id topic hello ≡ (with_one, ok first)
unfolding publish
one_published = refl

one-Refines : Refines with_one (first ∷ [])
one-Refines =
    publish-Refines fresh_id topic with_one hello first [] one_published topic-Refines hello-IsWire
      refl (omega arith)

abbrev second : Message
second = next_message fresh_id with_one hello

abbrev with_two : Topic MemDb
with_two = (publish fresh_id with_one hello).0

two_published : publish fresh_id with_one hello ≡ (with_two, ok second)
unfolding publish
two_published = refl

with_one-seq : with_one.seq ≡ 1
unfolding publish
with_one-seq = refl

with_two-seq : with_two.seq ≡ 2
unfolding publish
with_two-seq = refl

two-Refines : Refines with_two (first ∷ second ∷ [])
two-Refines =
    publish-Refines fresh_id with_one with_two hello second (first ∷ []) two_published one-Refines
      hello-IsWire refl (omega (arith, with_one-seq))

abbrev session : Session
session = record {
  id = 1;
  conn = open_conn [];
  remote_addr = [];
  closed = false;
  has_owner = false;
  client_id = reader;
  user = none;
  auth_store = none;
  auth_req = false;
  subs = [];
  sub_qos = [];
  inflight = [];
  next_pkt_id = 1;
  readers = [];
}

session-HasIds : HasIds 500 session
unfolding lookup
session-HasIds = record { is_set = omega arith; room = omega arith; unused = λ j h. refl }

abbrev state : State MemDb
state = record {
  session = session;
  broker = record {
    registry = record { topics = (name, with_two) ∷ [] };
    dedup = none;
    sessions = [];
    metrics = [];
  };
}

abbrev env : Env MemDb
env = record {
  now = 20;
  fresh_idempotency = replicate 16 3;
  fresh_server = replicate 16 4;
  open_dir = λ d. none;
}

-- The filter asks for QoS 2.
abbrev filter : TopicFilter
filter = record { filter = name; qos = 2 }

handle_subscribe-backlog_example :
    (st' : State MemDb) × (handle_subscribe env
        (record { packet_id = 9; topics = filter ∷ [] })
        state
      ≡ (st', ok tt))
    × (st'.session.conn
        ≡ open_conn (
            write_sub_ack 9 (1 ∷ [])
            ∷ publishes 1 1 (backlog with_two reader (first ∷ second ∷ []))))
unfolding within has_prefix bytes_lt msg_key hex hex_digit publish put bytes_eq lookup Offsets.get
    may_subscribe
handle_subscribe-backlog_example =
    handle_subscribe-backlog env filter 9 with_two (first ∷ second ∷ []) [] state refl refl
      two-Refines (omega (arith, with_two-seq)) (λ h. cc, tt) refl session-HasIds

one_behind : backlog with_two reader (first ∷ second ∷ []) ≡ second ∷ []
unfolding from_seq Offsets.get lookup bytes_eq publish
one_behind = refl
