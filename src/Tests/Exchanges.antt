-- ===== src/Tests/Exchanges.antt =====
-- The client and the broker together, on concrete messages: sdk/go/brokermq/client.go with
-- core/transport/mqtt/session.go and core/topic/topic.go.
use broker_message.Base.{
  ◌+◌, ◌^◌, ◌<◌, ◌≡◌, ◌≢◌, refl, true, false, none, some, List, [], ◌∷◌, ◌++◌, arith, replicate,
  Bytes, bytes_eq, lookup, put_uint16, put_uint64, bytes_key, ok,
}
use broker_message.Envelope
use broker_message.Envelope.{Envelope, nil_uuid}
use broker_message.Envelope.RoundTrip.{IsWire}
use broker_message.Storage.{scan_loop}
use broker_message.Storage.Memory.{MemDb, mem_badger, empty_db}
use broker_message.Storage.Entries.{within, put, has_prefix, bytes_lt}
use broker_message.Dedup
use broker_message.Offsets
use broker_message.Topic as Topics
use broker_message.Storage
use broker_message.Topic.{Topic, Message, publish, name_key}
use broker_message.Topic.Publishing.{next_message, stamped}
use broker_message.Topic.Refinement.{Refines}
use broker_message.Registry
use broker_message.Packet.{PublishPacket}
use broker_message.Packet.Publish.{publish_length}
use broker_message.Packet.Write.{write_conn_ack, write_publish}
use broker_message.Session.{Session, State, Env, alloc_packet_id, write, write_conn}
use broker_message.Session.Publish.{
  may_publish, handle_publish, publish_allowed, get_or_create, opened, opened_or_counted,
  is_duplicate, checked, publish_to, published, publish_done, remember, remembered, acknowledge,
}
use broker_message.Session.Deliver.{
  deliver_message, wire_of, allocate, take_packet_id, keep_inflight, write_counted,
}
use broker_message.Session.Handle.{handle_connect, log_in, announce}
use broker_message.Session.Retransmission.{open_conn}
use broker_message.Client.{
  Options, default_options, new_seen_cache, contains, prefixed, prefixed_if_set, connect_body,
  connect_packet,
}
use broker_message.Client.Connection as Calls
use broker_message.Client.Connection.{
  Client, Setting, with_client_id, with_credentials, apply_settings, receive_loop,
}
use broker_message.Client.Once.{
  Delivery, IsDelivery, frames_of, message, news, acks, receive_loop-news,
}
use broker_message.Client.Interop.{connect_of}
use broker_message.Client.Admission.{IsOptions, admitted, read_packet-connect, connect-admitted}
use broker_message.Client.Inbound.{
  IsSendable, idempotency_key, read_back, read_packet-publish, publish-appends,
}
use broker_message.Client.Outbound.{deliver_message-received}

abbrev hello : Envelope
hello = record {
  idempotency_id = replicate 16 7;
  server_msg_id = replicate 16 8;
  publish_ts = 12;
  user_props = [];
  payload = 1 ∷ 2 ∷ [];
}

sevens_ne_nil : replicate 16 7 ≢ nil_uuid
sevens_ne_nil h = cc

hello-IsWire : IsWire hello
hello-IsWire = record {
  idem_len = refl;
  server_len = refl;
  idem_set = sevens_ne_nil;
  ts_fits = omega arith;
  props_fit = omega arith;
}

-- A delivery, and its retransmission.
abbrev first : Delivery
first = record { topic = b't' ∷ []; env = hello; qos = 1; pid = 3; dup = false }

first-IsDelivery : IsDelivery first
unfolding Envelope.encode put_uint64 put_uint16
first-IsDelivery = record {
  topic_fits = omega arith;
  qos_fits = omega arith;
  pid_fits = omega arith;
  is_wire = hello-IsWire;
  fits = omega arith;
}

abbrev again : Delivery
again = record first { dup = true }

again-IsDelivery : IsDelivery again
unfolding Envelope.encode put_uint64 put_uint16
again-IsDelivery = record {
  topic_fits = omega arith;
  qos_fits = omega arith;
  pid_fits = omega arith;
  is_wire = hello-IsWire;
  fits = omega arith;
}

abbrev reader : Bytes → Client
reader input = record {
  opts = default_options;
  conn = open_conn [];
  input = input;
  seen = new_seen_cache 0;
  next_pid = 0;
}

receive_loop-news_example :
    (let c = reader (frames_of (first ∷ again ∷ []) ++ []) in
      ((receive_loop 2 c).1 ≡ news [] (first ∷ again ∷ []))
      × ((receive_loop 2 c).0.conn ≡ open_conn (acks (first ∷ again ∷ [])))
      × ((receive_loop 2 c).0.input ≡ []))
unfolding new_seen_cache
receive_loop-news_example =
    receive_loop-news (first ∷ again ∷ []) [] [] (reader (frames_of (first ∷ again ∷ []) ++ []))
      refl (first-IsDelivery, (again-IsDelivery, tt)) refl (omega arith)

handed_once : news [] (first ∷ again ∷ []) ≡ message first ∷ []
unfolding news bytes_eq contains
handed_once = refl

abbrev topic_name : Bytes
topic_name = b't' ∷ []

abbrev topic : Topic MemDb
topic = record {
  name = topic_name;
  seq = 0;
  subs = [];
  chans = [];
  next_chan = 0;
  db = empty_db;
  offsets = [];
}

topic-Refines : Refines topic []
unfolding within
topic-Refines = record { held = refl; read_back = tt; up_to = tt }

abbrev session : Session
session = record {
  id = 1;
  conn = open_conn [];
  remote_addr = [];
  closed = false;
  has_owner = false;
  client_id = b'c' ∷ [];
  user = none;
  auth_store = none;
  auth_req = false;
  subs = [];
  sub_qos = [];
  inflight = [];
  next_pkt_id = 1;
  readers = [];
}

abbrev state : State MemDb
state = record {
  session = session;
  broker = record {
    registry = record { topics = (topic_name, topic) ∷ [] };
    dedup = some (record { lru = []; order = []; capacity = 2; ttl = 100; db = none });
    sessions = [];
    metrics = [];
  };
}

abbrev settings : List Setting
settings = with_client_id (b'd' ∷ []) ∷ with_credentials (b'u' ∷ []) (b'p' ∷ []) ∷ []

abbrev options : Options
options = record default_options {
  client_id = b'd' ∷ [];
  username = b'u' ∷ [];
  password = b'p' ∷ [];
}

login-IsOptions : IsOptions (apply_settings settings default_options)
unfolding apply_settings connect_body prefixed prefixed_if_set put_uint16 bytes_eq default_options
login-IsOptions = record {
  id_fits = omega arith;
  name_fits = omega arith;
  password_fits = omega arith;
  fits = omega arith;
}

connect-admitted_example :
    (let o = apply_settings settings default_options in
      let r = Calls.connect settings (open_conn []) (write_conn_ack false 0 ++ (9 ∷ [])) in
      (connect_of o ≡ connect_of o)
      × (◌≡◌ {A = Bytes} [] [])
      × (r.1 ≡ admitted (handle_connect bytes_eq (connect_of o) state).1)
      × (r.0.conn ≡ open_conn (connect_packet o ∷ []))
      × (r.0.input ≡ 9 ∷ []))
unfolding handle_connect log_in announce write write_conn
connect-admitted_example =
    let o = apply_settings settings default_options in
    connect-admitted bytes_eq settings [] [] (write_conn_ack false 0) [] [] (9 ∷ []) (connect_of o)
      state login-IsOptions (read_packet-connect o [] login-IsOptions) refl refl

abbrev fresh_id : Bytes
fresh_id = replicate 16 8

eights_ne_nil : fresh_id ≢ nil_uuid
eights_ne_nil h = cc

hello-IsSendable : IsSendable fresh_id 12 options 0 topic_name (1 ∷ 2 ∷ [])
unfolding Envelope.encode put_uint64 put_uint16 default_options bytes_eq
hello-IsSendable = record {
  fresh_len = refl;
  fresh_set = eights_ne_nil;
  key_len = refl;
  time_fits = omega arith;
  topic_fits = omega arith;
  qos_fits = omega arith;
  pid_fits = omega arith;
  fits = omega arith;
}

abbrev env : Env MemDb
env = record {
  now = 20;
  fresh_idempotency = replicate 16 3;
  fresh_server = replicate 16 4;
  open_dir = λ d. none;
}

abbrev packet : PublishPacket
packet = read_back fresh_id 12 options 0 topic_name (1 ∷ 2 ∷ [])

-- The broker has no topic yet, and the directory of the topic is new.
abbrev fresh_env : Env MemDb
fresh_env = record env { open_dir = λ d. some empty_db }

abbrev fresh_state : State MemDb
fresh_state = record state { broker = record state.broker { registry = record { topics = [] } } }

abbrev made : Topic MemDb
made = record topic { db = (Storage.set empty_db name_key topic_name).0 }

abbrev registry_after : Registry.Registry MemDb
registry_after =
    (Registry.get_or_create fresh_env.open_dir topic_name fresh_state.broker.registry).0

topic_made :
    Registry.get_or_create fresh_env.open_dir topic_name fresh_state.broker.registry
    ≡ (registry_after, some made)
unfolding Registry.get_or_create Registry.get_or_new Registry.add_created Topics.new
    Topics.new_from_db Offsets.load_from_storage scan_loop Storage.get_uint64 Storage.get lookup
    bytes_eq within has_prefix bytes_lt put
topic_made = refl

made-Refines : Refines made []
unfolding within has_prefix bytes_eq bytes_lt put
made-Refines = record { held = refl; read_back = tt; up_to = tt }

abbrev after : State MemDb
after = (handle_publish fresh_env packet fresh_state).0

hello_handled : handle_publish fresh_env packet fresh_state ≡ (after, ok tt)
unfolding handle_publish may_publish publish_allowed get_or_create opened opened_or_counted
    Registry.get_or_create Registry.get_or_new Registry.add_created Topics.new Topics.new_from_db
    is_duplicate checked Dedup.check Dedup.evict_expired Dedup.load publish_to published publish
    publish_done remember remembered acknowledge write write_conn lookup bytes_eq default_options
    Offsets.load_from_storage scan_loop within put has_prefix
hello_handled = refl

not_seen : (is_duplicate fresh_env (idempotency_key fresh_id options) fresh_state).1 ≡ ok false
unfolding is_duplicate checked Dedup.check Dedup.evict_expired Dedup.load lookup
not_seen = refl

publish-appends_example :
    (t' : Topic MemDb) × (m : Message) × (Registry.get after.broker.registry topic_name ≡ some t')
    × Refines t' (m ∷ [])
    × (m.payload ≡ 1 ∷ 2 ∷ [])
    × (m.idempotency_id ≡ idempotency_key fresh_id options)
    × (m.timestamp ≡ 12)
    × (m.seq ≡ 0 + 1)
    × (◌≡◌ {A = Bytes} [] [])
publish-appends_example =
    publish-appends fresh_id 12 options 0 topic_name (1 ∷ 2 ∷ []) [] [] packet fresh_env fresh_state
      after registry_after made [] hello-IsSendable
      (read_packet-publish fresh_id 12 options 0 topic_name (1 ∷ 2 ∷ []) [] hello-IsSendable)
      hello_handled topic_made not_seen made-Refines refl (omega arith)

abbrev told : Message
told = next_message fresh_id topic hello

abbrev topic_after : Topic MemDb
topic_after = (publish fresh_id topic hello).0

hello_published : publish fresh_id topic hello ≡ (topic_after, ok told)
unfolding publish bytes_eq
hello_published = refl

abbrev delivered : State MemDb
delivered = (deliver_message env topic_name told 1 state).0

hello_delivered : deliver_message env topic_name told 1 state ≡ (delivered, ok tt)
unfolding deliver_message allocate take_packet_id alloc_packet_id keep_inflight write_counted write
    write_conn lookup
hello_delivered = refl

abbrev frame_written : Bytes
frame_written = write_publish topic_name (wire_of env.fresh_idempotency env.now told) 1 1 false

hello_written : delivered.session.conn ≡ open_conn (frame_written ∷ [])
unfolding deliver_message allocate take_packet_id alloc_packet_id keep_inflight write_counted write
    write_conn lookup
hello_written = refl

short_frame : publish_length topic_name (Envelope.encode (stamped fresh_id hello)) 1 < 2 ^ 28
unfolding Envelope.encode put_uint64 put_uint16 bytes_eq
short_frame = omega arith

deliver_message-received_example :
    ((receive_loop 1 (reader (frame_written ++ (9 ∷ [])))).1
      ≡ record {
        topic = topic_name;
        payload = 1 ∷ 2 ∷ [];
        idempotency_id = replicate 16 7;
        server_msg_id = told.server_msg_id;
        publish_ts = 12;
      }
        ∷ [])
    × ((receive_loop 1 (reader (frame_written ++ (9 ∷ [])))).0.input ≡ 9 ∷ [])
unfolding new_seen_cache contains
deliver_message-received_example =
    deliver_message-received fresh_id topic topic_after hello told env topic_name 1 [] []
      frame_written (9 ∷ []) state delivered (reader (frame_written ++ (9 ∷ []))) hello_published
      hello-IsWire refl (omega arith) short_frame refl (omega arith, omega arith) hello_delivered
      hello_written refl refl refl
