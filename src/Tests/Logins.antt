-- ===== src/Tests/Logins.antt =====
-- core/transport/mqtt/session.go on a concrete CONNECT that is refused.
use broker_message.Base.{
  ℕ, ◌≡◌, refl, true, false, some, none, [], ◌∷◌, ◌++◌, replicate, Bytes, bytes_eq, be_uint16,
  lookup, bytes_key, ok,
}
use broker_message.Auth.{authenticate}
use broker_message.Storage.Memory.{MemDb, mem_badger}
use broker_message.Packet.{ConnectPacket, connect, conn_refused_bad_credentials}
use broker_message.Packet.Read.{
  read_packet, read_remaining_length, read_length_loop, read_full, parse_body, parse_connect,
  read_string, read_string_if,
}
use broker_message.Packet.Write.{write_conn_ack}
use broker_message.Session.{Session, State, Env, write_conn}
use broker_message.Session.Handle.{ended, handle}
use broker_message.Session.Login.{handle-refused}

abbrev pub login : ConnectPacket
login = record {
  client_id = b'c' ∷ [];
  username = b'a' ∷ [];
  password = b'x' ∷ [];
  clean_session = true;
  keep_alive = 60;
}

abbrev pub frame : Bytes
frame =
    0x10 ∷ 19 ∷ 0 ∷ 4 ∷ b'M' ∷ b'Q' ∷ b'T' ∷ b'T' ∷ 4 ∷ 0xc2 ∷ 0 ∷ 60 ∷ 0 ∷ 1 ∷ b'c' ∷ 0 ∷ 1 ∷ b'a'
    ∷ 0 ∷ 1 ∷ b'x' ∷ []

-- A PUBLISH for the topic t stands behind it.
abbrev pub rest : Bytes
rest = 0x30 ∷ 4 ∷ 0 ∷ 1 ∷ b't' ∷ 9 ∷ []

pub frame_read : read_packet (frame ++ rest) ≡ ok (connect login, rest)
unfolding read_packet read_remaining_length read_length_loop read_full parse_body parse_connect
    read_string read_string_if be_uint16 bytes_eq
frame_read = refl

abbrev pub session : Session
session = record {
  id = 1;
  conn = record { sent = []; outcomes = [] };
  remote_addr = [];
  closed = false;
  has_owner = true;
  client_id = [];
  user = none;
  auth_store = some [];
  auth_req = true;
  subs = [];
  sub_qos = [];
  inflight = [];
  next_pkt_id = 1;
  readers = [];
}

abbrev pub state : State MemDb
state = record {
  session = session;
  broker = record { registry = record { topics = [] }; dedup = none; sessions = []; metrics = [] };
}

abbrev pub env : ℕ → Env MemDb
env n = record {
  now = n;
  fresh_idempotency = replicate 16 3;
  fresh_server = replicate 16 4;
  open_dir = λ d. none;
}

nobody : authenticate bytes_eq (some []) (b'a' ∷ []) (b'x' ∷ []) ≡ (none, false)
unfolding authenticate lookup
nobody = refl

handle-refused_example :
    (st : State MemDb) × (handle bytes_eq env (frame ++ rest) state ≡ ended st)
    × (st.broker.registry ≡ state.broker.registry)
    × (st.broker.dedup ≡ state.broker.dedup)
    × (st.session.conn
        ≡ (write_conn (write_conn_ack false conn_refused_bad_credentials) session.conn).0)
handle-refused_example =
    handle-refused bytes_eq env (frame ++ rest) rest login state [] none frame_read refl refl refl
      nobody
