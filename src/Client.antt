-- ===== src/Client.antt =====
-- sdk/go/brokermq: the client library: the packets that it writes, the delivery of messages, and the
-- cache of the messages that have been seen.
pub mod Interop
pub mod Connection
pub mod Frames
pub mod Once
pub mod Inbound
pub mod Outbound
pub mod Admission
use broker_message.Base.{
  ℕ, zero, suc, ◌+◌, ◌-◌, ◌*◌, ◌/◌, ◌%◌, ◌^◌, bit_and, bit_or, Bool, true, false, not, ◌&&◌, Option,
  some, none, List, [], ◌∷◌, ◌++◌, ltb, leb, ◌==◌, if◌then◌else◌, length, get_or, drop, slice,
  has_bit, Bytes, bytes_eq, put_uint16, be_uint16, Result, ok, err,
}
use broker_message.Envelope
use broker_message.Envelope.{Envelope, nil_uuid}
use broker_message.Packet.Read.{mqtt_name}

pub record Options : Type 0 where
  pub client_id : Bytes
  pub username : Bytes
  pub password : Bytes
  pub qos : ℕ
  pub keep_alive : ℕ
  pub seen_cache_size : ℕ
  pub idempotency_id : Bytes

-- "brokermq-client", and sixty seconds in nanoseconds
unfoldable pub default_options : Options
default_options = record {
  client_id =
      b'b' ∷ b'r' ∷ b'o' ∷ b'k' ∷ b'e' ∷ b'r' ∷ b'm' ∷ b'q' ∷ b'-' ∷ b'c' ∷ b'l' ∷ b'i' ∷ b'e'
      ∷ b'n' ∷ b't' ∷ [];
  username = [];
  password = [];
  qos = 1;
  keep_alive = 60_000_000_000;
  seen_cache_size = 10_000;
  idempotency_id = nil_uuid;
}

-- The loop of `encodeRemaining`, as in the broker.
unfoldable pub encode_remaining_loop : ℕ → ℕ → Bytes
encode_remaining_loop zero len = []
encode_remaining_loop (suc fuel) len =
    let rest = encode_remaining_loop fuel (len / 128) in
    if ltb 0 (len / 128) then bit_or (len % 128) 0x80 ∷ rest else (len % 128) ∷ []

unfoldable pub encode_remaining : ℕ → Bytes
encode_remaining len = encode_remaining_loop 9 len

-- `byte(len(s)>>8), byte(len(s))` and the bytes of `s`
unfoldable pub prefixed : Bytes → Bytes
prefixed s = put_uint16 (length s) ++ s

unfoldable pub connect_flags : Options → ℕ
connect_flags o =
    if not (bytes_eq o.username [])
    then (if not (bytes_eq o.password []) then bit_or (bit_or 0x02 0x80) 0x40 else bit_or 0x02 0x80)
    else 0x02

unfoldable pub prefixed_if_set : Bytes → Bytes
prefixed_if_set s = if not (bytes_eq s []) then prefixed s else []

-- The variable header and the payload of `connectMQTT`.
unfoldable pub connect_body : Options → Bytes
unfolding prefixed_if_set
connect_body o =
    (0 ∷ 4 ∷ mqtt_name)
    ++ (4
        ∷ connect_flags o
        ∷ 0
        ∷ 60
        ∷ (prefixed o.client_id ++ (prefixed_if_set o.username ++ prefixed_if_set o.password)))

unfoldable pub connect_packet : Options → Bytes
connect_packet o = 0x10 ∷ (encode_remaining (length (connect_body o)) ++ connect_body o)

-- The first byte of `writePublish`.
unfoldable pub publish_header : ℕ → Bool → ℕ
publish_header qos dup =
    let flags = bit_and qos 0x03 * 2 in bit_or (3 * 16) (if dup then bit_or flags 0x08 else flags)

unfoldable pub write_publish : Bytes → Bytes → ℕ → ℕ → Bool → Bytes
write_publish topic payload qos pid dup =
    let vh = prefixed topic ++ (if ltb 0 qos then put_uint16 pid else []) in
    publish_header qos dup ∷ (encode_remaining (length vh + length payload) ++ (vh ++ payload))

unfoldable pub subscribe_packet : Bytes → ℕ → Bytes
subscribe_packet topic qos =
    let body = (0 ∷ 1 ∷ []) ++ (prefixed topic ++ (bit_and qos 0x03 ∷ [])) in
    0x82 ∷ (encode_remaining (length body) ++ body)

unfoldable pub pub_ack_packet : ℕ → Bytes
pub_ack_packet pid = 0x40 ∷ 0x02 ∷ put_uint16 pid

-- `c.nextPID++`, which skips 0; a client starts at the zero value of the field.
abbrev pub next_pid : ℕ → ℕ
next_pid n = if (n + 1) % 2 ^ 16 == 0 then 1 else (n + 1) % 2 ^ 16

abbrev pub first_pid : ℕ
first_pid = 0

-- `Publish`: the bytes that are written, and the next packet id. `fresh` is what `uuid.NewV7()`
-- returns, and `now` the time.
unfoldable pub publish : Bytes → ℕ → Options → ℕ → Bytes → Bytes → Bytes × ℕ
publish fresh now o pid topic payload =
    let idem = if bytes_eq o.idempotency_id nil_uuid then fresh else o.idempotency_id in
    let wire = Envelope.encode (Envelope.new_publish fresh now idem payload) in
    if ltb 0 o.qos
    then (write_publish topic wire o.qos pid false, next_pid pid)
    else (write_publish topic wire o.qos 0 false, pid)

-- `parsePublishBody`: the topic, the payload and the packet id, all empty for a body that is too short.
unfoldable pub parse_publish_body : Bytes → ℕ → Bytes × Bytes × ℕ
parse_publish_body body qos =
    let tl = be_uint16 (slice body 0 2) in
    let pos = 2 + tl in
    if ltb (length body) 2
    then ([], [], 0)
    else if ltb (length body) pos
    then ([], [], 0)
    else if ltb 0 qos && leb (pos + 2) (length body)
    then (slice body 2 pos, drop (pos + 2) body, be_uint16 (slice body pos (pos + 2)))
    else (slice body 2 pos, drop pos body, 0)

-- The loop of `readRemainingLength`, which has no limit on the number of bytes; `none` is an end of
-- the input inside the length. (An `int` that overflows is not modelled: it takes ten bytes.)
unfoldable pub read_remaining_loop : Bytes → ℕ → ℕ → Option (ℕ × Bytes)
read_remaining_loop [] len shift = none
read_remaining_loop (b ∷ rest) len shift =
    let len' = len + bit_and b 0x7f * 2 ^ shift in
    let more = read_remaining_loop rest len' (shift + 7) in
    if not (has_bit b 0x80) then some (len', rest) else more

unfoldable pub read_remaining_length : Bytes → Option (ℕ × Bytes)
read_remaining_length src = read_remaining_loop src 0 0

-- `SeenCache`: the keys in the order in which they came; `set` holds the same keys.
pub record SeenCache : Type 0 where
  pub cap : ℕ
  pub keys : List Bytes
  pub set : List Bytes

unfoldable pub new_seen_cache : ℕ → SeenCache
new_seen_cache capacity = record {
  cap = if ltb capacity 1024 then 1024 else capacity;
  keys = [];
  set = [];
}

-- `_, ok := c.set[id]`
unfoldable pub contains : Bytes → List Bytes → Bool
contains id [] = false
contains id (k ∷ set) = if bytes_eq k id then true else contains id set

-- `delete(c.set, id)`
unfoldable pub without : Bytes → List Bytes → List Bytes
without id [] = []
without id (k ∷ set) = let rest = without id set in if bytes_eq k id then rest else k ∷ rest

-- `if len(c.keys) > c.cap { … }`: the oldest key leaves.
unfoldable pub evict_oldest : SeenCache → List Bytes → SeenCache
evict_oldest c [] = record c { keys = [] }
evict_oldest c (oldest ∷ keys) =
    if ltb c.cap (length (oldest ∷ keys))
    then record c { keys = keys; set = without oldest c.set }
    else record c { keys = oldest ∷ keys }

unfoldable pub seen : Bytes → SeenCache → SeenCache × Bool
unfolding evict_oldest
seen id c =
    if bytes_eq id nil_uuid
    then (c, false)
    else if contains id c.set
    then (c, true)
    else (evict_oldest (record c { set = id ∷ c.set }) (c.keys ++ (id ∷ [])), false)

-- What the handler of a subscription gets.
pub record Message : Type 0 where
  pub topic : Bytes
  pub payload : Bytes
  pub idempotency_id : Bytes
  pub server_msg_id : Bytes
  pub publish_ts : ℕ

-- The envelope of what was received, or one that has only a payload. The zero time is no instant that
-- `UnixNano` represents; it stands here as 0.
unfoldable pub received : Bytes → Envelope
received wire = elim (Envelope.decode wire) [
  | ok e ↦ e
  | err _ ↦ record {
    idempotency_id = nil_uuid;
    server_msg_id = nil_uuid;
    publish_ts = 0;
    user_props = [];
    payload = wire;
  }
]

-- One PUBLISH in the loop of `Subscribe`: the message for the handler, if it was not seen, and the
-- packet id that is acknowledged, if there is one.
unfoldable pub deliver : Bytes → ℕ → SeenCache → SeenCache × Option Message × Option ℕ
deliver body qos cache =
    let (topic, wire, pid) = parse_publish_body body qos in
    let env = received wire in
    let (cache', dup) = seen env.server_msg_id cache in
    (
      cache',
      (if dup
          then none
          else some (record {
            topic = topic;
            payload = env.payload;
            idempotency_id = env.idempotency_id;
            server_msg_id = env.server_msg_id;
            publish_ts = env.publish_ts;
          })),
      (if ltb 0 pid then some pid else none),
    )
