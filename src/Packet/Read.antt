-- ===== src/Packet/Read.antt =====
-- core/transport/mqtt/packet.go, `ReadPacket` and the parsers below it. The reader is the list of
-- the bytes that arrive before the stream ends, and what is left of it is returned.

use broker_message.Base.{
  ℕ, zero, suc, ◌+◌, ◌*◌, ◌/◌, ◌^◌, bit_and, Bool, true, false, not, ◌&&◌, List, [], ◌∷◌, ◌++◌, ltb,
  leb, ◌==◌, if◌then◌else◌, length, get_or, take, drop, slice, Bytes, bytes_eq, be_uint16, has_bit,
  Result, ok, err, ◌>>=◌, ◌>>◌, refuse_if,
}
use broker_message.Packet.{
  ConnectPacket, PublishPacket, TopicFilter, SubscribePacket, UnsubscribePacket, Packet, Fault,
  connect, publish, pub_ack, subscribe, unsubscribe, ping_req, disconnect, end_of_input,
  length_overflow, missing_prefix, short_string, bad_protocol_name, missing_level, missing_flags,
  missing_keep_alive, missing_packet_id, short_body, missing_qos, unknown_type, out_of_fuel,
}

-- `io.ReadFull` of `n` bytes, as `io` documents it: all of them, or an error
unfoldable pub read_full : ℕ → Bytes → Result Fault (Bytes × Bytes)
read_full n src = do refuse_if (ltb (length src) n) end_of_input; ok (take n src, drop n src)

-- The loop's variables are `length` and `shift`. So far `length` is below 2 ^ shift, so `|=` adds.
unfoldable pub read_length_loop : Bytes → ℕ → ℕ → Result Fault (ℕ × Bytes)
read_length_loop [] len shift = err end_of_input
read_length_loop (b ∷ rest) len shift =
    let len' = len + bit_and b 0x7f * 2 ^ shift in
    let more = read_length_loop rest len' (shift + 7) in
    if not (has_bit b 0x80)
    then ok (len', rest)
    else (if ltb 21 (shift + 7) then err length_overflow else more)

unfoldable pub read_remaining_length : Bytes → Result Fault (ℕ × Bytes)
read_remaining_length src = read_length_loop src 0 0

-- The string whose length prefix stands at `pos`, and the position behind it.
unfoldable pub read_string : Bytes → ℕ → Result Fault (Bytes × ℕ)
read_string b pos = do
  refuse_if (ltb (length b) (pos + 2)) missing_prefix
  let l = be_uint16 (slice b pos (pos + 2))
  refuse_if (ltb (length b) (pos + 2 + l)) short_string
  ok (slice b (pos + 2) (pos + 2 + l), pos + 2 + l)

-- `if flag { s, p, err = readString(body, pos); pos = p }`: without the flag the string is empty
unfoldable pub read_string_if : Bool → Bytes → ℕ → Result Fault (Bytes × ℕ)
read_string_if false b pos = ok ([], pos)
read_string_if true b pos = read_string b pos

abbrev pub mqtt_name : Bytes
mqtt_name = b'M' ∷ b'Q' ∷ b'T' ∷ b'T' ∷ []

abbrev pub mqisdp_name : Bytes
mqisdp_name = b'M' ∷ b'Q' ∷ b'I' ∷ b's' ∷ b'd' ∷ b'p' ∷ []

unfoldable pub parse_connect : Bytes → Result Fault ConnectPacket
parse_connect body = do
  (proto_name, pos) ← read_string body 0
  refuse_if (not (bytes_eq proto_name mqtt_name) && not (bytes_eq proto_name mqisdp_name))
      bad_protocol_name
  refuse_if (leb (length body) pos) missing_level
  refuse_if (leb (length body) (pos + 1)) missing_flags
  let connect_flags = get_or body (pos + 1) 0
  refuse_if (ltb (length body) (pos + 2 + 2)) missing_keep_alive
  let keep_alive = be_uint16 (slice body (pos + 2) (pos + 2 + 2))
  (client_id, p₁) ← read_string body (pos + 2 + 2)
  let will_flag = has_bit connect_flags 0x04
  (_, p₂) ← read_string_if will_flag body p₁
  (_, p₃) ← read_string_if will_flag body p₂
  (username, p₄) ← read_string_if (has_bit connect_flags 0x80) body p₃
  (password, _) ← read_string_if (has_bit connect_flags 0x40) body p₄
  ok (record {
    client_id = client_id;
    username = username;
    password = password;
    clean_session = has_bit connect_flags 0x02;
    keep_alive = keep_alive;
  })

-- The packet identifier, which stands there for a QoS above 0, and the position behind it.
unfoldable pub read_packet_id : ℕ → Bytes → ℕ → Result Fault (ℕ × ℕ)
read_packet_id zero body pos = ok (0, pos)
read_packet_id (suc q) body pos = do
  refuse_if (ltb (length body) (pos + 2)) missing_packet_id
  ok (be_uint16 (slice body pos (pos + 2)), pos + 2)

unfoldable pub parse_publish : ℕ → Bytes → Result Fault PublishPacket
parse_publish flags body = do
  let qos = bit_and (flags / 2) 0x03
  (topic_name, p) ← read_string body 0
  (packet_id, pos) ← read_packet_id qos body p
  ok (record {
    topic_name = topic_name;
    packet_id = packet_id;
    qos = qos;
    retain = has_bit flags 0x01;
    dup = has_bit flags 0x08;
    payload = drop pos body;
  })

-- The loop of `parseSubscribe`; `topics` is what has been appended so far.
unfoldable pub parse_filters : ℕ → Bytes → ℕ → List TopicFilter → Result Fault (List TopicFilter)
parse_filters zero body pos topics = err out_of_fuel
parse_filters (suc fuel) body pos topics =
    let round = (do
      (filter, p) ← read_string body pos
      refuse_if (leb (length body) p) missing_qos
      let qos = bit_and (get_or body p 0) 0x03
      parse_filters fuel body (p + 1) (topics ++ (record { filter = filter; qos = qos } ∷ []))) in
    if ltb pos (length body) then round else ok topics

-- Each round reads three bytes at least, so `len(body)` rounds and the last test are enough.
unfoldable pub parse_subscribe : Bytes → Result Fault SubscribePacket
parse_subscribe body = do
  refuse_if (ltb (length body) 2) short_body
  topics ← parse_filters (suc (length body)) body 2 []
  ok (record { packet_id = be_uint16 (slice body 0 2); topics = topics })

-- The loop of `parseUnsubscribe`.
unfoldable pub parse_names : ℕ → Bytes → ℕ → List Bytes → Result Fault (List Bytes)
parse_names zero body pos topics = err out_of_fuel
parse_names (suc fuel) body pos topics =
    let round = (do (t, p) ← read_string body pos; parse_names fuel body p (topics ++ (t ∷ []))) in
    if ltb pos (length body) then round else ok topics

unfoldable pub parse_unsubscribe : Bytes → Result Fault UnsubscribePacket
parse_unsubscribe body = do
  refuse_if (ltb (length body) 2) short_body
  topics ← parse_names (suc (length body)) body 2 []
  ok (record { packet_id = be_uint16 (slice body 0 2); topics = topics })

-- The `switch` over the packet type.
unfoldable pub parse_body : ℕ → ℕ → Bytes → Result Fault Packet
parse_body pkt_type flags body =
    if pkt_type == 1
    then (do cp ← parse_connect body; ok (connect cp))
    else if pkt_type == 3
    then (do pp ← parse_publish flags body; ok (publish pp))
    else if pkt_type == 4
    then (do refuse_if (ltb (length body) 2) short_body; ok (pub_ack (be_uint16 (slice body 0 2))))
    else if pkt_type == 8
    then (do sp ← parse_subscribe body; ok (subscribe sp))
    else if pkt_type == 10
    then (do up ← parse_unsubscribe body; ok (unsubscribe up))
    else if pkt_type == 12
    then ok ping_req
    else if pkt_type == 14
    then ok disconnect
    else err (unknown_type pkt_type)

unfoldable pub read_packet : Bytes → Result Fault (Packet × Bytes)
read_packet [] = err end_of_input
read_packet (header ∷ src) = do
  (remaining, src₁) ← read_remaining_length src
  (body, rest) ← read_full remaining src₁
  pkt ← parse_body (header / 16) (bit_and header 0x0f) body
  ok (pkt, rest)
