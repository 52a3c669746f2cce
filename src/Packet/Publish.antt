-- ===== src/Packet/Publish.antt =====
-- core/transport/mqtt/packet.go: `ReadPacket` on what `WritePublish` and `WritePubAck` wrote.
use broker_message.Base.{
  ℕ, zero, suc, ◌+◌, ◌/◌, ◌^◌, ◌≤◌, ◌<◌, ◌≡◌, refl, ap, ltb, bit_and, Bool, true, false, [], ◌∷◌,
  ◌++◌, arith, length, drop-append, take-append, length-append, append_assoc, append-nil, Bytes,
  put_uint16, has_bit, ok, le→not_ltb, lt→ltb, if◌then◌else◌,
}
use native.Mathlib.Nat.{add_assoc}
use broker_message.Packet.{Packet, PublishPacket, publish}
use broker_message.Packet.Read.{read_packet_id, parse_publish, parse_body, read_full, read_packet}
use broker_message.Packet.Write.{
  encode_string, encode_remaining_length, publish_header, write_publish,
}
use broker_message.Packet.Length.{read_remaining_length-encode}
use broker_message.Packet.Strings.{
  length-put_uint16, length-encode_string, be_uint16-behind, read_string-encode_string,
}

-- What the first byte of a PUBLISH carries.
pub record Flags (header qos : ℕ) (dup : Bool) : Type 0 where
  pub of_type : header / 16 ≡ 3
  pub of_qos : bit_and (bit_and header 0x0f / 2) 0x03 ≡ qos
  pub of_dup : has_bit (bit_and header 0x0f) 0x08 ≡ dup
  pub of_retain : has_bit (bit_and header 0x0f) 0x01 ≡ false

pub publish_header-Flags : (qos : ℕ) (dup : Bool) → qos < 4 → Flags (publish_header qos dup) qos dup
unfolding publish_header
publish_header-Flags zero true h = record {
  of_type = refl;
  of_qos = refl;
  of_dup = refl;
  of_retain = refl;
}
publish_header-Flags zero false h = record {
  of_type = refl;
  of_qos = refl;
  of_dup = refl;
  of_retain = refl;
}
publish_header-Flags (suc zero) true h = record {
  of_type = refl;
  of_qos = refl;
  of_dup = refl;
  of_retain = refl;
}
publish_header-Flags (suc zero) false h = record {
  of_type = refl;
  of_qos = refl;
  of_dup = refl;
  of_retain = refl;
}
publish_header-Flags (suc (suc zero)) true h = record {
  of_type = refl;
  of_qos = refl;
  of_dup = refl;
  of_retain = refl;
}
publish_header-Flags (suc (suc zero)) false h = record {
  of_type = refl;
  of_qos = refl;
  of_dup = refl;
  of_retain = refl;
}
publish_header-Flags (suc (suc (suc zero))) true h = record {
  of_type = refl;
  of_qos = refl;
  of_dup = refl;
  of_retain = refl;
}
publish_header-Flags (suc (suc (suc zero))) false h = record {
  of_type = refl;
  of_qos = refl;
  of_dup = refl;
  of_retain = refl;
}
publish_header-Flags (suc (suc (suc (suc q)))) dup h = absurd (omega arith)

-- The bytes of the packet identifier, and the identifier that is read: none and 0 at QoS 0.
abbrev pub id_bytes : ℕ → ℕ → Bytes
id_bytes qos pid = if ltb 0 qos then put_uint16 pid else []

abbrev pub sent_id : ℕ → ℕ → ℕ
sent_id qos pid = if ltb 0 qos then pid else 0

-- `parsePublish` behind the topic name.
read_packet_id-put :
    (pre : Bytes) (qos pid : ℕ) (post : Bytes) (pos : ℕ)
    → pos ≡ length pre
    → pid < 2 ^ 16
    → read_packet_id qos (pre ++ (id_bytes qos pid ++ post)) pos
      ≡ ok (sent_id qos pid, length (pre ++ id_bytes qos pid))
unfolding read_packet_id
read_packet_id-put pre zero pid post pos p h = rw (append-nil, p)
read_packet_id-put pre (suc q) pid post pos p h =
    rw
      (
        lt→ltb 0 (suc q) (omega arith),
        le→not_ltb (length (pre ++ (put_uint16 pid ++ post))) (pos + 2) fits,
      )
      (rw (be_uint16-behind pre pid post pos h p) (
        ap (λ (t : ℕ). ok (pid, t))
          (omega (arith, length-append pre (put_uint16 pid), length-put_uint16 pid))))
  where
    fits : pos + 2 ≤ length (pre ++ (put_uint16 pid ++ post))
    fits = rw (length-append, length-append) (omega (arith, length-put_uint16 pid))

abbrev pub sent : Bytes → Bytes → ℕ → ℕ → Bool → PublishPacket
sent topic payload qos pid dup = record {
  topic_name = topic;
  packet_id = sent_id qos pid;
  qos = qos;
  retain = false;
  dup = dup;
  payload = payload;
}

parse_publish-written :
    (flags : ℕ) (topic payload : Bytes) (qos pid : ℕ) (dup : Bool)
    → bit_and (flags / 2) 0x03 ≡ qos
    → has_bit flags 0x08 ≡ dup
    → has_bit flags 0x01 ≡ false
    → length topic < 2 ^ 16
    → pid < 2 ^ 16
    → parse_publish flags (encode_string topic ++ (id_bytes qos pid ++ payload))
      ≡ ok (sent topic payload qos pid dup)
unfolding parse_publish
parse_publish-written flags topic payload qos pid dup q d r ht hp =
    rw (q, d, r, read_string-encode_string [] topic (id_bytes qos pid ++ payload) 0 refl ht)
      (rw
        (read_packet_id-put (encode_string topic) qos pid payload (0 + 2 + length topic)
          (omega (arith, length-encode_string topic)) hp)
        (rw (← append_assoc (encode_string topic) (id_bytes qos pid) payload, drop-append)))

read_full-append : (xs ys : Bytes) → read_full (length xs) (xs ++ ys) ≡ ok (xs, ys)
unfolding read_full
read_full-append xs ys =
    rw (le→not_ltb (length (xs ++ ys)) (length xs) (omega (arith, length-append xs ys)))
      (rw (take-append, drop-append))

-- A packet whose length prefix is right is read as its body is parsed, and the rest is left.
pub read_packet-body :
    (header : ℕ) (body rest : Bytes) {pkt : Packet}
    → length body < 2 ^ 28
    → parse_body (header / 16) (bit_and header 0x0f) body ≡ ok pkt
    → read_packet (header ∷ (encode_remaining_length (length body) ++ (body ++ rest)))
      ≡ ok (pkt, rest)
unfolding read_packet
read_packet-body header body rest h e =
    rw (read_remaining_length-encode (length body) (body ++ rest) h)
      (rw (read_full-append body rest) (rw e))

-- The length of what `WritePublish` puts behind the length prefix.
abbrev pub publish_length : Bytes → Bytes → ℕ → ℕ
publish_length topic payload qos = 2 + length topic + (if ltb 0 qos then 2 else 0) + length payload

pub length-id_bytes : (qos pid : ℕ) → length (id_bytes qos pid) ≡ (if ltb 0 qos then 2 else 0)
length-id_bytes zero pid = refl
length-id_bytes (suc q) pid = rw (lt→ltb 0 (suc q) (omega arith)) (length-put_uint16 pid)

pub write_publish-body :
    (topic payload : Bytes) (qos pid : ℕ) (dup : Bool) (rest : Bytes)
    → (let body = encode_string topic ++ (id_bytes qos pid ++ payload) in
        write_publish topic payload qos pid dup ++ rest
        ≡ publish_header qos dup ∷ (encode_remaining_length (length body) ++ (body ++ rest)))
unfolding write_publish
write_publish-body topic payload qos pid dup rest = simp (append_assoc, length-append, add_assoc)

-- The reader returns the packet that the writer was given, and leaves what follows it: topics below
-- 65536 bytes, QoS below 4, and frames below the 2 ^ 28 bytes of the length prefix. The packet
-- identifier is not sent at QoS 0, and is read as 0.
pub read_packet-write_publish :
    (topic payload : Bytes) (qos pid : ℕ) (dup : Bool) (rest : Bytes)
    → length topic < 2 ^ 16
    → qos < 4
    → pid < 2 ^ 16
    → publish_length topic payload qos < 2 ^ 28
    → read_packet (write_publish topic payload qos pid dup ++ rest)
      ≡ ok (publish (sent topic payload qos pid dup), rest)
unfolding parse_body
read_packet-write_publish topic payload qos pid dup rest ht hq hp hl =
    rw (write_publish-body topic payload qos pid dup rest) (
      read_packet-body (publish_header qos dup)
        (encode_string topic ++ (id_bytes qos pid ++ payload)) rest
        (rw (length-append, length-append)
          (ground (arith, length-encode_string topic, length-id_bytes qos pid)))
        (parsed (publish_header-Flags qos dup hq)))
  where
    parsed :
        Flags (publish_header qos dup) qos dup
        → parse_body
            (publish_header qos dup / 16)
            (bit_and (publish_header qos dup) 0x0f)
            (encode_string topic ++ (id_bytes qos pid ++ payload))
          ≡ ok (publish (sent topic payload qos pid dup))
    parsed f = rw f.of_type (
        rw (
          parse_publish-written (bit_and (publish_header qos dup) 0x0f) topic payload qos pid dup
            f.of_qos f.of_dup f.of_retain ht hp))
