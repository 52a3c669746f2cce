-- ===== src/Client/Frames.antt =====
-- sdk/go/brokermq/client.go, `readPacketFlags` and `parsePublishBody`, against the PUBLISH that
-- core/transport/mqtt/packet.go writes.
use broker_message.Base.{
  ℕ, zero, suc, ◌+◌, ◌*◌, ◌/◌, ◌^◌, ◌≤◌, ◌<◌, bit_and, ◌≡◌, refl, sym, ◌&&◌, some, [], ◌∷◌, ◌++◌,
  arith, ltb, leb, if◌then◌else◌, length, length-append, append_assoc, drop, slice, slice-append,
  drop-append, take-append, Bytes, be_uint16, put_uint16, lt→ltb, le→leb, le→not_ltb, has_bit,
  Bool-cases, inl, inr, ok,
}
use broker_message.Packet.Read.{read_length_loop, read_remaining_length}
use broker_message.Packet.Write.{encode_string, encode_remaining_length}
use broker_message.Packet.Length.{read_remaining_length-encode}
use broker_message.Packet.Strings.{
  length-put_uint16, length-encode_string, be_uint16-behind, encode_string-append,
}
use broker_message.Packet.Publish.{id_bytes, sent_id}
use broker_message.Client.{read_remaining_loop, parse_publish_body}
use broker_message.Client as Sdk
use broker_message.Client.Connection.{Client, read_full, read_length, read_packet_flags}

-- The client reads every length that the broker reads.
read_remaining_loop-reads :
    (src : Bytes) (len shift : ℕ) {n : ℕ} {rest : Bytes}
    → read_length_loop src len shift ≡ ok (n, rest)
    → read_remaining_loop src len shift ≡ some (n, rest)
unfolding read_remaining_loop read_length_loop
read_remaining_loop-reads [] len shift h = cc
read_remaining_loop-reads (b ∷ src) len shift h = elim (Bool-cases (has_bit b 0x80)) [
  | inl more ↦ elim (Bool-cases (ltb 21 (shift + 7))) [
    | inl long ↦ cc (rw (more, long) at h)
    | inr short ↦ rw more (
        read_remaining_loop-reads src (len + bit_and b 0x7f * 2 ^ shift) (shift + 7)
          (rw (more, short) at h))
  ]
  | inr last ↦ let same = rw last at h in rw last (cc)
]

read_remaining_length-reads :
    (src : Bytes) {n : ℕ} {rest : Bytes}
    → read_remaining_length src ≡ ok (n, rest)
    → Sdk.read_remaining_length src ≡ some (n, rest)
unfolding read_remaining_length Sdk.read_remaining_length
read_remaining_length-reads src h = read_remaining_loop-reads src 0 0 h

pub read_full-append :
    (xs ys : Bytes) (c : Client)
    → c.input ≡ xs ++ ys
    → read_full (length xs) c ≡ (record c { input = ys }, ok xs)
unfolding read_full
read_full-append xs ys c h =
    rw (h, le→not_ltb (length (xs ++ ys)) (length xs) (omega (arith, length-append xs ys)))
      (rw (take-append, drop-append))

-- A packet with the length prefix that the broker writes.
pub read_packet_flags-body :
    (header : ℕ) (body rest : Bytes) (c : Client)
    → c.input ≡ header ∷ (encode_remaining_length (length body) ++ (body ++ rest))
    → length body < 2 ^ 28
    → read_packet_flags c ≡ (record c { input = rest }, ok (header / 16, bit_and header 0x0f, body))
unfolding read_packet_flags read_length
read_packet_flags-body header body rest c h small =
    let prefix = encode_remaining_length (length body) in
    let prefixed : Sdk.read_remaining_length (prefix ++ (body ++ rest))
        ≡ some (length body, body ++ rest) =
      read_remaining_length-reads (prefix ++ (body ++ rest))
        (read_remaining_length-encode (length body) (body ++ rest) small) in
    rw (read_full-append (header ∷ []) (prefix ++ (body ++ rest)) c h)
      (rw prefixed (rw (read_full-append body rest (record c { input = body ++ rest }) refl) refl))

parse_publish_body-topic :
    (topic tail : Bytes) (qos : ℕ)
    → length topic < 2 ^ 16
    → (let body = encode_string topic ++ tail in
        let pos = 2 + length topic in
        parse_publish_body body qos ≡ (
          if ltb 0 qos && leb (pos + 2) (length body)
          then (topic, drop (pos + 2) body, be_uint16 (slice body pos (pos + 2)))
          else (topic, drop pos body, 0)))
unfolding parse_publish_body
parse_publish_body-topic topic tail qos ht =
    let body = encode_string topic ++ tail in
    let size : length body ≡ 2 + length topic + length tail =
      omega (arith, length-append (encode_string topic) tail, length-encode_string topic) in
    let len : be_uint16 (slice body 0 2) ≡ length topic =
      rw (encode_string-append topic tail)
        (be_uint16-behind [] (length topic) (topic ++ tail) 0 ht refl) in
    let name : slice body 2 (2 + length topic) ≡ topic = rw (encode_string-append topic tail) (
      slice-append (put_uint16 (length topic)) topic tail 2 (2 + length topic)
        (omega (arith, length-put_uint16 (length topic))) refl) in
    rw
      (
        len,
        le→not_ltb (length body) 2 (omega arith),
        le→not_ltb (length body) (2 + length topic) (omega arith),
        name,
      )
      refl

-- `parsePublishBody` of the topic, the packet identifier and the payload, one after the other.
pub parse_publish_body-written :
    (topic wire : Bytes) (qos pid : ℕ)
    → length topic < 2 ^ 16
    → pid < 2 ^ 16
    → parse_publish_body (encode_string topic ++ (id_bytes qos pid ++ wire)) qos
      ≡ (topic, wire, sent_id qos pid)
parse_publish_body-written topic wire zero pid ht hp =
    let behind : drop (2 + length topic) (encode_string topic ++ wire) ≡ wire =
      rw (← length-encode_string topic) (drop-append (encode_string topic) wire) in
    rw (parse_publish_body-topic topic wire zero ht, behind) refl
parse_publish_body-written topic wire (suc q) pid ht hp =
    let tail = put_uint16 pid ++ wire in
    let pos = 2 + length topic in
    let front = encode_string topic ++ put_uint16 pid in
    let len : length front ≡ pos + 2 = omega (
      arith,
      length-append (encode_string topic) (put_uint16 pid),
      length-encode_string topic,
      length-put_uint16 pid,
    ) in
    let all : encode_string topic ++ tail ≡ front ++ wire =
      sym (append_assoc (encode_string topic) (put_uint16 pid) wire) in
    let fits : pos + 2 ≤ length (encode_string topic ++ tail) =
      rw all (omega (arith, length-append front wire, len)) in
    let id : be_uint16 (slice (encode_string topic ++ tail) pos (pos + 2)) ≡ pid =
      be_uint16-behind (encode_string topic) pid wire pos hp
        (omega (arith, length-encode_string topic)) in
    let behind : drop (pos + 2) (encode_string topic ++ tail) ≡ wire =
      rw (all, ← len) (drop-append front wire) in
    rw
      (
        lt→ltb 0 (suc q) (omega arith),
        parse_publish_body-topic topic tail (suc q) ht,
        lt→ltb 0 (suc q) (omega arith),
        le→leb (pos + 2) (length (encode_string topic ++ tail)) fits,
        id,
        behind,
      )
      refl
