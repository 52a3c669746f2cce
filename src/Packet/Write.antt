-- ===== src/Packet/Write.antt =====
-- core/transport/mqtt/packet.go, the `Write…` functions: the bytes that one call of `w.Write` gets.
use broker_message.Base.{
  ℕ, zero, suc, ◌+◌, ◌*◌, ◌/◌, ◌%◌, bit_or, Bool, [], ◌∷◌, ◌++◌, ltb, if◌then◌else◌, length, Bytes,
  put_uint16,
}
use broker_message.Packet.{
  type_conn_ack, type_publish, type_pub_ack, type_sub_ack, type_unsub_ack, type_ping_resp,
}

-- The loop of `encodeRemainingLength`. `byte(length & 0x7F)` is the remainder by 128.
unfoldable pub encode_length_loop : ℕ → ℕ → Bytes
encode_length_loop zero len = []
encode_length_loop (suc fuel) len =
    let rest = encode_length_loop fuel (len / 128) in
    if ltb 0 (len / 128) then bit_or (len % 128) 0x80 ∷ rest else (len % 128) ∷ []

-- A Go `int` that is not negative is below 2 ^ 63, and has nine groups of seven bits at most.
unfoldable pub encode_remaining_length : ℕ → Bytes
encode_remaining_length len = encode_length_loop 9 len

unfoldable pub encode_string : Bytes → Bytes
encode_string s = put_uint16 (length s) ++ s

unfoldable pub write_conn_ack : Bool → ℕ → Bytes
write_conn_ack session_present return_code =
    (type_conn_ack * 16) ∷ 0x02 ∷ (if session_present then 1 else 0) ∷ return_code ∷ []

-- `(TypePublish << 4) | flags`, for the flags that QoS and DUP make
unfoldable pub publish_header : ℕ → Bool → ℕ
publish_header qos dup =
    let flags = qos * 2 % 256 in
    bit_or (type_publish * 16) (if dup then bit_or flags 0x08 else flags)

unfoldable pub write_publish : Bytes → Bytes → ℕ → ℕ → Bool → Bytes
write_publish topic_name payload qos packet_id dup =
    let var_header = encode_string topic_name ++ (if ltb 0 qos then put_uint16 packet_id else []) in
    publish_header qos dup
    ∷ (encode_remaining_length (length var_header + length payload) ++ (var_header ++ payload))

unfoldable pub write_pub_ack : ℕ → Bytes
write_pub_ack packet_id = (type_pub_ack * 16) ∷ 0x02 ∷ put_uint16 packet_id

unfoldable pub write_sub_ack : ℕ → Bytes → Bytes
write_sub_ack packet_id return_codes =
    let body = put_uint16 packet_id ++ return_codes in
    (type_sub_ack * 16) ∷ (encode_remaining_length (length body) ++ body)

unfoldable pub write_unsub_ack : ℕ → Bytes
write_unsub_ack packet_id = (type_unsub_ack * 16) ∷ 0x02 ∷ put_uint16 packet_id

unfoldable pub write_ping_resp : Bytes
write_ping_resp = (type_ping_resp * 16) ∷ 0x00 ∷ []
