-- ===== src/Tests/Frames.antt =====
-- core/transport/mqtt/packet.go on concrete frames.
use broker_message.Base.{
  ◌+◌, ◌≤◌, ◌≡◌, ◌≢◌, refl, true, List, [], ◌∷◌, ◌++◌, arith, Bytes, put_uint16, be_uint16, ok, err,
}
use broker_message.Packet.{TopicFilter, publish, pub_ack, out_of_fuel}
use broker_message.Packet.Read.{
  read_packet, read_remaining_length, read_length_loop, read_full, read_string, parse_body,
  parse_subscribe,
}
use broker_message.Packet.Write.{write_publish}
use broker_message.Packet.Publish.{sent, read_packet-write_publish}
use broker_message.Packet.Framing.{read_packet-more}
use broker_message.Packet.Total.{read_packet-Ends}
use broker_message.Packet.Subscribe.{filters_layout, parse_subscribe-layout}

abbrev topic : Bytes
topic = b'a' ∷ b'/' ∷ b'b' ∷ []

abbrev payload : Bytes
payload = 1 ∷ 2 ∷ 3 ∷ []

read_packet-write_publish_example :
    read_packet (write_publish topic payload 1 7 true ++ (0xc0 ∷ []))
    ≡ ok (publish (sent topic payload 1 7 true), 0xc0 ∷ [])
read_packet-write_publish_example =
    read_packet-write_publish topic payload 1 7 true (0xc0 ∷ []) (omega arith) (omega arith)
      (omega arith) (omega arith)

-- A PUBACK of packet 7.
abbrev ack : Bytes
ack = 0x40 ∷ 2 ∷ 0 ∷ 7 ∷ []

ack_read : read_packet ack ≡ ok (pub_ack 7, [])
unfolding read_packet read_remaining_length read_length_loop read_full parse_body be_uint16
ack_read = refl

read_packet-more_example :
    (read_packet (ack ++ (0xc0 ∷ 0 ∷ [])) ≡ ok (pub_ack 7, 0xc0 ∷ 0 ∷ [])) × (0 + 2 ≤ 4)
read_packet-more_example = read_packet-more ack (0xc0 ∷ 0 ∷ []) (pub_ack 7) [] ack_read

read_packet-Ends_example : read_packet (0x30 ∷ 0xff ∷ []) ≢ err out_of_fuel
read_packet-Ends_example = read_packet-Ends (0x30 ∷ 0xff ∷ [])

abbrev named : Bytes
named = 0 ∷ 3 ∷ b'a' ∷ b'/' ∷ b'b' ∷ 9 ∷ []

named_read : read_string named 0 ≡ ok (topic, 5)
unfolding read_string be_uint16
named_read = refl

abbrev filters : List TopicFilter
filters = record { filter = topic; qos = 1 } ∷ record { filter = payload; qos = 0 } ∷ []

parse_subscribe-layout_example :
    parse_subscribe (put_uint16 5 ++ filters_layout filters)
    ≡ ok (record { packet_id = 5; topics = filters })
parse_subscribe-layout_example =
    parse_subscribe-layout 5 filters (omega arith)
      ((omega arith, omega arith), ((omega arith, omega arith), tt))
