-- ===== src/Packet.antt =====
-- core/transport/mqtt/packet.go: the packets of MQTT 3.1.1 as far as the broker knows them, in
-- memory. A byte is a number below 256, and a string is its bytes.
pub mod Read
pub mod Write
pub mod Length
pub mod Strings
pub mod Publish
pub mod Framing
pub mod Subscribe
pub mod Total
use broker_message.Base.{ℕ, Bool, List, Bytes}

-- The packet types, the high half of the first byte.
abbrev pub type_connect : ℕ
type_connect = 1

abbrev pub type_conn_ack : ℕ
type_conn_ack = 2

abbrev pub type_publish : ℕ
type_publish = 3

abbrev pub type_pub_ack : ℕ
type_pub_ack = 4

abbrev pub type_subscribe : ℕ
type_subscribe = 8

abbrev pub type_sub_ack : ℕ
type_sub_ack = 9

abbrev pub type_unsubscribe : ℕ
type_unsubscribe = 10

abbrev pub type_unsub_ack : ℕ
type_unsub_ack = 11

abbrev pub type_ping_req : ℕ
type_ping_req = 12

abbrev pub type_ping_resp : ℕ
type_ping_resp = 13

abbrev pub type_disconnect : ℕ
type_disconnect = 14

-- The return codes of a CONNACK.
abbrev pub conn_accepted : ℕ
conn_accepted = 0

abbrev pub conn_refused_bad_protocol : ℕ
conn_refused_bad_protocol = 1

abbrev pub conn_refused_id_rejected : ℕ
conn_refused_id_rejected = 2

abbrev pub conn_refused_unavailable : ℕ
conn_refused_unavailable = 3

abbrev pub conn_refused_bad_credentials : ℕ
conn_refused_bad_credentials = 4

abbrev pub conn_refused_not_authorised : ℕ
conn_refused_not_authorised = 5

pub record ConnectPacket : Type 0 where
  pub client_id : Bytes
  pub username : Bytes
  pub password : Bytes
  pub clean_session : Bool
  pub keep_alive : ℕ

pub record PublishPacket : Type 0 where
  pub topic_name : Bytes
  pub packet_id : ℕ
  pub qos : ℕ
  pub retain : Bool
  pub dup : Bool
  pub payload : Bytes

pub record TopicFilter : Type 0 where
  pub filter : Bytes
  pub qos : ℕ

pub record SubscribePacket : Type 0 where
  pub packet_id : ℕ
  pub topics : List TopicFilter

pub record UnsubscribePacket : Type 0 where
  pub packet_id : ℕ
  pub topics : List Bytes

-- `PubAckPacket` holds the packet id alone. `Packet` has a type and one pointer for each type with
-- a body, of which `ReadPacket` sets the one that belongs to the type.
pub data Packet : Type 0 where
  connect : ConnectPacket → Packet
  publish : PublishPacket → Packet
  pub_ack : ℕ → Packet
  subscribe : SubscribePacket → Packet
  unsubscribe : UnsubscribePacket → Packet
  ping_req : Packet
  disconnect : Packet

-- The errors, without the text that `errors.Wrap` puts in front. `out_of_fuel` is no error of the
-- program: it marks a loop of the model that was given too few rounds.
pub data Fault : Type 0 where
  end_of_input : Fault
  length_overflow : Fault
  missing_prefix : Fault
  short_string : Fault
  bad_protocol_name : Fault
  missing_level : Fault
  missing_flags : Fault
  missing_keep_alive : Fault
  missing_packet_id : Fault
  short_body : Fault
  missing_qos : Fault
  unknown_type : ℕ → Fault
  out_of_fuel : Fault
