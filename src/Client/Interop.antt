-- ===== src/Client/Interop.antt =====
-- sdk/go/brokermq/client.go against core/transport/mqtt/packet.go: what the client writes, the broker
-- reads, and what the broker writes, the client reads.
use broker_message.Base.{
  ℕ, zero, suc, ◌+◌, ◌/◌, ◌^◌, ◌<◌, ◌≡◌, refl, Bool, true, false, [], ◌∷◌, ◌++◌, arith,
  if◌then◌else◌, length, length-append, append_assoc, append-nil, slice, get_or, has_bit, Bytes,
  bytes_eq, bytes_eq_refl, put_uint16, be_uint16, le→not_ltb, lt→not_leb, ok,
}
use broker_message.Packet.{ConnectPacket, publish}
use broker_message.Packet.Read.{read_packet, parse_connect, read_string, read_string_if, mqtt_name}
use broker_message.Packet.Write
use broker_message.Packet.Write.{encode_string, encode_length_loop, encode_remaining_length}
use broker_message.Packet.Strings.{length-encode_string, read_string-encode_string}
use broker_message.Packet.Publish.{sent, publish_length, read_packet-write_publish}
use broker_message.Client
use broker_message.Client.{
  Options, encode_remaining_loop, encode_remaining, prefixed, connect_flags, prefixed_if_set,
  connect_body, connect_packet, subscribe_packet, parse_publish_body,
}

encode_remaining_loop-eq : (fuel n : ℕ) → encode_remaining_loop fuel n ≡ encode_length_loop fuel n
unfolding encode_remaining_loop encode_length_loop
encode_remaining_loop-eq zero n = refl
encode_remaining_loop-eq (suc fuel) n = rw (encode_remaining_loop-eq fuel (n / 128)) refl

pub encode_remaining-eq : (n : ℕ) → encode_remaining n ≡ encode_remaining_length n
unfolding encode_remaining encode_remaining_length
encode_remaining-eq n = encode_remaining_loop-eq 9 n

publish_header-eq :
    (qos : ℕ) (dup : Bool) → qos < 4 → Client.publish_header qos dup ≡ Write.publish_header qos dup
unfolding Client.publish_header Write.publish_header
publish_header-eq zero dup h = refl
publish_header-eq (suc zero) dup h = refl
publish_header-eq (suc (suc zero)) dup h = refl
publish_header-eq (suc (suc (suc zero))) dup h = refl
publish_header-eq (suc (suc (suc (suc q)))) dup h = absurd (omega arith)

-- The client and the broker write a PUBLISH alike, for QoS below 4.
client_publish-eq :
    (topic payload : Bytes) (qos pid : ℕ) (dup : Bool)
    → qos < 4
    → Client.write_publish topic payload qos pid dup ≡ Write.write_publish topic payload qos pid dup
unfolding Client.write_publish Write.write_publish prefixed encode_string
client_publish-eq topic payload qos pid dup h =
    rw (publish_header-eq qos dup h, encode_remaining-eq) refl

-- The broker reads a PUBLISH of the client as what the client was asked to send, and leaves what
-- follows it.
pub read_packet-client_publish :
    (topic payload : Bytes) (qos pid : ℕ) (dup : Bool) (rest : Bytes)
    → length topic < 2 ^ 16
    → qos < 4
    → pid < 2 ^ 16
    → publish_length topic payload qos < 2 ^ 28
    → read_packet (Client.write_publish topic payload qos pid dup ++ rest)
      ≡ ok (publish (sent topic payload qos pid dup), rest)
read_packet-client_publish topic payload qos pid dup rest ht hq hp hl =
    rw (client_publish-eq topic payload qos pid dup hq)
      (read_packet-write_publish topic payload qos pid dup rest ht hq hp hl)

-- What the client fields of a CONNECT are read as: without a user name the password is not announced.
abbrev pub connect_of : Options → ConnectPacket
connect_of o = record {
  client_id = o.client_id;
  username = o.username;
  password = if bytes_eq o.username [] then [] else o.password;
  clean_session = true;
  keep_alive = 60;
}

-- The name and the level of the protocol, the flags and the keep-alive stand in ten bytes.
abbrev start : ℕ → Bytes
start flags = (0 ∷ 4 ∷ mqtt_name) ++ (4 ∷ flags ∷ 0 ∷ 60 ∷ [])

flag_byte : (flags : ℕ) (post : Bytes) → get_or (start flags ++ post) (6 + 1) 0 ≡ flags
flag_byte flags post = refl

keep_alive_byte :
    (flags : ℕ) (post : Bytes) → be_uint16 (slice (start flags ++ post) (6 + 2) (6 + 2 + 2)) ≡ 60
unfolding be_uint16
keep_alive_byte flags post = refl

read_string_if-false : (body : Bytes) (pos : ℕ) → read_string_if false body pos ≡ ok ([], pos)
unfolding read_string_if
read_string_if-false body pos = refl

parse_connect-parts :
    (flags : ℕ) (cid post : Bytes) {username password : Bytes} {p₄ p₅ : ℕ}
    → length cid < 2 ^ 16
    → has_bit flags 0x04 ≡ false
    → has_bit flags 0x02 ≡ true
    → read_string_if
        (has_bit flags 0x80)
        (start flags ++ (encode_string cid ++ post))
        (10 + 2 + length cid)
      ≡ ok (username, p₄)
    → read_string_if (has_bit flags 0x40) (start flags ++ (encode_string cid ++ post)) p₄
      ≡ ok (password, p₅)
    → parse_connect (start flags ++ (encode_string cid ++ post))
      ≡ ok (record {
        client_id = cid;
        username = username;
        password = password;
        clean_session = true;
        keep_alive = 60;
      })
unfolding parse_connect
parse_connect-parts flags cid post h will clean user pass =
    let body = start flags ++ (encode_string cid ++ post) in
    let size : length body ≡ 12 + length cid + length post = omega (
      arith,
      length-append (start flags) (encode_string cid ++ post),
      length-append (encode_string cid) post,
      length-encode_string cid,
    ) in
    let name : read_string body 0 ≡ ok (mqtt_name, 6) =
      unfold encode_string put_uint16 in
      read_string-encode_string [] mqtt_name (4 ∷ flags ∷ 0 ∷ 60 ∷ (encode_string cid ++ post)) 0
        refl (omega arith) in
    let client = read_string-encode_string (start flags) cid post 10 refl h in
    rw
      (
        name,
        lt→not_leb (length body) 6 (omega arith),
        lt→not_leb (length body) 7 (omega arith),
        le→not_ltb (length body) 10 (omega arith),
        client,
        flag_byte flags (encode_string cid ++ post),
        will,
        read_string_if-false,
        read_string_if-false,
        user,
        pass,
        clean,
        keep_alive_byte flags (encode_string cid ++ post),
        bytes_eq_refl mqtt_name,
      )
      refl

-- `n` strings behind the fixed part of a CONNECT.
second_string :
    (flags : ℕ) (cid s post : Bytes)
    → length cid < 2 ^ 16
    → length s < 2 ^ 16
    → read_string
        (start flags ++ (encode_string cid ++ (encode_string s ++ post)))
        (10 + 2 + length cid)
      ≡ ok (s, 10 + 2 + length cid + 2 + length s)
second_string flags cid s post h k =
    rw (← append_assoc (start flags) (encode_string cid) (encode_string s ++ post)) (
      read_string-encode_string (start flags ++ encode_string cid) s post (10 + 2 + length cid)
        (omega (arith, length-append (start flags) (encode_string cid), length-encode_string cid))
        k)

third_string :
    (flags : ℕ) (cid user s : Bytes)
    → length s < 2 ^ 16
    → read_string
        (start flags ++ (encode_string cid ++ (encode_string user ++ encode_string s)))
        (10 + 2 + length cid + 2 + length user)
      ≡ ok (s, 10 + 2 + length cid + 2 + length user + 2 + length s)
third_string flags cid user s k =
    let front = start flags ++ (encode_string cid ++ encode_string user) in
    rw
      (
        ← append_assoc (encode_string cid) (encode_string user) (encode_string s),
        ← append_assoc (start flags) (encode_string cid ++ encode_string user) (encode_string s),
        ← append-nil (encode_string s),
      )
      (read_string-encode_string front s [] (10 + 2 + length cid + 2 + length user)
        (omega (
          arith,
          length-append (start flags) (encode_string cid ++ encode_string user),
          length-append (encode_string cid) (encode_string user),
          length-encode_string cid,
          length-encode_string user,
        ))
        k)

-- The three shapes of the body: no user name, a user name alone, and both.
abbrev with_login : Options → Bytes → Bytes → Options
with_login o user pass = record o { username = user; password = pass }

body_anonymous :
    (o : Options) (pass : Bytes)
    → connect_body (with_login o [] pass)
      ≡ start 0x02 ++ (encode_string o.client_id ++ ([] ++ prefixed_if_set pass))
unfolding connect_body connect_flags prefixed prefixed_if_set encode_string bytes_eq
body_anonymous o pass = refl

body_named :
    (o : Options) (c : ℕ) (user : Bytes)
    → connect_body (with_login o (c ∷ user) [])
      ≡ start 0x82 ++ (encode_string o.client_id ++ (encode_string (c ∷ user) ++ []))
unfolding connect_body connect_flags prefixed prefixed_if_set encode_string bytes_eq
body_named o c user = refl

body_login :
    (o : Options) (c d : ℕ) (user pass : Bytes)
    → connect_body (with_login o (c ∷ user) (d ∷ pass))
      ≡ start 0xc2
        ++ (encode_string o.client_id ++ (encode_string (c ∷ user) ++ encode_string (d ∷ pass)))
unfolding connect_body connect_flags prefixed prefixed_if_set encode_string bytes_eq
body_login o c d user pass = refl

read_login :
    (o : Options) (user pass : Bytes)
    → length o.client_id < 2 ^ 16
    → length user < 2 ^ 16
    → length pass < 2 ^ 16
    → parse_connect (connect_body (with_login o user pass))
      ≡ ok (connect_of (with_login o user pass))
unfolding bytes_eq read_string_if
read_login o [] pass hc hu hp =
    rw (body_anonymous o pass)
      (parse_connect-parts 0x02 o.client_id ([] ++ prefixed_if_set pass) hc refl refl refl refl)
read_login o (c ∷ user) [] hc hu hp = rw (body_named o c user) (
    parse_connect-parts 0x82 o.client_id (encode_string (c ∷ user) ++ []) hc refl refl
      (second_string 0x82 o.client_id (c ∷ user) [] hc hu) refl)
read_login o (c ∷ user) (d ∷ pass) hc hu hp = rw (body_login o c d user pass) (
    parse_connect-parts 0xc2 o.client_id (encode_string (c ∷ user) ++ encode_string (d ∷ pass)) hc
      refl refl (second_string 0xc2 o.client_id (c ∷ user) (encode_string (d ∷ pass)) hc hu)
      (third_string 0xc2 o.client_id (c ∷ user) (d ∷ pass) hp))

-- The broker reads the CONNECT of the client as the client's options, for strings below 65536 bytes:
-- a clean session with a keep-alive of 60 seconds, whatever the options say. A password without a
-- user name is not read.
pub parse_connect-connect_body :
    (o : Options)
    → length o.client_id < 2 ^ 16
    → length o.username < 2 ^ 16
    → length o.password < 2 ^ 16
    → parse_connect (connect_body o) ≡ ok (connect_of o)
parse_connect-connect_body o hc hu hp = read_login o o.username o.password hc hu hp
