-- ===== src/Client/Connection.antt =====
-- sdk/go/brokermq: the connection of a client. options.go has what changes the options, client.go the
-- calls of a client that read and write, and the loop of `Subscribe`.
use broker_message.Base.{
  ℕ, zero, suc, ◌/◌, Bool, true, false, Option, some, none, List, [], ◌∷◌, ◌++◌, bit_and, ltb, ◌==◌,
  if◌then◌else◌, length, get_or, take, drop, Bytes, Result, ok, err,
}
use broker_message.Exec.{Exec, pure, raise, reads, ◌>>=◌, ◌>>◌}
use broker_message.Session.{Conn, write_conn}
use broker_message.Client.{
  Options, SeenCache, Message, new_seen_cache, default_options, connect_packet, subscribe_packet,
  pub_ack_packet, read_remaining_length, deliver, first_pid, publish as publish_frame,
}

-- `Option`: a function that changes the options.
abbrev pub Setting : Type 0
Setting = Options → Options

abbrev pub with_client_id : Bytes → Setting
with_client_id id o = record o { client_id = id }

abbrev pub with_credentials : Bytes → Bytes → Setting
with_credentials user pass o = record o { username = user; password = pass }

abbrev pub with_qos : ℕ → Setting
with_qos qos o = record o { qos = qos }

abbrev pub with_idempotency_key : Bytes → Setting
with_idempotency_key id o = record o { idempotency_id = id }

abbrev pub with_seen_cache_size : ℕ → Setting
with_seen_cache_size n o = record o { seen_cache_size = n }

-- `for _, fn := range opts { fn(&o) }`
unfoldable pub apply_settings : List Setting → Options → Options
apply_settings [] o = o
apply_settings (fn ∷ settings) o = apply_settings settings (fn o)

-- `input` is all that the broker sends from here on; where it ends, reading returns an error.
pub record Client : Type 0 where
  pub opts : Options
  pub conn : Conn
  pub input : Bytes
  pub seen : SeenCache
  pub next_pid : ℕ

pub data ClientError : Type 0 where
  write_failed : ClientError
  end_of_input : ClientError
  connack_refused : ℕ → ClientError

abbrev pub Call : Type 0 → Type 0
Call A = Exec Client ClientError A

-- `c.conn.Write(pkt)`
unfoldable pub write : Bytes → Call (Unit {0})
write frame c =
    let (conn, done) = write_conn frame c.conn in
    (record c { conn = conn }, if done then ok tt else err write_failed)

-- `readFull` of `n` bytes: all of them, or an error, with what there was of them read.
unfoldable pub read_full : ℕ → Call Bytes
read_full n c =
    if ltb (length c.input) n
    then (record c { input = [] }, err end_of_input)
    else (record c { input = drop n c.input }, ok (take n c.input))

length_read : Option (ℕ × Bytes) → Call ℕ
length_read none c = (record c { input = [] }, err end_of_input)
length_read (some (n, rest)) c = (record c { input = rest }, ok n)

-- `readRemainingLength(c.reader)`
unfoldable pub read_length : Call ℕ
unfolding length_read
read_length c = length_read (read_remaining_length c.input) c

-- `connectMQTT`: any four bytes are taken for the CONNACK, and the last of them is its code.
unfoldable pub connect_mqtt : Call (Unit {0})
unfolding write read_full
connect_mqtt = do
  opts ← reads (λ (c : Client). c.opts)
  write (connect_packet opts)
  buf ← read_full 4
  if get_or buf 3 0 == 0 then pure tt else raise (connack_refused (get_or buf 3 0))

-- `Connect`, once the connection `conn` is there, with what the broker will send on it.
unfoldable pub connect : List Setting → Conn → Bytes → Client × Result ClientError (Unit {0})
unfolding connect_mqtt apply_settings
connect settings conn input =
    let o = apply_settings settings default_options in
    connect_mqtt (record {
      opts = o;
      conn = conn;
      input = input;
      seen = new_seen_cache o.seen_cache_size;
      next_pid = first_pid;
    })

-- `Publish`; `fresh` is what `uuid.NewV7()` returns, and `now` the time. The packet id is used up
-- whether the frame is written or not.
unfoldable pub publish : Bytes → ℕ → List Setting → Bytes → Bytes → Call (Unit {0})
unfolding write apply_settings
publish fresh now settings topic payload c =
    let (frame, pid) =
      publish_frame fresh now (apply_settings settings c.opts) c.next_pid topic payload in
    write frame (record c { next_pid = pid })

-- `readPacketFlags`: the type, the flags and the body of a packet.
unfoldable pub read_packet_flags : Call (ℕ × ℕ × Bytes)
unfolding read_full read_length
read_packet_flags = do
  h ← read_full 1
  rem ← read_length
  body ← read_full rem
  pure (get_or h 0 0 / 16, bit_and (get_or h 0 0) 0x0f, body)

-- The part of `Subscribe` before its goroutine: whatever comes first is taken for the SUBACK.
unfoldable pub subscribe : Bytes → Call (Unit {0})
unfolding write read_packet_flags
subscribe topic_filter = do
  opts ← reads (λ (c : Client). c.opts)
  write (subscribe_packet topic_filter opts.qos)
  _ ← read_packet_flags
  pure tt

-- `if pid > 0 { _ = c.sendPubAck(pid) }`: an error of the write is dropped.
unfoldable pub acknowledge : Option ℕ → Client → Client
unfolding write
acknowledge none c = c
acknowledge (some pid) c = (write (pub_ack_packet pid) c).0

-- A PUBLISH in the loop of `Subscribe`: the messages that the handler gets, one or none.
unfoldable pub take_delivery :
    SeenCache × Option Message × Option ℕ → Client → Client × List Message
unfolding acknowledge
take_delivery (cache, none, pid) c = (acknowledge pid (record c { seen = cache }), [])
take_delivery (cache, some m, pid) c = (acknowledge pid (record c { seen = cache }), m ∷ [])

-- A packet in the loop; one that is no PUBLISH is skipped.
unfoldable pub take_packet : ℕ × ℕ × Bytes → Client → Client × List Message
unfolding take_delivery
take_packet (pkt_type, flags, body) c =
    if pkt_type == 3
    then take_delivery (deliver body (bit_and (flags / 2) 0x03) c.seen) c
    else (c, [])

-- One round of the loop, and whether it goes on.
unfoldable pub round : Client × Result ClientError (ℕ × ℕ × Bytes) → Client × List Message × Bool
unfolding take_packet
round (c, err e) = (c, [], false)
round (c, ok pkt) = let (c', msgs) = take_packet pkt c in (c', msgs, true)

-- The goroutine of `Subscribe`, with the number of rounds before `ctx` is done: what the handler has
-- got, in its order.
unfoldable pub receive_loop : ℕ → Client → Client × List Message
unfolding round read_packet_flags
receive_loop zero c = (c, [])
receive_loop (suc rounds) c =
    let (c₁, msgs, more) = round (read_packet_flags c) in
    let (c₂, later) = receive_loop rounds c₁ in if more then (c₂, msgs ++ later) else (c₁, msgs)
