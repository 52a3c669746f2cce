-- ===== src/Session/Deliver.antt =====
-- core/transport/mqtt/session.go: `deliverMessage`, and what the goroutine of a subscription does
-- with one message of its channel.
use broker_message.Base.{
  ℕ, false, Option, some, none, leb, ◌==◌, if◌then◌else◌, length, Bytes, insert, bytes_key, nat_key,
  Result, ok, err,
}
use broker_message.Exec.{modify, ◌>>=◌, ◌>>◌}
use broker_message.Envelope
use broker_message.Storage.{Badger}
use broker_message.Offsets
use broker_message.Topic.{Topic, Message}
use broker_message.Registry
use broker_message.Packet.Write.{write_publish}
use broker_message.Session.{
  Handler, State, Session, Reader, Env, InflightMsg, SessionError, Metric, count, write,
  alloc_packet_id, never_returns, inflight_inc, deliver_total, good, failed,
}

-- `m.RawWire`, or an envelope made anew where that is empty
unfoldable pub wire_of : Bytes → ℕ → Message → Bytes
wire_of fresh now m =
    if length m.raw_wire == 0
    then Envelope.encode (
        Envelope.with_server_msg_id m.server_msg_id
          (Envelope.new_publish fresh now m.idempotency_id m.payload))
    else m.raw_wire

module _ {Db : Type 0} ⦃b : Badger Db⦄ where
  unfoldable pub set_topic_offset : Bytes → Bytes → ℕ → Option (Topic Db) → State Db → State Db
  set_topic_offset name client_id seq none st = st
  set_topic_offset name client_id seq (some t) st =
      let (offs, db) = Offsets.set t.offsets t.db client_id seq in
      record st {
        broker = record st.broker {
          registry =
              Registry.put_topic name (record t { offsets = offs; db = db }) st.broker.registry;
        };
      }

  -- `t.Offsets().Set(s.clientID, seq)` for the topic under `name`
  unfoldable pub set_offset : Bytes → ℕ → State Db → State Db
  unfolding set_topic_offset
  set_offset name seq st =
      set_topic_offset name st.session.client_id seq (Registry.get st.broker.registry name) st

  -- `err := s.write(…); if err != nil { <failed>; return err }; <written>`
  unfoldable pub write_counted :
      Bytes → Metric → Metric → State Db → State Db × Result SessionError (Unit {0})
  write_counted frame on_error on_success st =
      let (st', r) = write frame st in
      elim r [ ok _ ↦ (count on_success st', ok tt) | err e ↦ (count on_error st', err e) ]

  unfoldable pub take_packet_id : State Db → Option (ℕ × Session) → State Db × Result SessionError ℕ
  take_packet_id st none = (st, err never_returns)
  take_packet_id st (some found) = (record st { session = found.1 }, ok found.0)

  unfoldable pub allocate : Handler Db ℕ
  unfolding take_packet_id
  allocate st = take_packet_id st (alloc_packet_id st.session)

  unfoldable pub keep_inflight : ℕ → InflightMsg → State Db → State Db
  keep_inflight pid m st =
      count inflight_inc
        (record st { session = record st.session { inflight = insert pid m st.session.inflight } })

  unfoldable pub deliver_qos1 : Env Db → Bytes → Message → Handler Db (Unit {0})
  deliver_qos1 env topic m = do
    let wire = wire_of env.fresh_idempotency env.now m
    pid ← allocate
    modify (
        keep_inflight pid (record {
          topic_name = m.topic;
          seq = m.seq;
          wire = wire;
          qos = 1;
          sent_at = env.now;
          topic_ref = topic;
        }))
    write_counted (write_publish m.topic wire 1 pid false) (deliver_total topic 1 failed)
        (deliver_total topic 1 good)

  unfoldable pub deliver_qos0 : Env Db → Bytes → Message → Handler Db (Unit {0})
  deliver_qos0 env topic m = do
    let wire = wire_of env.fresh_idempotency env.now m
    write_counted (write_publish m.topic wire 0 0 false) (deliver_total topic 0 failed)
        (deliver_total topic 0 good)
    modify (set_offset topic m.seq)

  -- `topic` is both the topic and `topicFn`: a subscription names the topic by its filter.
  unfoldable pub deliver_message : Env Db → Bytes → Message → ℕ → Handler Db (Unit {0})
  unfolding deliver_qos1 deliver_qos0
  deliver_message env topic m qos =
      if qos == 1 then deliver_qos1 env topic m else deliver_qos0 env topic m

  -- `toffs.Get(s.clientID)` for the topic under `name`
  unfoldable pub client_offset : Bytes → State Db → ℕ
  client_offset name st = elim (Registry.get st.broker.registry name) [
    | none ↦ 0
    | some t ↦ Offsets.get t.offsets st.session.client_id
  ]

  -- What the goroutine does with a message that it has received.
  unfoldable pub receive : Env Db → Reader → Message → Handler Db (Unit {0})
  receive env r m st =
      if leb m.seq (client_offset r.topic st)
      then (st, ok tt)
      else deliver_message env r.topic m r.qos st
