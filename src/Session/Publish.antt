-- ===== src/Session/Publish.antt =====
-- core/transport/mqtt/session.go: `handlePublish`.
use broker_message.Base.{
  ℕ, Bool, true, false, Option, some, none, ◌==◌, if◌then◌else◌, Bytes, bytes_key, Result, ok, err,
}
use broker_message.Exec.{pure, modify, ◌>>=◌, ◌>>◌}
use broker_message.Auth.{User, can_publish}
use broker_message.Envelope
use broker_message.Envelope.{Envelope, nil_uuid}
use broker_message.Storage.{Badger}
use broker_message.Dedup
use broker_message.Topic
use broker_message.Topic.{Topic, Message, TopicError}
use broker_message.Registry
use broker_message.Packet.{PublishPacket}
use broker_message.Packet.Write.{write_pub_ack}
use broker_message.Session.{
  Handler, State, Env, SessionError, count, write, publish_denied, topic_failed, publish_failed,
  publish_total, publish_duplicates, dedup_cache_size, topic_seq, good, denied, failed, duplicate,
}

-- `s.user != nil && !s.user.CanPublish(topic)`
unfoldable pub may_publish : Option User → Bytes → Bool
may_publish none topic = true
may_publish (some u) topic = can_publish u topic

-- The envelope of the payload, or a new one around it.
unfoldable pub envelope_of : Bytes → ℕ → Bytes → Envelope
envelope_of fresh now payload = elim (Envelope.decode payload) [
  | ok e ↦ e
  | err _ ↦ Envelope.new_publish fresh now nil_uuid payload
]

module _ {Db : Type 0} ⦃b : Badger Db⦄ where
  abbrev pub set_dedup : Dedup.Store Db → State Db → State Db
  set_dedup d st = record st { broker = record st.broker { dedup = some d } }

  abbrev pub set_topic : Bytes → Topic Db → State Db → State Db
  set_topic name t st = record st {
    broker = record st.broker { registry = Registry.put_topic name t st.broker.registry };
  }

  -- `if pp.QoS == 1 { return s.write(…WritePubAck…) }; return nil`
  unfoldable pub acknowledge : PublishPacket → Handler Db (Unit {0})
  acknowledge pp = if pp.qos == 1 then write (write_pub_ack pp.packet_id) else pure tt

  unfoldable pub opened : Bytes → Registry.Registry Db × Option (Topic Db) → Handler Db (Topic Db)
  opened name (r, none) st =
      (record st { broker = record st.broker { registry = r } }, err topic_failed)
  opened name (r, some t) st = (record st { broker = record st.broker { registry = r } }, ok t)

  -- `s.registry.GetOrCreate(name)`
  unfoldable pub get_or_create : Env Db → Bytes → Handler Db (Topic Db)
  unfolding opened
  get_or_create env name st =
      opened name (Registry.get_or_create env.open_dir name st.broker.registry) st

  unfoldable pub checked : Option (Dedup.Store Db × Option Dedup.Entry) → Handler Db Bool
  checked none st = (st, ok false)
  checked (some (d, none)) st = (set_dedup d st, ok false)
  checked (some (d, some e)) st = (set_dedup d st, ok true)

  -- `hub.Dedup.Check(id)`, where there is a dedup store: was the key seen?
  unfoldable pub is_duplicate : Env Db → Bytes → Handler Db Bool
  unfolding checked
  is_duplicate env id st =
      checked (elim st.broker.dedup [ none ↦ none | some d ↦ some (Dedup.check env.now id d) ]) st

  dedup_size : Option (Dedup.Store Db) → ℕ
  dedup_size none = 0
  dedup_size (some d) = Dedup.size d

  unfoldable pub remembered : Option (Dedup.Store Db) → State Db → State Db
  remembered none st = st
  remembered (some d) st = count (dedup_cache_size (Dedup.size d)) (set_dedup d st)

  -- `hub.Dedup.Remember(…)`, where there is a dedup store
  unfoldable pub remember : Env Db → Bytes → Message → State Db → State Db
  unfolding remembered
  remember env id m st =
      remembered
        (elim st.broker.dedup [
          | none ↦ none
          | some d ↦ some (Dedup.remember env.now id m.server_msg_id m.seq d)
        ])
        st

  unfoldable pub published :
      PublishPacket → Topic Db × Result TopicError Message → Handler Db Message
  published pp (t, ok m) st = (set_topic pp.topic_name t st, ok m)
  published pp (t, err e) st = (
    count (publish_total pp.topic_name pp.qos failed) (set_topic pp.topic_name t st),
    err publish_failed,
  )

  -- `t.Publish(env)`
  unfoldable pub publish_to : Env Db → PublishPacket → Topic Db → Envelope → Handler Db Message
  unfolding published
  publish_to env pp t e st = published pp (Topic.publish env.fresh_server t e) st

  -- The end of `handlePublish`, behind a successful `t.Publish`.
  unfoldable pub publish_done : Env Db → PublishPacket → Envelope → Message → Handler Db (Unit {0})
  unfolding acknowledge remember
  publish_done env pp e m = do
    modify (remember env e.idempotency_id m)
    modify (count (publish_total pp.topic_name pp.qos good))
    modify (count (topic_seq pp.topic_name m.seq))
    acknowledge pp

  unfoldable pub publish_duplicate : PublishPacket → Handler Db (Unit {0})
  unfolding acknowledge dedup_size
  publish_duplicate pp = do
    modify (count (publish_duplicates pp.topic_name))
    modify (count (publish_total pp.topic_name pp.qos duplicate))
    modify (λ st. count (dedup_cache_size (dedup_size st.broker.dedup)) st)
    acknowledge pp

  unfoldable pub opened_or_counted :
      PublishPacket
      → State Db × Result SessionError (Topic Db)
      → State Db × Result SessionError (Topic Db)
  opened_or_counted pp (st, ok t) = (st, ok t)
  opened_or_counted pp (st, err e) = (count (publish_total pp.topic_name pp.qos failed) st, err e)

  unfoldable pub publish_allowed : Env Db → PublishPacket → Handler Db (Unit {0})
  unfolding opened_or_counted
  publish_allowed env pp = do
    let e = envelope_of env.fresh_idempotency env.now pp.payload
    t ← (λ st. opened_or_counted pp (get_or_create env pp.topic_name st))
    dup ← is_duplicate env e.idempotency_id
    if dup then publish_duplicate pp else (do m ← publish_to env pp t e; publish_done env pp e m)

  unfoldable pub handle_publish : Env Db → PublishPacket → Handler Db (Unit {0})
  handle_publish env pp st =
      if may_publish st.session.user pp.topic_name
      then publish_allowed env pp st
      else (count (publish_total pp.topic_name pp.qos denied) st, err publish_denied)
