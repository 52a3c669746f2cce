-- ===== src/Session/Subscribe.antt =====
-- core/transport/mqtt/session.go: `handleSubscribe`, `handleUnsubscribe`, `syncSessionTopics`,
-- `cleanupSubs`.
use broker_message.Base.{
  ℕ, ◌+◌, ◌%◌, ◌^◌, Bool, true, Option, some, none, List, [], ◌∷◌, ◌++◌, map, ltb, if◌then◌else◌,
  Bytes, lookup, insert, remove, bytes_key, Result, ok, err,
}
use broker_message.Exec.{modify, reads, ◌>>=◌, ◌>>◌}
use broker_message.Auth.{User, can_subscribe}
use broker_message.Storage.{Badger}
use broker_message.Offsets
use broker_message.Topic
use broker_message.Topic.{Topic, Message}
use broker_message.Registry
use broker_message.Server
use broker_message.Packet.{TopicFilter, SubscribePacket, UnsubscribePacket}
use broker_message.Packet.Write.{write_sub_ack, write_unsub_ack}
use broker_message.Session.{Handler, State, Reader, Env, write}
use broker_message.Session.Deliver.{deliver_message}
use broker_message.Session.Publish.{get_or_create, set_topic}

abbrev pub catch_up_limit : ℕ
catch_up_limit = 500

-- A subscription that has been made and not yet served.
pub record Pending : Type 0 where
  pub topic : Bytes
  pub chan : ℕ
  pub catch_up : List Message
  pub qos : ℕ

-- `s.user != nil && !s.user.CanSubscribe(filter)`
unfoldable pub may_subscribe : Option User → Bytes → Bool
may_subscribe none filter = true
may_subscribe (some u) filter = can_subscribe u filter

abbrev pub effective_qos : ℕ → ℕ
effective_qos qos = if ltb 1 qos then 1 else qos

unfoldable pub fetched : Result Topic.TopicError (List Message) → List Message
fetched (ok ms) = ms
fetched (err e) = []

module _ {Db : Type 0} ⦃b : Badger Db⦄ where
  unfoldable pub change_topic :
      Bytes → (Topic Db → Topic Db) → Option (Topic Db) → State Db → State Db
  change_topic name f none st = st
  change_topic name f (some t) st = set_topic name (f t) st

  unfoldable pub end_old : Bytes → Option ℕ → State Db → State Db
  unfolding change_topic
  end_old filter none st = st
  end_old filter (some chan) st =
      change_topic filter (Topic.unsubscribe chan) (Registry.get st.broker.registry filter) st

  -- The function that ends the session's subscription to a filter, called if there is one.
  unfoldable pub end_subscription : Bytes → State Db → State Db
  unfolding end_old
  end_subscription filter st = end_old filter (lookup filter st.session.subs) st

  abbrev pub set_sub : Bytes → ℕ → ℕ → State Db → State Db
  set_sub filter chan qos st = record st {
    session = record st.session {
      subs = insert filter chan st.session.subs;
      sub_qos = insert filter qos st.session.sub_qos;
    };
  }

  abbrev pub drop_sub : Bytes → State Db → State Db
  drop_sub filter st = record st {
    session = record st.session {
      subs = remove filter st.session.subs;
      sub_qos = remove filter st.session.sub_qos;
    };
  }

  -- The messages behind the client's offset, at most 500. A failed fetch is logged.
  unfoldable pub catch_up_of : Topic Db → Bytes → List Message
  unfolding fetched
  catch_up_of t client_id =
      let offset = Offsets.get t.offsets client_id in
      if ltb offset t.seq
      then fetched (Topic.get_messages t ((offset + 1) % 2 ^ 64) catch_up_limit)
      else []

  -- One round of the loop over the filters, for a filter that may be subscribed to.
  unfoldable pub open_subscription : Env Db → TopicFilter → Handler Db Pending
  unfolding end_subscription
  open_subscription env tf = do
    t ← get_or_create env tf.filter
    let (t', chan) = Topic.subscribe t
    let qos = effective_qos tf.qos
    modify (set_topic tf.filter t')
    modify (end_subscription tf.filter)
    modify (set_sub tf.filter chan qos)
    reads (λ st. record {
      topic = tf.filter;
      chan = chan;
      catch_up = catch_up_of t' st.session.client_id;
      qos = qos;
    })

  -- The loop: the return codes and the pending subscriptions so far.
  unfoldable pub open_subscriptions :
      Env Db → List TopicFilter → List ℕ → List Pending → Handler Db (List ℕ × List Pending)
  open_subscriptions env [] codes pendings st = (st, ok (codes, pendings))
  open_subscriptions env (tf ∷ topics) codes pendings st =
      let refused = open_subscriptions env topics (codes ++ (0x80 ∷ [])) pendings st in
      let granted =
        (open_subscription env tf >>= λ p.
        open_subscriptions env topics (codes ++ (p.qos ∷ [])) (pendings ++ (p ∷ [])))
          st in
      if may_subscribe st.session.user tf.filter then granted else refused

  unfoldable pub sync_session_topics : State Db → State Db
  sync_session_topics st =
      if st.session.has_owner
      then record st {
        broker = record st.broker {
          sessions =
              Server.update_session_topics st.session.id (map (λ e. e.0) st.session.subs)
                st.broker.sessions;
        };
      }
      else st

  -- `for _, m := range p.catchUp`
  unfoldable pub deliver_all : Env Db → Bytes → ℕ → List Message → Handler Db (Unit {0})
  deliver_all env topic qos [] st = (st, ok tt)
  deliver_all env topic qos (m ∷ ms) st =
      (deliver_message env topic m qos >>= λ _. deliver_all env topic qos ms) st

  unfoldable pub catch_up_all : Env Db → List Pending → Handler Db (Unit {0})
  unfolding deliver_all
  catch_up_all env [] st = (st, ok tt)
  catch_up_all env (p ∷ ps) st =
      (deliver_all env p.topic p.qos p.catch_up >>= λ _. catch_up_all env ps) st

  abbrev pub start_readers : List Reader → State Db → State Db
  start_readers rs st = record st {
    session = record st.session { readers = st.session.readers ++ rs };
  }

  unfoldable pub handle_subscribe : Env Db → SubscribePacket → Handler Db (Unit {0})
  unfolding open_subscriptions catch_up_all
  handle_subscribe env sp = do
    (codes, pendings) ← open_subscriptions env sp.topics [] []
    write (write_sub_ack sp.packet_id codes)
    modify sync_session_topics
    catch_up_all env pendings
    modify
        (start_readers (map (λ p. record { topic = p.topic; chan = p.chan; qos = p.qos }) pendings))

  -- The loop of `handleUnsubscribe`.
  unfoldable pub unsubscribe_all : List Bytes → State Db → State Db
  unfolding end_subscription
  unsubscribe_all [] st = st
  unsubscribe_all (name ∷ names) st =
      unsubscribe_all names (drop_sub name (end_subscription name st))

  unfoldable pub handle_unsubscribe : UnsubscribePacket → Handler Db (Unit {0})
  unfolding unsubscribe_all sync_session_topics
  handle_unsubscribe up = do
    modify (unsubscribe_all up.topics)
    modify sync_session_topics
    write (write_unsub_ack up.packet_id)

  unfoldable pub end_each : List Bytes → State Db → State Db
  end_each [] st = st
  end_each (name ∷ names) st = end_each names (end_subscription name st)

  -- `cleanupSubs`: every subscription ends, and what is in flight is forgotten.
  unfoldable pub cleanup_subs : State Db → State Db
  unfolding end_each sync_session_topics
  cleanup_subs st =
      let st₁ = end_each (map (λ e. e.0) st.session.subs) st in
      let st₂ =
        sync_session_topics
          (record st₁ { session = record st₁.session { subs = []; sub_qos = [] } }) in
      record st₂ { session = record st₂.session { inflight = [] } }
