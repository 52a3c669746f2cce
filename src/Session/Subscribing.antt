-- ===== src/Session/Subscribing.antt =====
-- core/transport/mqtt/session.go: `handleSubscribe` keeps the messages of every topic that was there.
use broker_message.Base.{ℕ, ◌≡◌, refl, some, List, [], ◌∷◌, ◌++◌, map, Bytes}
use broker_message.Exec.{modify, reads, ◌>>◌}
use broker_message.Storage.{Badger}
use broker_message.Topic
use broker_message.Topic.{Topic, Message}
use broker_message.Registry
use broker_message.Packet.{TopicFilter, SubscribePacket}
use broker_message.Packet.Write.{write_sub_ack}
use broker_message.Session.{State, Env, Handler, write}
use broker_message.Session.Publish.{set_topic, get_or_create}
use broker_message.Session.Subscribe.{
  Pending, may_subscribe, effective_qos, end_subscription, set_sub, catch_up_of, open_subscription,
  open_subscriptions, sync_session_topics, deliver_all, catch_up_all, start_readers,
  handle_subscribe,
}
use broker_message.Session.Deliver.{deliver_message}
use broker_message.Session.Keeps.{
  KeptIn, Confined, Confined-refl, Confined-trans, still-Confined, continue-Confined,
  set_topic-Confined, if-result-Confined,
}
use broker_message.Session.Delivery.{write-Confined, deliver_message-Confined}
use broker_message.Session.Confinement.{
  get_or_create-Confined, get_or_create_there, end_subscription-Confined, sync-Confined,
}

module _ {Db : Type 0} ⦃b : Badger Db⦄ (name : Bytes) where
  -- What follows `GetOrCreate` in one round of the loop over the filters.
  abbrev pub subscribed : TopicFilter → Topic Db → Handler Db Pending
  subscribed tf t = do
    let (t', chan) = Topic.subscribe t
    let qos = effective_qos tf.qos
    modify (set_topic tf.filter t')
    modify (end_subscription tf.filter)
    modify (set_sub tf.filter chan qos)
    reads (λ st. record {
      topic = tf.filter;
      chan = chan;
      catch_up = catch_up_of t' st.session.client_id;
      qos = qos;
    })

  subscribe-kept : (t : Topic Db) → KeptIn (some t) (some (Topic.subscribe t).0)
  unfolding Topic.subscribe
  subscribe-kept t = (refl, refl)

  subscribed-Confined :
      (tf : TopicFilter) (t : Topic Db) (st : State Db)
      → Registry.get st.broker.registry tf.filter ≡ some t
      → Confined name st (subscribed tf t st).0
  subscribed-Confined tf t st h =
      let (t', chan) = Topic.subscribe t in
      let st₁ = set_topic tf.filter t' st in
      let st₂ = end_subscription tf.filter st₁ in
      Confined-trans name st st₁ _
        (set_topic-Confined name tf.filter t' st (rw h (subscribe-kept t)))
        (Confined-trans name st₁ st₂ _ (end_subscription-Confined name tf.filter st₁)
          (still-Confined name st₂ _ refl refl))

  open_subscription-Confined :
      (env : Env Db) (tf : TopicFilter) (st : State Db)
      → Confined name st (open_subscription env tf st).0
  unfolding open_subscription
  open_subscription-Confined env tf st =
      continue-Confined name st (get_or_create env tf.filter st) (subscribed tf)
        (get_or_create-Confined name env tf.filter st)
        (λ t e.
          subscribed-Confined tf t (get_or_create env tf.filter st).0
            (get_or_create_there name env tf.filter st t e))

  open_subscriptions-Confined :
      (env : Env Db) (topics : List TopicFilter) (codes : List ℕ) (pendings : List Pending)
      (st : State Db)
      → Confined name st (open_subscriptions env topics codes pendings st).0
  unfolding open_subscriptions
  open_subscriptions-Confined env [] codes pendings st = Confined-refl name st
  open_subscriptions-Confined env (tf ∷ topics) codes pendings st =
      if-result-Confined name (may_subscribe st.session.user tf.filter) st _ _
        (continue-Confined name st (open_subscription env tf st)
          (λ p. open_subscriptions env topics (codes ++ (p.qos ∷ [])) (pendings ++ (p ∷ [])))
          (open_subscription-Confined env tf st)
          (λ p e.
            open_subscriptions-Confined env topics (codes ++ (p.qos ∷ [])) (pendings ++ (p ∷ []))
              (open_subscription env tf st).0))
        (open_subscriptions-Confined env topics (codes ++ (0x80 ∷ [])) pendings st)

  deliver_all-Confined :
      (env : Env Db) (topic : Bytes) (qos : ℕ) (ms : List Message) (st : State Db)
      → Confined name st (deliver_all env topic qos ms st).0
  unfolding deliver_all
  deliver_all-Confined env topic qos [] st = Confined-refl name st
  deliver_all-Confined env topic qos (m ∷ ms) st =
      continue-Confined name st (deliver_message env topic m qos st)
        (λ (u : Unit {0}). deliver_all env topic qos ms)
        (deliver_message-Confined name env topic m qos st)
        (λ u e. deliver_all-Confined env topic qos ms (deliver_message env topic m qos st).0)

  catch_up_all-Confined :
      (env : Env Db) (ps : List Pending) (st : State Db)
      → Confined name st (catch_up_all env ps st).0
  unfolding catch_up_all
  catch_up_all-Confined env [] st = Confined-refl name st
  catch_up_all-Confined env (p ∷ ps) st =
      continue-Confined name st (deliver_all env p.topic p.qos p.catch_up st)
        (λ (u : Unit {0}). catch_up_all env ps)
        (deliver_all-Confined env p.topic p.qos p.catch_up st)
        (λ u e. catch_up_all-Confined env ps (deliver_all env p.topic p.qos p.catch_up st).0)

  -- What follows the loop over the filters, and what follows the answer.
  abbrev caught_up : Env Db → List Pending → Handler Db (Unit {0})
  caught_up env ps = do
    modify sync_session_topics
    catch_up_all env ps
    modify (
        start_readers
          (map (λ (p : Pending). record { topic = p.topic; chan = p.chan; qos = p.qos }) ps))

  abbrev answered : Env Db → ℕ → List ℕ × List Pending → Handler Db (Unit {0})
  answered env pid r = do write (write_sub_ack pid r.0); caught_up env r.1

  caught_up-Confined :
      (env : Env Db) (ps : List Pending) (st : State Db) → Confined name st (caught_up env ps st).0
  caught_up-Confined env ps st =
      let st₁ = sync_session_topics st in
      let readers =
        map (λ (p : Pending). record { topic = p.topic; chan = p.chan; qos = p.qos }) ps in
      Confined-trans name st st₁ _ (sync-Confined name st) (
        continue-Confined name st₁ (catch_up_all env ps st₁)
          (λ (u : Unit {0}). modify (start_readers readers)) (catch_up_all-Confined env ps st₁)
          (λ u e. still-Confined name (catch_up_all env ps st₁).0 _ refl refl))

  answered-Confined :
      (env : Env Db) (pid : ℕ) (r : List ℕ × List Pending) (st : State Db)
      → Confined name st (answered env pid r st).0
  answered-Confined env pid r st =
      continue-Confined name st (write (write_sub_ack pid r.0) st)
        (λ (u : Unit {0}). caught_up env r.1) (write-Confined name (write_sub_ack pid r.0) st)
        (λ u e. caught_up-Confined env r.1 (write (write_sub_ack pid r.0) st).0)

  pub handle_subscribe-Confined :
      (env : Env Db) (sp : SubscribePacket) (st : State Db)
      → Confined name st (handle_subscribe env sp st).0
  unfolding handle_subscribe
  handle_subscribe-Confined env sp st =
      continue-Confined name st (open_subscriptions env sp.topics [] [] st)
        (answered env sp.packet_id) (open_subscriptions-Confined env sp.topics [] [] st)
        (λ r e. answered-Confined env sp.packet_id r (open_subscriptions env sp.topics [] [] st).0)
