-- ===== src/Session/SubscribeReturns.antt =====
-- core/transport/mqtt/session.go: `deliverMessage` and `handleSubscribe` return while a packet id is free.
use broker_message.Base.{
  ℕ, refl, sym, ◌∙◌, Option-cases, List, [], ◌∷◌, ◌==◌, Bool-cases, inl, inr, Bytes, nat_key,
  bytes_key, Result, ok, err,
}
use broker_message.Storage.{Badger}
use broker_message.Topic
use broker_message.Topic.{Topic, Message, TopicError}
use broker_message.Registry
use broker_message.Packet.{TopicFilter, SubscribePacket}
use broker_message.Packet.Write.{write_sub_ack}
use broker_message.Session.{State, Env, SessionError, Metric, alloc_packet_id, count, write}
use broker_message.Session.AckLaws.{alloc_packet_id-free, set_offset-session}
use broker_message.Session.Written.{alloc_packet_id-eq-some}
use broker_message.Session.Backlog.{end_subscription-session, sync-session}
use broker_message.Session.Publish.{opened, get_or_create, set_topic}
use broker_message.Session.Deliver.{
  take_packet_id, allocate, keep_inflight, write_counted, deliver_qos0, deliver_qos1,
  deliver_message, set_offset,
}
use broker_message.Session.Subscribe.{
  Pending, may_subscribe, end_subscription, open_subscription, open_subscriptions,
  sync_session_topics, deliver_all, catch_up_all, handle_subscribe,
}
use broker_message.Session.Subscribing.{subscribed}
use broker_message.Session.Searching.{
  AtError-session, same-HasNext, HasNext, Sound, continue-Sound, write-Sound,
}
use broker_message.Session.PublishReturns.{opened-Sound}

module _ {Db : Type 0} ⦃b : Badger Db⦄ where
  counted-Sound :
      (a o : Metric) (x : State Db × Result SessionError (Unit {0}))
      → Sound x
      → Sound {A = Unit {0}} (elim x.1 as (λ y. State Db × Result SessionError (Unit {0})) [
        | ok _ ↦ (count o x.0, ok tt)
        | err e ↦ (count a x.0, err e)
      ])
  counted-Sound a o (st, ok u) s = record { next = s.next; only_full = tt }
  counted-Sound a o (st, err e) s = record {
    next = s.next;
    only_full = AtError-session e st _ refl s.only_full;
  }

  write_counted-Sound :
      (frame : Bytes) (a o : Metric) (st : State Db)
      → HasNext st
      → Sound (write_counted frame a o st)
  unfolding write_counted
  write_counted-Sound frame a o st h = counted-Sound a o (write frame st) (write-Sound frame st h)

  allocate-Sound : (st : State Db) → HasNext st → Sound (allocate st)
  unfolding allocate take_packet_id
  allocate-Sound st h = elim (Option-cases (alloc_packet_id st.session)) [
    | inl stuck ↦ rw stuck (record {
      next = h;
      only_full = λ j is_id free.
          let (id, s, found, _, _, _) = alloc_packet_id-free st.session j h is_id free in
          cc (sym stuck ∙ found);
    })
    | inr ((pid, s), e) ↦
        rw e (record { next = (alloc_packet_id-eq-some st.session s pid h e).2; only_full = tt })
  ]

  deliver_message-Sound :
      (env : Env Db) (topic : Bytes) (m : Message) (qos : ℕ) (st : State Db)
      → HasNext st
      → Sound (deliver_message env topic m qos st)
  unfolding deliver_message deliver_qos1 deliver_qos0 keep_inflight
  deliver_message-Sound env topic m qos st h = elim (Bool-cases (qos == 1)) [
    | inl one ↦
        rw one
          (continue-Sound _ _ (allocate-Sound st h) (λ pid st₁ h₁. write_counted-Sound _ _ _ _ h₁))
    | inr other ↦ rw other (
        continue-Sound _ _ (write_counted-Sound _ _ _ st h) (λ u st₁ h₁. record {
          next =
              same-HasNext st₁ (set_offset topic m.seq st₁) (set_offset-session topic m.seq st₁) h₁;
          only_full = tt;
        }))
  ]

  deliver_all-Sound :
      (env : Env Db) (topic : Bytes) (qos : ℕ) (ms : List Message) (st : State Db)
      → HasNext st
      → Sound (deliver_all env topic qos ms st)
  unfolding deliver_all
  deliver_all-Sound env topic qos [] st h = record { next = h; only_full = tt }
  deliver_all-Sound env topic qos (m ∷ ms) st h =
      continue-Sound _ _ (deliver_message-Sound env topic m qos st h)
        (λ u. deliver_all-Sound env topic qos ms)

  catch_up_all-Sound :
      (env : Env Db) (ps : List Pending) (st : State Db)
      → HasNext st
      → Sound (catch_up_all env ps st)
  unfolding catch_up_all
  catch_up_all-Sound env [] st h = record { next = h; only_full = tt }
  catch_up_all-Sound env (p ∷ ps) st h =
      continue-Sound _ _ (deliver_all-Sound env p.topic p.qos p.catch_up st h)
        (λ u. catch_up_all-Sound env ps)

  open_subscription-Sound :
      (env : Env Db) (tf : TopicFilter) (st : State Db)
      → HasNext st
      → Sound (open_subscription env tf st)
  unfolding open_subscription get_or_create
  open_subscription-Sound env tf st h =
      let r = Registry.get_or_create env.open_dir tf.filter st.broker.registry in
      continue-Sound (opened tf.filter r st) (subscribed tf.filter tf)
        (opened-Sound tf.filter r st h)
        (λ t st₁ h₁.
          let st₂ = set_topic tf.filter (Topic.subscribe t).0 st₁ in
          record {
            next =
                same-HasNext st₁ (end_subscription tf.filter st₂)
                  (end_subscription-session tf.filter st₂) h₁;
            only_full = tt;
          })

  open_subscriptions-Sound :
      (env : Env Db) (topics : List TopicFilter) (codes : List ℕ) (ps : List Pending)
      (st : State Db)
      → HasNext st
      → Sound (open_subscriptions env topics codes ps st)
  unfolding open_subscriptions
  open_subscriptions-Sound env [] codes ps st h = record { next = h; only_full = tt }
  open_subscriptions-Sound env (tf ∷ topics) codes ps st h =
      elim (Bool-cases (may_subscribe st.session.user tf.filter)) [
        | inl e ↦ rw e (
            continue-Sound _ _ (open_subscription-Sound env tf st h)
              (λ p. open_subscriptions-Sound env topics _ _))
        | inr e ↦ rw e (open_subscriptions-Sound env topics _ ps st h)
      ]

  pub handle_subscribe-Sound :
      (env : Env Db) (sp : SubscribePacket) (st : State Db)
      → HasNext st
      → Sound (handle_subscribe env sp st)
  unfolding handle_subscribe
  handle_subscribe-Sound env sp st h =
      continue-Sound _ _ (open_subscriptions-Sound env sp.topics [] [] st h) (λ x st₁ h₁.
        continue-Sound _ _ (write-Sound (write_sub_ack sp.packet_id x.0) st₁ h₁) (λ u st₂ h₂.
          continue-Sound _ _
            (catch_up_all-Sound env x.1 (sync_session_topics st₂)
              (same-HasNext st₂ (sync_session_topics st₂) (sync-session st₂) h₂))
            (λ v st₃ h₃. record { next = h₃; only_full = tt })))
