-- ===== src/Session/Denied.antt =====
-- core/transport/mqtt/session.go: `handlePublish` leaves a topic that its user may not publish to.
use broker_message.Base.{
  ◌≡◌, refl, sym, ap, ◌∙◌, Bool, true, false, Option, some, none, ◌==◌, if◌then◌else◌, Bytes,
  bytes_eq, bytes_eq_iff, bytes_key, Result, ok, err, Bool-cases, inl, inr,
}
use broker_message.Exec.{◌>>=◌}
use broker_message.Envelope.{Envelope}
use broker_message.Storage.{Badger}
use broker_message.Dedup
use broker_message.Topic
use broker_message.Topic.{Topic, Message, TopicError}
use broker_message.Packet.{PublishPacket}
use broker_message.Packet.Write.{write_pub_ack}
use broker_message.Session.{State, Env, SessionError, Handler, publish_total, failed, denied}
use broker_message.Session.Publish.{
  may_publish, envelope_of, acknowledge, get_or_create, checked, is_duplicate, remembered, remember,
  published, publish_to, publish_done, publish_duplicate, opened_or_counted, publish_allowed,
  handle_publish,
}
use broker_message.Session.Keeps.{
  Confined, Confined-refl, Confined-trans, still-Confined, continue-Confined, set_topic-other,
}
use broker_message.Session.Delivery.{write-Confined, count-Confined}
use broker_message.Session.Confinement.{get_or_create-Confined}

module _ {Db : Type 0} ⦃b : Badger Db⦄ (name : Bytes) where
  acknowledge-Confined :
      (pp : PublishPacket) (st : State Db) → Confined name st (acknowledge pp st).0
  unfolding acknowledge
  acknowledge-Confined pp st = elim (Bool-cases (pp.qos == 1)) [
    | inl e ↦ rw e (write-Confined name (write_pub_ack pp.packet_id) st)
    | inr e ↦ rw e (Confined-refl name st)
  ]

  opened_or_counted-Confined :
      (pp : PublishPacket) (st : State Db) (r : State Db × Result SessionError (Topic Db))
      → Confined name st r.0
      → Confined name st (opened_or_counted pp r).0
  unfolding opened_or_counted
  opened_or_counted-Confined pp st (st₁, ok t) h = h
  opened_or_counted-Confined pp st (st₁, err e) h =
      Confined-trans name st st₁ _ h
        (count-Confined name (publish_total pp.topic_name pp.qos failed) st₁)

  checked-Confined :
      (o : Option (Dedup.Store Db × Option Dedup.Entry)) (st : State Db)
      → Confined name st (checked o st).0
  unfolding checked
  checked-Confined none st = Confined-refl name st
  checked-Confined (some (d, none)) st = still-Confined name st _ refl refl
  checked-Confined (some (d, some e)) st = still-Confined name st _ refl refl

  remembered-Confined :
      (o : Option (Dedup.Store Db)) (st : State Db) → Confined name st (remembered o st)
  unfolding remembered
  remembered-Confined none st = Confined-refl name st
  remembered-Confined (some d) st = still-Confined name st _ refl refl

  published-Confined :
      (pp : PublishPacket) (r : Topic Db × Result TopicError Message) (st : State Db)
      → bytes_eq pp.topic_name name ≡ false
      → Confined name st (published pp r st).0
  unfolding published
  published-Confined pp (t, ok m) st h = set_topic-other name pp.topic_name t st h
  published-Confined pp (t, err e) st h =
      Confined-trans name st _ _ (set_topic-other name pp.topic_name t st h)
        (count-Confined name (publish_total pp.topic_name pp.qos failed) _)

  publish_duplicate-Confined :
      (pp : PublishPacket) (st : State Db) → Confined name st (publish_duplicate pp st).0
  unfolding publish_duplicate
  publish_duplicate-Confined pp st =
      Confined-trans name st _ _ (still-Confined name st _ refl refl) (acknowledge-Confined pp _)

  publish_done-Confined :
      (env : Env Db) (pp : PublishPacket) (e : Envelope) (m : Message) (st : State Db)
      → Confined name st (publish_done env pp e m st).0
  unfolding publish_done remember
  publish_done-Confined env pp e m st =
      let st₁ = remember env e.idempotency_id m st in
      Confined-trans name st st₁ _ (remembered-Confined _ st) (
        Confined-trans name st₁ _ _ (still-Confined name st₁ _ refl refl)
          (acknowledge-Confined pp _))

  -- What follows the question to the dedup store.
  abbrev unless_duplicate : Env Db → PublishPacket → Topic Db → Bool → Handler Db (Unit {0})
  unless_duplicate env pp t dup =
      let e = envelope_of env.fresh_idempotency env.now pp.payload in
      if dup then publish_duplicate pp else (do m ← publish_to env pp t e; publish_done env pp e m)

  unless_duplicate-Confined :
      (env : Env Db) (pp : PublishPacket) (t : Topic Db) (dup : Bool) (st : State Db)
      → bytes_eq pp.topic_name name ≡ false
      → Confined name st (unless_duplicate env pp t dup st).0
  unless_duplicate-Confined env pp t true st h = publish_duplicate-Confined pp st
  unless_duplicate-Confined env pp t false st h =
      let e = envelope_of env.fresh_idempotency env.now pp.payload in
      continue-Confined name st (publish_to env pp t e st) (publish_done env pp e)
        (unfold publish_to in published-Confined pp (Topic.publish env.fresh_server t e) st h)
        (λ m g. publish_done-Confined env pp e m (publish_to env pp t e st).0)

  publish_allowed-Confined :
      (env : Env Db) (pp : PublishPacket) (st : State Db)
      → bytes_eq pp.topic_name name ≡ false
      → Confined name st (publish_allowed env pp st).0
  unfolding publish_allowed
  publish_allowed-Confined env pp st h =
      let id = (envelope_of env.fresh_idempotency env.now pp.payload).idempotency_id in
      let found = opened_or_counted pp (get_or_create env pp.topic_name st) in
      continue-Confined name st found
        (λ (t : Topic Db). is_duplicate env id >>= unless_duplicate env pp t)
        (opened_or_counted-Confined pp st (get_or_create env pp.topic_name st)
          (get_or_create-Confined name env pp.topic_name st))
        (λ t g.
          continue-Confined name found.0 (is_duplicate env id found.0) (unless_duplicate env pp t)
            (unfold is_duplicate in checked-Confined _ found.0)
            (λ dup k. unless_duplicate-Confined env pp t dup (is_duplicate env id found.0).0 h))

  other_topic :
      (pp : PublishPacket) (st : State Db)
      → may_publish st.session.user name ≡ false
      → may_publish st.session.user pp.topic_name ≡ true
      → bytes_eq pp.topic_name name ≡ false
  other_topic pp st h allowed = elim (Bool-cases (bytes_eq pp.topic_name name)) [
    | inl same ↦
        let both =
          sym h
          ∙ ap (may_publish st.session.user) (sym ((bytes_eq_iff pp.topic_name name).0 same))
          ∙ allowed in
        absurd cc
    | inr other ↦ other
  ]

  -- A PUBLISH of a user who may not publish to the topic leaves it, be it for this topic or another.
  pub handle_publish-Confined :
      (env : Env Db) (pp : PublishPacket) (st : State Db)
      → may_publish st.session.user name ≡ false
      → Confined name st (handle_publish env pp st).0
  unfolding handle_publish
  handle_publish-Confined env pp st h =
      elim (Bool-cases (may_publish st.session.user pp.topic_name)) [
        | inl allowed ↦
            rw allowed (publish_allowed-Confined env pp st (other_topic pp st h allowed))
        | inr refused ↦
            rw refused (count-Confined name (publish_total pp.topic_name pp.qos denied) st)
      ]
