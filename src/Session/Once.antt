-- ===== src/Session/Once.antt =====
-- core/transport/mqtt/session.go: `handlePublish` publishes a key once.
use broker_message.Base.{
  ◌+◌, ◌≤◌, ◌<◌, ◌≡◌, refl, sym, ap, ◌∙◌, true, false, Option, some, none, ◌==◌, Bool-cases, inl,
  inr, Bytes, bytes_key, Result, ok, err,
}
use broker_message.Exec.{bind-eq-ok}
use broker_message.Envelope.{Envelope}
use broker_message.Storage.{Badger}
use broker_message.Dedup
use broker_message.Dedup.Duplicates.{check-remember}
use broker_message.Topic
use broker_message.Topic.{Topic, Message, TopicError}
use broker_message.Registry
use broker_message.Packet.{PublishPacket}
use broker_message.Session.{State, Broker, Env, SessionError, write}
use broker_message.Session.Publish.{
  may_publish, envelope_of, set_dedup, acknowledge, opened, get_or_create, checked, is_duplicate,
  remembered, remember, published, publish_to, publish_done, publish_duplicate, opened_or_counted,
  publish_allowed, handle_publish,
}

-- The idempotency id under which a packet is published.
abbrev pub key_of : {Db : Type 0} → Env Db → PublishPacket → Bytes
key_of env pp = (envelope_of env.fresh_idempotency env.now pp.payload).idempotency_id

module _ {Db : Type 0} ⦃b : Badger Db⦄ where
  pub acknowledge-broker :
      (pp : PublishPacket) (st : State Db) → (acknowledge pp st).0.broker ≡ st.broker
  unfolding acknowledge write
  acknowledge-broker pp st = elim (Bool-cases (pp.qos == 1)) [
    | inl e ↦ rw e refl
    | inr e ↦ rw e refl
  ]

  publish_duplicate-registry :
      (pp : PublishPacket) (st : State Db)
      → (publish_duplicate pp st).0.broker.registry ≡ st.broker.registry
  unfolding publish_duplicate
  publish_duplicate-registry pp st = ap (λ (x : Broker Db). x.registry) (acknowledge-broker pp _)

  pub handle_publish-allowed :
      (env : Env Db) (pp : PublishPacket) (st : State Db)
      → may_publish st.session.user pp.topic_name ≡ true
      → handle_publish env pp st ≡ publish_allowed env pp st
  unfolding handle_publish
  handle_publish-allowed env pp st h = rw h refl

  pub get_or_create-there :
      (env : Env Db) (name : Bytes) (st : State Db) (t : Topic Db)
      → Registry.get st.broker.registry name ≡ some t
      → get_or_create env name st ≡ (st, ok t)
  unfolding get_or_create opened Registry.get_or_create Registry.get_or_new
  get_or_create-there env name st t h = rw h refl

  is_duplicate-checked :
      (env : Env Db) (id : Bytes) (st : State Db) (d : Dedup.Store Db)
      → st.broker.dedup ≡ some d
      → is_duplicate env id st ≡ checked (some (Dedup.check env.now id d)) st
  unfolding is_duplicate checked
  is_duplicate-checked env id st d h = rw (h, is_duplicate) refl

  -- A key that the dedup store knows leaves every topic as it was.
  publish_allowed-duplicate :
      (env : Env Db) (pp : PublishPacket) (st : State Db) (t : Topic Db) (d d' : Dedup.Store Db)
      (e : Dedup.Entry)
      → Registry.get st.broker.registry pp.topic_name ≡ some t
      → st.broker.dedup ≡ some d
      → Dedup.check env.now (key_of env pp) d ≡ (d', some e)
      → (publish_allowed env pp st).0.broker.registry ≡ st.broker.registry
  unfolding publish_allowed opened_or_counted checked
  publish_allowed-duplicate env pp st t d d' e there deduped known =
      rw (get_or_create-there env pp.topic_name st t there) (
        rw (is_duplicate-checked env (key_of env pp) st d deduped)
          (rw known (publish_duplicate-registry pp (set_dedup d' st))))

  remember-recorded :
      (env : Env Db) (id : Bytes) (m : Message) (st : State Db) (d : Dedup.Store Db)
      → st.broker.dedup ≡ some d
      → (remember env id m st).broker.dedup
        ≡ some (Dedup.remember env.now id m.server_msg_id m.seq d)
  unfolding remember remembered
  remember-recorded env id m st d h = rw (h, remember) refl

  -- What the last part of a successful publish records.
  publish_done-recorded :
      (env : Env Db) (pp : PublishPacket) (v : Envelope) (m : Message) (st : State Db)
      (d : Dedup.Store Db)
      → st.broker.dedup ≡ some d
      → (publish_done env pp v m st).0.broker.dedup
        ≡ some (Dedup.remember env.now v.idempotency_id m.server_msg_id m.seq d)
  unfolding publish_done
  publish_done-recorded env pp v m st d h =
      ap (λ (x : Broker Db). x.dedup) (acknowledge-broker pp _)
      ∙ remember-recorded env v.idempotency_id m st d h

  opened-dedup :
      (pp : PublishPacket) (name : Bytes) (r : Registry.Registry Db × Option (Topic Db))
      (st : State Db)
      → (opened_or_counted pp (opened name r st)).0.broker.dedup ≡ st.broker.dedup
  unfolding opened_or_counted opened
  opened-dedup pp name (r, none) st = refl
  opened-dedup pp name (r, some t) st = refl

  published-dedup :
      (pp : PublishPacket) (r : Topic Db × Result TopicError Message) (st : State Db)
      → (published pp r st).0.broker.dedup ≡ st.broker.dedup
  unfolding published
  published-dedup pp (t, ok m) st = refl
  published-dedup pp (t, err e) st = refl

  -- A successful publish of a key that was not known has recorded it.
  publish_allowed-recorded :
      (env : Env Db) (pp : PublishPacket) (st st₁ : State Db) (d d₁ : Dedup.Store Db)
      → st.broker.dedup ≡ some d
      → Dedup.check env.now (key_of env pp) d ≡ (d₁, none)
      → publish_allowed env pp st ≡ (st₁, ok tt)
      → (m : Message) × (st₁.broker.dedup
          ≡ some (Dedup.remember env.now (key_of env pp) m.server_msg_id m.seq d₁))
  unfolding publish_allowed get_or_create publish_to checked
  publish_allowed-recorded env pp st st₁ d d₁ deduped unknown h =
      let v = envelope_of env.fresh_idempotency env.now pp.payload in
      let opening = opened_or_counted pp (
        opened pp.topic_name (Registry.get_or_create env.open_dir pp.topic_name st.broker.registry)
          st) in
      let (stA, t, a, h₁) = bind-eq-ok opening _ h in
      let kept : stA.broker.dedup ≡ some d =
        ap (λ (x : State Db × Result SessionError (Topic Db)). x.0.broker.dedup) (sym a)
        ∙ opened-dedup pp pp.topic_name _ st
        ∙ deduped in
      let fresh : is_duplicate env v.idempotency_id stA ≡ (set_dedup d₁ stA, ok false) =
        is_duplicate-checked env v.idempotency_id stA d kept ∙ rw unknown refl in
      let h₂ = rw fresh at h₁ in
      let sending = published pp (Topic.publish env.fresh_server t v) (set_dedup d₁ stA) in
      let (stB, m, sent, h₃) = bind-eq-ok sending _ h₂ in
      let still : stB.broker.dedup ≡ some d₁ =
        ap (λ (x : State Db × Result SessionError Message). x.0.broker.dedup) (sym sent)
        ∙ published-dedup pp (Topic.publish env.fresh_server t v) (set_dedup d₁ stA) in
      (
        m,
        ap (λ (x : State Db × Result SessionError (Unit {0})). x.0.broker.dedup) (sym h₃)
            ∙ publish_done-recorded env pp v m stB d₁ still,
      )

  -- A key is published once: if a PUBLISH whose idempotency key the dedup store did not know has
  -- succeeded, then a PUBLISH with the same key that is handled next, on whatever session and for
  -- whatever topic that the registry knows, and not later than the time to live, changes no topic.
  -- Both may publish, and the dedup store has room for a key.
  pub handle_publish-once :
      (env env' : Env Db) (pp pp' : PublishPacket) (st st₁ st' : State Db) (d d₁ : Dedup.Store Db)
      (t : Topic Db)
      → may_publish st.session.user pp.topic_name ≡ true
      → st.broker.dedup ≡ some d
      → 0 < d.capacity
      → Dedup.check env.now (key_of env pp) d ≡ (d₁, none)
      → handle_publish env pp st ≡ (st₁, ok tt)
      → st'.broker ≡ st₁.broker
      → may_publish st'.session.user pp'.topic_name ≡ true
      → Registry.get st'.broker.registry pp'.topic_name ≡ some t
      → key_of env' pp' ≡ key_of env pp
      → env'.now ≤ env.now + d₁.ttl
      → (handle_publish env' pp' st').0.broker.registry ≡ st'.broker.registry
  handle_publish-once env env' pp pp' st st₁ st' d d₁ t may deduped room unknown h same may' there
        key soon =
      let (m, recorded) =
        publish_allowed-recorded env pp st st₁ d d₁ deduped unknown
          (sym (handle_publish-allowed env pp st may) ∙ h) in
      let d₂ = Dedup.remember env.now (key_of env pp) m.server_msg_id m.seq d₁ in
      let found =
        check-remember env.now env.now env'.now m.seq (key_of env pp) m.server_msg_id d d₁ unknown
          room soon in
      let known : Dedup.check env'.now (key_of env' pp') d₂ ≡ (
        (Dedup.check env'.now (key_of env' pp') d₂).0,
        some (Dedup.fresh_entry env.now m.server_msg_id m.seq d₁),
      ) =
        ap (λ (o : Option Dedup.Entry). ((Dedup.check env'.now (key_of env' pp') d₂).0, o))
          (rw key found) in
      rw (handle_publish-allowed env' pp' st' may') (
        publish_allowed-duplicate env' pp' st' t d₂ _ _ there
          (ap (λ (x : Broker Db). x.dedup) same ∙ recorded) known)
