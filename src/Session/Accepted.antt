-- ===== src/Session/Accepted.antt =====
-- core/transport/mqtt/session.go: what a `handlePublish` that succeeds has done.
use broker_message.Base.{
  Bytes, ◌≡◌, refl, sym, ap, ◌∙◌, true, false, Option, some, none, Bool-cases, inl, inr, bytes_key,
  lookup-insert, bytes_eq_refl, ok-injective, Result, ok, err,
}
use broker_message.Exec.{bind-eq-ok}
use broker_message.Envelope.{Envelope}
use broker_message.Storage.{Badger}
use broker_message.Dedup
use broker_message.Topic
use broker_message.Topic.{Topic, Message, TopicError}
use broker_message.Registry
use broker_message.Packet.{PublishPacket}
use broker_message.Session.{State, Broker, Env, SessionError}
use broker_message.Session.Publish.{
  may_publish, envelope_of, set_topic, is_duplicate, checked, opened, get_or_create, remember,
  remembered, published, publish_to, publish_done, opened_or_counted, publish_allowed,
  handle_publish,
}
use broker_message.Session.Once.{key_of, acknowledge-broker, handle_publish-allowed}

module _ {Db : Type 0} ⦃b : Badger Db⦄ where
  -- What a publication that succeeds leaves.
  published-eq-ok :
      (pp : PublishPacket) (r : Topic Db × Result TopicError Message) (st st' : State Db)
      (m : Message)
      → published pp r st ≡ (st', ok m)
      → (t' : Topic Db) × (r ≡ (t', ok m)) × (st' ≡ set_topic pp.topic_name t' st)
  unfolding published
  published-eq-ok pp (t, ok m) st st' n h =
      let same : m ≡ n =
        ok-injective m n (ap (λ (x : State Db × Result SessionError Message). x.1) h) in
      (t, rw same refl, sym (ap (λ (x : State Db × Result SessionError Message). x.0) h))
  published-eq-ok pp (t, err e) st st' n h = cc

  remembered-registry :
      (d : Option (Dedup.Store Db)) (st : State Db)
      → (remembered d st).broker.registry ≡ st.broker.registry
  unfolding remembered
  remembered-registry none st = refl
  remembered-registry (some d) st = refl

  publish_done-registry :
      (env : Env Db) (pp : PublishPacket) (v : Envelope) (m : Message) (st : State Db)
      → (publish_done env pp v m st).0.broker.registry ≡ st.broker.registry
  unfolding publish_done remember
  publish_done-registry env pp v m st =
      ap (λ (x : Broker Db). x.registry) (acknowledge-broker pp _) ∙ remembered-registry _ st

  denied-not-ok :
      (env : Env Db) (pp : PublishPacket) (st st₁ : State Db)
      → handle_publish env pp st ≡ (st₁, ok tt)
      → may_publish st.session.user pp.topic_name ≡ true
  denied-not-ok env pp st st₁ h = elim (Bool-cases (may_publish st.session.user pp.topic_name)) [
    | inl may ↦ may
    | inr not_may ↦
        let refused = ap (λ (x : State Db × Result SessionError (Unit {0})). x.1) h in
        absurd (unfold handle_publish in cc (rw not_may at refused))
  ]

  checked-answer :
      (o : Option (Dedup.Store Db × Option Dedup.Entry)) (st st' : State Db)
      → (checked o st').1 ≡ (checked o st).1
  unfolding checked
  checked-answer none st st' = refl
  checked-answer (some (d, none)) st st' = refl
  checked-answer (some (d, some e)) st st' = refl

  -- The state with another registry.
  abbrev with_registry : Registry.Registry Db → State Db → State Db
  with_registry r st = record st { broker = record st.broker { registry = r } }

  is_duplicate-registry :
      (env : Env Db) (id : Bytes) (r : Registry.Registry Db) (st : State Db)
      → (is_duplicate env id (with_registry r st)).1 ≡ (is_duplicate env id st).1
  unfolding is_duplicate
  is_duplicate-registry env id r st = checked-answer _ st (with_registry r st)

  get_or_create-gives :
      (env : Env Db) (name : Bytes) (st : State Db) (r : Registry.Registry Db) (t : Topic Db)
      → Registry.get_or_create env.open_dir name st.broker.registry ≡ (r, some t)
      → get_or_create env name st ≡ (with_registry r st, ok t)
  unfolding get_or_create opened
  get_or_create-gives env name st r t h = rw h refl

  publish_allowed-new :
      (env : Env Db) (pp : PublishPacket) (st st₁ : State Db) (r : Registry.Registry Db)
      (t : Topic Db)
      → publish_allowed env pp st ≡ (st₁, ok tt)
      → Registry.get_or_create env.open_dir pp.topic_name st.broker.registry ≡ (r, some t)
      → (is_duplicate env (key_of env pp) st).1 ≡ ok false
      → (t' : Topic Db) × (m : Message) × (Topic.publish env.fresh_server t
            (envelope_of env.fresh_idempotency env.now pp.payload)
          ≡ (t', ok m))
        × (Registry.get st₁.broker.registry pp.topic_name ≡ some t')
  unfolding publish_allowed opened_or_counted publish_to
  publish_allowed-new env pp st st₁ r t h there new =
      let v = envelope_of env.fresh_idempotency env.now pp.payload in
      let name = pp.topic_name in
      let checked = is_duplicate env v.idempotency_id (with_registry r st) in
      let h₁ = rw (get_or_create-gives env name st r t there) at h in
      let h₂ = rw (is_duplicate-registry env v.idempotency_id r st ∙ new) at h₁ in
      let sending = published pp (Topic.publish env.fresh_server t v) checked.0 in
      let (st₂, m, sent, h₃) = bind-eq-ok sending _ h₂ in
      let (t', stored, same) = published-eq-ok pp _ checked.0 st₂ m sent in
      let registered =
        ap (λ (x : State Db × Result SessionError (Unit {0})). x.0.broker.registry) (sym h₃)
        ∙ publish_done-registry env pp v m st₂
        ∙ ap (λ (x : State Db). x.broker.registry) same in
      (
        t',
        m,
        stored,
        ap (λ (r : Registry.Registry Db). Registry.get r name) registered
            ∙ lookup-insert name name t' checked.0.broker.registry.topics
            ∙ rw (bytes_eq_refl name) refl,
      )

  -- A PUBLISH that succeeds, of a key that is no duplicate for the topic that `GetOrCreate` gives,
  -- has published its envelope to the topic, which the registry holds as it is then.
  pub handle_publish-new :
      (env : Env Db) (pp : PublishPacket) (st st₁ : State Db) (r : Registry.Registry Db)
      (t : Topic Db)
      → handle_publish env pp st ≡ (st₁, ok tt)
      → Registry.get_or_create env.open_dir pp.topic_name st.broker.registry ≡ (r, some t)
      → (is_duplicate env (key_of env pp) st).1 ≡ ok false
      → (t' : Topic Db) × (m : Message) × (Topic.publish env.fresh_server t
            (envelope_of env.fresh_idempotency env.now pp.payload)
          ≡ (t', ok m))
        × (Registry.get st₁.broker.registry pp.topic_name ≡ some t')
  handle_publish-new env pp st st₁ r t h there new =
      publish_allowed-new env pp st st₁ r t
        (sym (handle_publish-allowed env pp st (denied-not-ok env pp st st₁ h)) ∙ h) there new
