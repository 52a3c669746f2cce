-- ===== src/Session/PublishReturns.antt =====
-- core/transport/mqtt/session.go: `handlePublish` returns.
use broker_message.Base.{
  ◌≡◌, refl, Bool, true, false, Option, some, none, Option-cases, ◌==◌, if◌then◌else◌, Bool-cases,
  inl, inr, Bytes, nat_key, bytes_key, Result, ok, err,
}
use broker_message.Exec.{◌>>=◌}
use broker_message.Dedup
use broker_message.Storage.{Badger}
use broker_message.Topic
use broker_message.Topic.{Topic, Message, TopicError}
use broker_message.Registry
use broker_message.Envelope.{Envelope}
use broker_message.Packet.{PublishPacket}
use broker_message.Packet.Write.{write_pub_ack}
use broker_message.Session.{State, Env, Handler}
use broker_message.Session.Publish.{
  may_publish, envelope_of, acknowledge, opened, get_or_create, checked, is_duplicate, remembered,
  remember, published, publish_to, publish_done, publish_duplicate, opened_or_counted,
  publish_allowed, handle_publish,
}
use broker_message.Session.Searching.{same-HasNext, HasNext, Sound, continue-Sound, write-Sound}

module _ {Db : Type 0} ⦃b : Badger Db⦄ where
  acknowledge-Sound : (pp : PublishPacket) (st : State Db) → HasNext st → Sound (acknowledge pp st)
  unfolding acknowledge
  acknowledge-Sound pp st h = elim (Bool-cases (pp.qos == 1)) [
    | inl e ↦ rw e (write-Sound (write_pub_ack pp.packet_id) st h)
    | inr e ↦ rw e (record { next = h; only_full = tt })
  ]

  remember-session :
      (env : Env Db) (id : Bytes) (m : Message) (st : State Db)
      → (remember env id m st).session ≡ st.session
  unfolding remember remembered
  remember-session env id m st = elim (Option-cases st.broker.dedup) [
    | inl e ↦ rw e refl
    | inr (d, e) ↦ rw e refl
  ]

  publish_done-Sound :
      (env : Env Db) (pp : PublishPacket) (e : Envelope) (m : Message) (st : State Db)
      → HasNext st
      → Sound (publish_done env pp e m st)
  unfolding publish_done
  publish_done-Sound env pp e m st h = acknowledge-Sound pp _ (
      same-HasNext st (remember env e.idempotency_id m st)
        (remember-session env e.idempotency_id m st) h)

  publish_duplicate-Sound :
      (pp : PublishPacket) (st : State Db) → HasNext st → Sound (publish_duplicate pp st)
  unfolding publish_duplicate
  publish_duplicate-Sound pp st h = acknowledge-Sound pp _ h

  checked-Sound :
      (o : Option (Dedup.Store Db × Option Dedup.Entry)) (st : State Db)
      → HasNext st
      → Sound (checked o st)
  unfolding checked
  checked-Sound none st h = record { next = h; only_full = tt }
  checked-Sound (some (d, none)) st h = record { next = h; only_full = tt }
  checked-Sound (some (d, some e)) st h = record { next = h; only_full = tt }

  pub opened-Sound :
      (name : Bytes) (r : Registry.Registry Db × Option (Topic Db)) (st : State Db)
      → HasNext st
      → Sound (opened name r st)
  unfolding opened
  opened-Sound name (r, none) st h = record { next = h; only_full = tt }
  opened-Sound name (r, some t) st h = record { next = h; only_full = tt }

  opened_or_counted-Sound :
      (pp : PublishPacket) (name : Bytes) (r : Registry.Registry Db × Option (Topic Db))
      (st : State Db)
      → HasNext st
      → Sound (opened_or_counted pp (opened name r st))
  unfolding opened opened_or_counted
  opened_or_counted-Sound pp name (r, none) st h = record { next = h; only_full = tt }
  opened_or_counted-Sound pp name (r, some t) st h = record { next = h; only_full = tt }

  published-Sound :
      (pp : PublishPacket) (r : Topic Db × Result TopicError Message) (st : State Db)
      → HasNext st
      → Sound (published pp r st)
  unfolding published
  published-Sound pp (t, ok m) st h = record { next = h; only_full = tt }
  published-Sound pp (t, err e) st h = record { next = h; only_full = tt }

  is_duplicate-Sound :
      (env : Env Db) (id : Bytes) (st : State Db) → HasNext st → Sound (is_duplicate env id st)
  unfolding is_duplicate
  is_duplicate-Sound env id st h = checked-Sound _ st h

  -- What follows the test of the key.
  abbrev if_new : Env Db → PublishPacket → Envelope → Topic Db → Bool → Handler Db (Unit {0})
  if_new env pp e t dup =
      if dup then publish_duplicate pp else (publish_to env pp t e >>= λ m. publish_done env pp e m)

  if_new-Sound :
      (env : Env Db) (pp : PublishPacket) (e : Envelope) (t : Topic Db) (dup : Bool) (st : State Db)
      → HasNext st
      → Sound (if_new env pp e t dup st)
  unfolding publish_to
  if_new-Sound env pp e t true st h = publish_duplicate-Sound pp st h
  if_new-Sound env pp e t false st h =
      continue-Sound (publish_to env pp t e st) (publish_done env pp e)
        (published-Sound pp (Topic.publish env.fresh_server t e) st h)
        (λ m st₁ h₁. publish_done-Sound env pp e m st₁ h₁)

  publish_allowed-Sound :
      (env : Env Db) (pp : PublishPacket) (st : State Db)
      → HasNext st
      → Sound (publish_allowed env pp st)
  unfolding publish_allowed get_or_create
  publish_allowed-Sound env pp st h =
      let e = envelope_of env.fresh_idempotency env.now pp.payload in
      let r = Registry.get_or_create env.open_dir pp.topic_name st.broker.registry in
      continue-Sound (opened_or_counted pp (opened pp.topic_name r st))
        (λ t. is_duplicate env e.idempotency_id >>= if_new env pp e t)
        (opened_or_counted-Sound pp pp.topic_name r st h)
        (λ t st₁ h₁.
          continue-Sound (is_duplicate env e.idempotency_id st₁) (if_new env pp e t)
            (is_duplicate-Sound env e.idempotency_id st₁ h₁)
            (λ dup st₂ h₂. if_new-Sound env pp e t dup st₂ h₂))

  pub handle_publish-Sound :
      (env : Env Db) (pp : PublishPacket) (st : State Db)
      → HasNext st
      → Sound (handle_publish env pp st)
  unfolding handle_publish
  handle_publish-Sound env pp st h = elim (Bool-cases (may_publish st.session.user pp.topic_name)) [
    | inl e ↦ rw e (publish_allowed-Sound env pp st h)
    | inr e ↦ rw e (record { next = h; only_full = tt })
  ]
