-- ===== src/Session/AfterPurge.antt =====
-- core/topic/topic.go, `Purge`, and core/transport/mqtt/session.go: what a subscriber gets afterwards.
use broker_message.Base.{
  ◌+◌, ◌%◌, ◌^◌, ◌≤◌, ◌<◌, ◌≡◌, refl, sym, ap, ◌∙◌, Bool, true, some, [], arith, le→leb, Bool-cases,
  inl, inr, Bytes, bytes_key, ok,
}
use broker_message.Envelope.{Envelope}
use broker_message.Storage
use broker_message.Storage.{Badger}
use broker_message.Offsets
use broker_message.Topic.{Topic, Message, delete_keys, collect_key, purge, publish}
use broker_message.Topic.Keys.{msg_key_prefix}
use broker_message.Topic.Publishing.{publish-eq-ok}
use broker_message.Registry
use broker_message.Session.{State, Env, Reader}
use broker_message.Session.Deliver.{client_offset, receive}
use broker_message.Session.AckLaws.{client_offset-found}

module _ {Db : Type 0} ⦃b : Badger Db⦄ where
  -- A purge that succeeds starts the numbers anew and keeps the offsets.
  purge-kept : (t t' : Topic Db) → purge t ≡ (t', true) → (t'.seq ≡ 0) × (t'.offsets ≡ t.offsets)
  unfolding purge
  purge-kept t t' h =
      elim (Bool-cases (delete_keys (Storage.scan t.db msg_key_prefix collect_key []).0 t.db).1) [
        | inl e ↦
            let done = rw e at h in
            (
              ap (λ (x : Topic Db × Bool). x.0.seq) (sym done),
              ap (λ (x : Topic Db × Bool). x.0.offsets) (sym done),
            )
        | inr e ↦ let lost = rw e at h in absurd cc
      ]

  receive-seen :
      (env : Env Db) (r : Reader) (m : Message) (st : State Db)
      → m.seq ≤ client_offset r.topic st
      → receive env r m st ≡ (st, ok tt)
  unfolding receive
  receive-seen env r m st h = rw (le→leb m.seq (client_offset r.topic st) h) refl

  -- After a purge that succeeds, the first message that is published is not delivered to a client that
  -- had an offset in the topic: the goroutine of its subscription drops it.
  pub receive-after_purge :
      (fresh : Bytes) (t t' t'' : Topic Db) (v : Envelope) (m : Message) (env : Env Db) (r : Reader)
      (st : State Db)
      → purge t ≡ (t', true)
      → publish fresh t' v ≡ (t'', ok m)
      → 0 < Offsets.get t.offsets st.session.client_id
      → Registry.get st.broker.registry r.topic ≡ some t''
      → receive env r m st ≡ (st, ok tt)
  receive-after_purge fresh t t' t'' v m env r st purged published had there =
      let (zero_seq, same) = purge-kept t t' purged in
      let (is_next, is_advanced, _) = publish-eq-ok fresh t' t'' v m published in
      let first : m.seq ≡ (t'.seq + 1) % 2 ^ 64 = ap (λ (x : Message). x.seq) is_next in
      let kept : t''.offsets ≡ t.offsets = ap (λ (x : Topic Db). x.offsets) is_advanced ∙ same in
      let offset : client_offset r.topic st ≡ Offsets.get t.offsets st.session.client_id =
        client_offset-found r.topic st t'' there
        ∙ ap (λ (o : Offsets.Offsets). Offsets.get o st.session.client_id) kept in
      receive-seen env r m st (omega arith)
