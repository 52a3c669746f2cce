-- ===== src/Session/Backlog.antt =====
-- core/transport/mqtt/session.go, `handleSubscribe`: what a client that subscribes to a topic gets of
-- the messages before.
use broker_message.Base.{
  ℕ, zero, suc, ◌+◌, ◌^◌, ◌≤◌, ◌<◌, ◌≡◌, refl, sym, ap, subst, ◌∙◌, arith, true, Option-cases, some,
  [], ◌∷◌, ◌++◌, List, Bool-cases, inl, inr, Bytes, bytes_key, Result, ok, append_assoc, take,
  length, All, lookup,
}
use broker_message.Storage.{Badger}
use broker_message.Offsets
use broker_message.Topic
use broker_message.Topic.{Topic, Message}
use broker_message.Topic.Keys.{msg_key, msg_key_prefix}
use broker_message.Topic.Log.{Stored, from_seq, from_seq-All}
use broker_message.Topic.Refinement.{Refines, CanIterate}
use broker_message.Registry
use broker_message.Packet.{TopicFilter}
use broker_message.Packet.Write.{write_sub_ack}
use broker_message.Session.{State, Env, Session, SessionError, write, write_conn}
use broker_message.Session.Publish.{set_topic}
use broker_message.Session.Subscribe.{
  Pending, may_subscribe, effective_qos, catch_up_limit, catch_up_of, change_topic, end_old,
  set_sub, end_subscription, open_subscription, open_subscriptions, deliver_all, catch_up_all,
  handle_subscribe, start_readers, sync_session_topics,
}
use broker_message.Session.Retransmission.{open_conn}
use broker_message.Session.Once.{get_or_create-there}
use broker_message.Session.CatchUp.{HasIds, publishes, catch_up_of-Refines, deliver_all-writes}

take-All : (P : Message → Type 0) (n : ℕ) (ms : List Message) → All P ms → All P (take n ms)
take-All P zero ms a = tt
take-All P (suc n) [] a = tt
take-All P (suc n) (m ∷ ms) a = (a.0, take-All P n ms a.1)

take-short : (n : ℕ) (ms : List Message) → length (take n ms) ≤ n
take-short zero ms = omega arith
take-short (suc n) [] = omega arith
take-short (suc n) (m ∷ ms) = omega (arith, take-short n ms)

module _ {Db : Type 0} ⦃b : Badger Db⦄ where
  pub end_subscription-session :
      (name : Bytes) (st : State Db) → (end_subscription name st).session ≡ st.session
  unfolding end_subscription end_old change_topic
  end_subscription-session name st = elim (Option-cases (lookup name st.session.subs)) [
    | inl e ↦ rw e refl
    | inr (chan, e) ↦ elim (Option-cases (Registry.get st.broker.registry name)) [
      | inl e' ↦ rw (e, e') refl
      | inr (t, e') ↦ rw (e, e') refl
    ]
  ]

  -- The messages that the topic holds behind the client's offset, 500 at most.
  abbrev pub backlog : Topic Db → Bytes → List Message → List Message
  backlog t id log = take catch_up_limit (from_seq (Offsets.get t.offsets id + 1) log)

  abbrev opened_with :
      State Db → TopicFilter → ℕ → List Message → State Db × Result SessionError Pending
  opened_with st tf chan ms = (
    st,
    ok (record { topic = tf.filter; chan = chan; catch_up = ms; qos = effective_qos tf.qos }),
  )

  open_subscription-there :
      (env : Env Db) (tf : TopicFilter) (t : Topic Db) (log : List Message) (st : State Db)
      → Registry.get st.broker.registry tf.filter ≡ some t
      → Refines t log
      → t.seq < 2 ^ 64
      → CanIterate t.db msg_key_prefix (msg_key (Offsets.get t.offsets st.session.client_id + 1))
      → (st' : State Db) × (open_subscription env tf st
          ≡ opened_with st' tf (Topic.subscribe t).1 (backlog t st.session.client_id log))
        × ((st'.session.conn ≡ st.session.conn)
            × (st'.session.next_pkt_id ≡ st.session.next_pkt_id)
            × (st'.session.inflight ≡ st.session.inflight))
  unfolding open_subscription Topic.subscribe
  open_subscription-there env tf t log st there r room readable =
      let t' = (Topic.subscribe t).0 in
      let r' : Refines t' log = record {
        held = r.held;
        read_back = r.read_back;
        up_to = r.up_to;
      } in
      let st₁ = end_subscription tf.filter (set_topic tf.filter t' st) in
      let same = end_subscription-session tf.filter (set_topic tf.filter t' st) in
      let found = catch_up_of-Refines t' log st.session.client_id r' room readable in
      (
        set_sub tf.filter (Topic.subscribe t).1 (effective_qos tf.qos) st₁,
        rw (get_or_create-there env tf.filter st t there) (
            ap
              (λ (ms : List Message).
                opened_with (set_sub tf.filter (Topic.subscribe t).1 (effective_qos tf.qos) st₁) tf
                  (Topic.subscribe t).1 ms)
              (ap (λ (s : Session). catch_up_of t' s.client_id) same ∙ found)),
        (
          ap (λ (s : Session). s.conn) same,
          ap (λ (s : Session). s.next_pkt_id) same,
          ap (λ (s : Session). s.inflight) same,
        ),
      )

  pub sync-session : (st : State Db) → (sync_session_topics st).session ≡ st.session
  unfolding sync_session_topics
  sync-session st = elim (Bool-cases st.session.has_owner) [ inl e ↦ rw e refl | inr e ↦ rw e refl ]

  write-open :
      (frame : Bytes) (frames : List Bytes) (st : State Db)
      → st.session.conn ≡ open_conn frames
      → write frame st ≡ (
        record st { session = record st.session { conn = open_conn (frames ++ (frame ∷ [])) } },
        ok tt,
      )
  unfolding write write_conn
  write-open frame frames st h = rw h refl

  -- The parts of a call with one filter that may be subscribed to.
  handle_subscribe-steps :
      (env : Env Db) (tf : TopicFilter) (pid : ℕ) (frames : List Bytes) (st st₁ st₂ : State Db)
      (p : Pending)
      → may_subscribe st.session.user tf.filter ≡ true
      → open_subscription env tf st ≡ (st₁, ok p)
      → st₁.session.conn ≡ open_conn frames
      → deliver_all env p.topic p.qos p.catch_up (
          sync_session_topics (record st₁ {
            session = record st₁.session {
              conn = open_conn (frames ++ (write_sub_ack pid (p.qos ∷ []) ∷ []));
            };
          }))
        ≡ (st₂, ok tt)
      → handle_subscribe env (record { packet_id = pid; topics = tf ∷ [] }) st
        ≡ (start_readers (record { topic = p.topic; chan = p.chan; qos = p.qos } ∷ []) st₂, ok tt)
  unfolding handle_subscribe open_subscriptions catch_up_all
  handle_subscribe-steps env tf pid frames st st₁ st₂ p allowed opened o sent =
      rw (allowed, opened, write-open (write_sub_ack pid (p.qos ∷ [])) frames st₁ o, sent) refl

  -- A client that subscribes to a topic that the registry knows gets the SUBACK with the QoS, at most
  -- 1, and then, as PUBLISH packets in the order of their numbers, the messages of the topic that are
  -- behind its offset, 500 at most, and the call succeeds: for a user who may subscribe, a topic whose
  -- database can be read, a connection that takes every frame, and a session in which no packet id from
  -- the next one on is in use and 500 can follow it.
  pub handle_subscribe-backlog :
      (env : Env Db) (tf : TopicFilter) (pid : ℕ) (t : Topic Db) (log : List Message)
      (frames : List Bytes) (st : State Db)
      → may_subscribe st.session.user tf.filter ≡ true
      → Registry.get st.broker.registry tf.filter ≡ some t
      → Refines t log
      → t.seq < 2 ^ 64
      → CanIterate t.db msg_key_prefix (msg_key (Offsets.get t.offsets st.session.client_id + 1))
      → st.session.conn ≡ open_conn frames
      → HasIds catch_up_limit st.session
      → (st' : State Db) × (handle_subscribe env (record { packet_id = pid; topics = tf ∷ [] }) st
          ≡ (st', ok tt))
        × (st'.session.conn
            ≡ open_conn (
                frames
                ++ (write_sub_ack pid (effective_qos tf.qos ∷ [])
                    ∷ publishes
                        (effective_qos tf.qos)
                        st.session.next_pkt_id
                        (backlog t st.session.client_id log))))
  handle_subscribe-backlog env tf pid t log frames st allowed there r room readable o ids =
      let qos = effective_qos tf.qos in
      let ms = backlog t st.session.client_id log in
      let ack = write_sub_ack pid (qos ∷ []) in
      let (st₁, opened, (conn, next, inflight)) =
        open_subscription-there env tf t log st there r room readable in
      let st₂ : State Db = record st₁ {
        session = record st₁.session { conn = open_conn (frames ++ (ack ∷ [])) };
      } in
      let same = sync-session st₂ in
      let st₃ = sync_session_topics st₂ in
      let ids' : HasIds (length ms) st₃.session = subst (HasIds (length ms)) (sym same) (record {
        is_set = omega (arith, next, ids.is_set);
        room = omega (
          arith,
          next,
          ids.room,
          take-short catch_up_limit (from_seq (Offsets.get t.offsets st.session.client_id + 1) log),
        );
        unused = λ j above. rw inflight (ids.unused j (omega (arith, next, above)));
      }) in
      let (st₄, sent, conn') =
        deliver_all-writes env t.name tf.filter qos ms (frames ++ (ack ∷ [])) st₃
          (take-All (Stored t.name) catch_up_limit
            (from_seq (Offsets.get t.offsets st.session.client_id + 1) log)
            (from_seq-All t.name (Offsets.get t.offsets st.session.client_id + 1) log r.read_back))
          (ap (λ (s : Session). s.conn) same) ids' in
      (
        start_readers (record { topic = tf.filter; chan = (Topic.subscribe t).1; qos = qos } ∷ [])
            st₄,
        handle_subscribe-steps env tf pid frames st st₁ st₄
            (record { topic = tf.filter; chan = (Topic.subscribe t).1; catch_up = ms; qos = qos })
            allowed opened (conn ∙ o) sent,
        conn'
            ∙ ap (λ (n : ℕ). open_conn ((frames ++ (ack ∷ [])) ++ publishes qos n ms))
                (ap (λ (s : Session). s.next_pkt_id) same ∙ next)
            ∙ ap open_conn
                (append_assoc frames (ack ∷ []) (publishes qos st.session.next_pkt_id ms)),
      )
