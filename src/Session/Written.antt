-- ===== src/Session/Written.antt =====
-- core/transport/mqtt/session.go, `deliverMessage`, on a connection that takes every frame: what it
-- writes.
use broker_message.Base.{
  ℕ, ◌≤◌, ◌≡◌, refl, sym, ap, subst, ◌∙◌, arith, false, Option, some, none, [], ◌∷◌, ◌++◌, List,
  ◌==◌, if◌then◌else◌, Bool-cases, Option-cases, inl, inr, Bytes, Result, ok,
}
use broker_message.Storage.{Badger}
use broker_message.Topic.{Message}
use broker_message.Packet.Write.{write_publish}
use broker_message.Session.{
  State, Session, Env, SessionError, Metric, alloc_loop, packet_ids, alloc_packet_id, count, write,
  write_conn, deliver_total, good, failed,
}
use broker_message.Session.Deliver.{
  wire_of, take_packet_id, allocate, keep_inflight, write_counted, deliver_qos0, deliver_qos1,
  deliver_message,
}
use broker_message.Session.AckLaws.{IsPacketId, alloc_loop-free, set_offset-session}
use broker_message.Session.Retransmission.{open_conn}

some_or {ℓ} : {A : Type ℓ} → A → Option A → A
some_or a none = a
some_or a (some x) = x

pub alloc_packet_id-eq-some :
    (s s' : Session) (pid : ℕ)
    → IsPacketId s.next_pkt_id
    → alloc_packet_id s ≡ some (pid, s')
    → IsPacketId pid × (s'.conn ≡ s.conn) × IsPacketId s'.next_pkt_id
unfolding alloc_packet_id some_or
alloc_packet_id-eq-some s s' pid r h =
    elim (Option-cases (alloc_loop packet_ids s.next_pkt_id s.inflight)) [
      | inl stuck ↦ absurd (cc (rw (stuck, alloc_packet_id) at h))
      | inr (found, e) ↦
          let (_, is_id, is_next) = alloc_loop-free packet_ids s.next_pkt_id s.inflight found r e in
          let same : some (found.0, record s { next_pkt_id = found.1 }) ≡ some (pid, s') =
            sym (rw (e, alloc_packet_id) refl) ∙ h in
          let pair : Path (ℕ × Session) (found.0, record s { next_pkt_id = found.1 }) (pid, s') =
            ap (some_or (pid, s')) same in
          let id : found.0 ≡ pid = ap (λ (x : ℕ × Session). x.0) pair in
          (
            rw (← id) is_id,
            ap (λ (x : ℕ × Session). x.1.conn) (sym pair),
            subst (λ (x : ℕ × Session). IsPacketId x.1.next_pkt_id) pair is_next,
          )
    ]

module _ {Db : Type 0} ⦃b : Badger Db⦄ where
  pub write_counted-open :
      (frame : Bytes) (a o : Metric) (frames : List Bytes) (st : State Db)
      → st.session.conn ≡ open_conn frames
      → write_counted frame a o st ≡ (
        count o (record st {
          session = record st.session { conn = open_conn (frames ++ (frame ∷ [])) };
        }),
        ok tt,
      )
  unfolding write_counted write write_conn
  write_counted-open frame a o frames st h = rw h refl

  -- The session behind a delivery: one more frame has been written, the PUBLISH of the message with
  -- some packet id.
  abbrev pub Wrote : Env Db → Message → ℕ → List Bytes → Session → Type 0
  Wrote env m qos frames s =
      (pid : ℕ) × (pid ≤ 65535)
      × (s.conn
          ≡ open_conn (
              frames
              ++ (write_publish m.topic (wire_of env.fresh_idempotency env.now m) qos pid false
                  ∷ [])))
      × IsPacketId s.next_pkt_id

  deliver_qos1-writes :
      (env : Env Db) (topic : Bytes) (m : Message) (frames : List Bytes) (st st' : State Db)
      → st.session.conn ≡ open_conn frames
      → IsPacketId st.session.next_pkt_id
      → deliver_qos1 env topic m st ≡ (st', ok tt)
      → Wrote env m 1 frames st'.session
  unfolding deliver_qos1 allocate take_packet_id keep_inflight
  deliver_qos1-writes env topic m frames st st' o r h =
      elim (Option-cases (alloc_packet_id st.session)) [
        | inl stuck ↦ cc (rw stuck at h)
        | inr ((pid, s'), e) ↦
            let (is_id, same, is_next) = alloc_packet_id-eq-some st.session s' pid r e in
            let wire = wire_of env.fresh_idempotency env.now m in
            let kept =
              keep_inflight pid
                (record {
                  topic_name = m.topic;
                  seq = m.seq;
                  wire = wire;
                  qos = 1;
                  sent_at = env.now;
                  topic_ref = topic;
                })
                (record st { session = s' }) in
            let sending =
              write_counted-open (write_publish m.topic wire 1 pid false)
                (deliver_total topic 1 failed) (deliver_total topic 1 good) frames kept
                (same ∙ o) in
            let written = sym sending ∙ rw e at h in
            subst
              (λ (x : State Db × Result SessionError (Unit {0})). Wrote env m 1 frames x.0.session)
              written (pid, is_id.1, refl, is_next)
      ]

  deliver_qos0-writes :
      (env : Env Db) (topic : Bytes) (m : Message) (frames : List Bytes) (st st' : State Db)
      → st.session.conn ≡ open_conn frames
      → IsPacketId st.session.next_pkt_id
      → deliver_qos0 env topic m st ≡ (st', ok tt)
      → Wrote env m 0 frames st'.session
  unfolding deliver_qos0
  deliver_qos0-writes env topic m frames st st' o r h =
      let frame = write_publish m.topic (wire_of env.fresh_idempotency env.now m) 0 0 false in
      let sending =
        write_counted-open frame (deliver_total topic 0 failed) (deliver_total topic 0 good) frames
          st o in
      let st₁ =
        count (deliver_total topic 0 good) (record st {
          session = record st.session { conn = open_conn (frames ++ (frame ∷ [])) };
        }) in
      let session : st₁.session ≡ st'.session =
        sym (set_offset-session topic m.seq st₁)
        ∙ ap (λ (x : State Db × Result SessionError (Unit {0})). x.0.session) (rw sending at h) in
      subst (Wrote env m 0 frames) session (0, omega arith, refl, r)

  -- A message that is delivered on a connection that takes every frame is the next PUBLISH on it,
  -- at QoS 1 with a packet id and else at QoS 0 without one.
  pub deliver_message-writes :
      (env : Env Db) (topic : Bytes) (m : Message) (qos : ℕ) (frames : List Bytes)
      (st st' : State Db)
      → st.session.conn ≡ open_conn frames
      → IsPacketId st.session.next_pkt_id
      → deliver_message env topic m qos st ≡ (st', ok tt)
      → Wrote env m (if qos == 1 then 1 else 0) frames st'.session
  unfolding deliver_message
  deliver_message-writes env topic m qos frames st st' o r h = elim (Bool-cases (qos == 1)) [
    | inl one ↦ rw one (deliver_qos1-writes env topic m frames st st' o r (rw one at h))
    | inr other ↦ rw other (deliver_qos0-writes env topic m frames st st' o r (rw other at h))
  ]
