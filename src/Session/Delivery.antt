-- ===== src/Session/Delivery.antt =====
-- core/transport/mqtt/session.go: deliveries and acknowledgements keep the messages of every topic.
use broker_message.Base.{
  ℕ, ◌≡◌, refl, false, Option, Option-cases, some, none, [], ◌∷◌, leb, ◌==◌, Bytes, Assoc, lookup,
  bytes_key, nat_key, put_uint64, Result, Result-cases, ok, err, Bool-cases, inl, inr,
}
use broker_message.Storage
use broker_message.Storage.{Badger}
use broker_message.Storage.Entries.{has_prefix}
use broker_message.Storage.Prefixes.{under, under-put_other}
use broker_message.Offsets
use broker_message.Topic.{Topic, Message}
use broker_message.Topic.Keys.{msg_key_prefix}
use broker_message.Registry
use broker_message.Session.{
  State, Env, InflightMsg, Reader, SessionError, Metric, write, count, alloc_loop, packet_ids,
  alloc_packet_id, deliver_total, good, failed,
}
use broker_message.Session.Deliver.{
  wire_of, set_offset, set_topic_offset, take_packet_id, allocate, keep_inflight, write_counted,
  deliver_qos0, deliver_qos1, deliver_message, client_offset, receive,
}
use broker_message.Exec.{modify}
use broker_message.Packet.Write.{write_publish}
use broker_message.Session.Acks.{acked, handle_pub_ack, resent, resend, retransmit_tick, overdue}
use broker_message.Session.Keeps.{
  Confined, Confined-refl, Confined-trans, still-Confined, continue-Confined, set_topic-Confined,
}

module _ {Db : Type 0} ⦃b : Badger Db⦄ (name : Bytes) where
  pub write-Confined : (frame : Bytes) (st : State Db) → Confined name st (write frame st).0
  write-Confined frame st =
      still-Confined name st (write frame st).0 (unfold write in refl) (unfold write in refl)

  pub count-Confined : (m : Metric) (st : State Db) → Confined name st (count m st)
  count-Confined m st = still-Confined name st (count m st) refl refl

  offset_stored :
      (t : Topic Db) (client_id : Bytes) (seq : ℕ)
      → under msg_key_prefix (b.entries (Offsets.set t.offsets t.db client_id seq).1)
        ≡ under msg_key_prefix (b.entries t.db)
  unfolding Offsets.set
  offset_stored t client_id seq =
      let key = Offsets.build_key client_id in
      let other : has_prefix msg_key_prefix key ≡ false = unfold has_prefix in refl in
      elim (Bool-cases (Storage.set t.db key (put_uint64 seq)).1) [
        | inl done ↦
            rw (b.set_commits t.db key (put_uint64 seq) done)
              (under-put_other msg_key_prefix key (put_uint64 seq) (b.entries t.db) other)
        | inr lost ↦ rw (b.set_aborts t.db key (put_uint64 seq) lost) refl
      ]

  set_topic_offset-Confined :
      (k client_id : Bytes) (seq : ℕ) (o : Option (Topic Db)) (st : State Db)
      → Registry.get st.broker.registry k ≡ o
      → Confined name st (set_topic_offset k client_id seq o st)
  unfolding set_topic_offset
  set_topic_offset-Confined k client_id seq none st h = Confined-refl name st
  set_topic_offset-Confined k client_id seq (some t) st h =
      let (offs, db) = Offsets.set t.offsets t.db client_id seq in
      set_topic-Confined name k (record t { offsets = offs; db = db }) st
        (rw h (refl, offset_stored t client_id seq))

  set_offset-Confined :
      (k : Bytes) (seq : ℕ) (st : State Db) → Confined name st (set_offset k seq st)
  unfolding set_offset
  set_offset-Confined k seq st =
      set_topic_offset-Confined k st.session.client_id seq (Registry.get st.broker.registry k) st
        refl

  write_counted-Confined :
      (frame : Bytes) (on_error on_success : Metric) (st : State Db)
      → Confined name st (write_counted frame on_error on_success st).0
  unfolding write_counted
  write_counted-Confined frame on_error on_success st = elim (Result-cases (write frame st).1) [
    | inl (u, e) ↦
        rw (e, write_counted)
          (Confined-trans name st (write frame st).0 _ (write-Confined frame st)
            (count-Confined on_success _))
    | inr (x, e) ↦
        rw (e, write_counted)
          (Confined-trans name st (write frame st).0 _ (write-Confined frame st)
            (count-Confined on_error _))
  ]

  allocate-Confined : (st : State Db) → Confined name st (allocate st).0
  unfolding allocate alloc_packet_id take_packet_id
  allocate-Confined st =
      elim (Option-cases (alloc_loop packet_ids st.session.next_pkt_id st.session.inflight)) [
        | inl e ↦ rw (e, allocate, alloc_packet_id) (Confined-refl name st)
        | inr (found, e) ↦ rw (e, allocate, alloc_packet_id) (still-Confined name st _ refl refl)
      ]

  keep_inflight-Confined :
      (pid : ℕ) (m : InflightMsg) (st : State Db) → Confined name st (keep_inflight pid m st)
  keep_inflight-Confined pid m st =
      still-Confined name st (keep_inflight pid m st) (unfold keep_inflight in refl)
        (unfold keep_inflight in refl)

  deliver_qos0-Confined :
      (env : Env Db) (topic : Bytes) (m : Message) (st : State Db)
      → Confined name st (deliver_qos0 env topic m st).0
  unfolding deliver_qos0
  deliver_qos0-Confined env topic m st =
      let wire = wire_of env.fresh_idempotency env.now m in
      let frame = write_publish m.topic wire 0 0 false in
      let sent =
        write_counted frame (deliver_total topic 0 failed) (deliver_total topic 0 good) st in
      continue-Confined name st sent (λ (u : Unit {0}). modify (set_offset topic m.seq))
        (write_counted-Confined frame (deliver_total topic 0 failed) (deliver_total topic 0 good)
          st)
        (λ u e. set_offset-Confined topic m.seq sent.0)

  deliver_qos1-Confined :
      (env : Env Db) (topic : Bytes) (m : Message) (st : State Db)
      → Confined name st (deliver_qos1 env topic m st).0
  unfolding deliver_qos1
  deliver_qos1-Confined env topic m st =
      continue-Confined name st (allocate st) _ (allocate-Confined st) (λ pid e.
        Confined-trans name _ _ _ (keep_inflight-Confined pid _ _) (write_counted-Confined _ _ _ _))

  pub deliver_message-Confined :
      (env : Env Db) (topic : Bytes) (m : Message) (qos : ℕ) (st : State Db)
      → Confined name st (deliver_message env topic m qos st).0
  unfolding deliver_message
  deliver_message-Confined env topic m qos st = elim (Bool-cases (qos == 1)) [
    | inl e ↦ rw e (deliver_qos1-Confined env topic m st)
    | inr e ↦ rw e (deliver_qos0-Confined env topic m st)
  ]

  pub receive-Confined :
      (env : Env Db) (r : Reader) (m : Message) (st : State Db)
      → Confined name st (receive env r m st).0
  unfolding receive
  receive-Confined env r m st = elim (Bool-cases (leb m.seq (client_offset r.topic st))) [
    | inl e ↦ rw e (Confined-refl name st)
    | inr e ↦ rw e (deliver_message-Confined env r.topic m r.qos st)
  ]

  acked-Confined :
      (pid : ℕ) (o : Option InflightMsg) (st : State Db) → Confined name st (acked pid o st)
  unfolding acked
  acked-Confined pid none st = Confined-refl name st
  acked-Confined pid (some msg) st =
      Confined-trans name st _ _ (still-Confined name st _ refl refl)
        (set_offset-Confined msg.topic_ref msg.seq _)

  pub handle_pub_ack-Confined : (pid : ℕ) (st : State Db) → Confined name st (handle_pub_ack pid st)
  unfolding handle_pub_ack
  handle_pub_ack-Confined pid st = acked-Confined pid (lookup pid st.session.inflight) st

  resent-Confined :
      (now pid : ℕ) (msg : InflightMsg) (r : State Db × Result SessionError (Unit {0}))
      (st : State Db)
      → Confined name st r.0
      → Confined name st (resent now pid msg r)
  unfolding resent
  resent-Confined now pid msg (st', err e) st h = h
  resent-Confined now pid msg (st', ok u) st h =
      Confined-trans name st st' _ h (still-Confined name st' _ refl refl)

  resend-Confined :
      (now : ℕ) (items : Assoc ℕ InflightMsg) (st : State Db)
      → Confined name st (resend now items st)
  unfolding resend
  resend-Confined now [] st = Confined-refl name st
  resend-Confined now ((pid, msg) ∷ items) st =
      Confined-trans name st _ _ (resent-Confined now pid msg _ st (write-Confined _ st))
        (resend-Confined now items _)

  pub retransmit_tick-Confined :
      (now : ℕ) (st : State Db) → Confined name st (retransmit_tick now st)
  unfolding retransmit_tick
  retransmit_tick-Confined now st = resend-Confined now (overdue now st.session.inflight) st
