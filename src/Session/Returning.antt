-- ===== src/Session/Returning.antt =====
-- core/transport/mqtt/session.go: which handlers return.
use broker_message.Base.{
  ℕ, ◌≡◌, refl, Bool, true, false, Option, some, none, Option-cases, List, [], ◌∷◌, Bool-cases, inl,
  inr, Bytes, remove, nat_key, bytes_key,
}
use broker_message.Auth.{User, authenticate}
use broker_message.Exec.{modify, ◌>>◌}
use broker_message.Storage.{Badger}
use broker_message.Packet.{
  UnsubscribePacket, Packet, connect, publish, pub_ack, subscribe, unsubscribe, ping_req,
  disconnect, ConnectPacket, conn_accepted,
}
use broker_message.Packet.Write.{write_unsub_ack, write_ping_resp, write_conn_ack}
use broker_message.Session.{State, Env, InflightMsg, count, inflight_dec, write}
use broker_message.Session.AckLaws.{set_offset-session}
use broker_message.Session.Backlog.{end_subscription-session, sync-session}
use broker_message.Session.Deliver.{set_offset}
use broker_message.Session.Subscribe.{
  drop_sub, end_subscription, sync_session_topics, unsubscribe_all, handle_unsubscribe,
}
use broker_message.Session.Acks.{set_inflight, acked, handle_pub_ack}
use broker_message.Session.Handle.{
  dispatch, set_client_id, logged_in, log_in, announce, handle_connect,
}
use broker_message.Session.Searching.{same-HasNext, HasNext, Sound, continue-Sound, write-Sound}
use broker_message.Session.PublishReturns.{handle_publish-Sound}
use broker_message.Session.SubscribeReturns.{handle_subscribe-Sound}

module _ {Db : Type 0} ⦃b : Badger Db⦄ where
  unsubscribe_all-HasNext :
      (names : List Bytes) (st : State Db) → HasNext st → HasNext (unsubscribe_all names st)
  unfolding unsubscribe_all
  unsubscribe_all-HasNext [] st h = h
  unsubscribe_all-HasNext (name ∷ names) st h =
      unsubscribe_all-HasNext names (drop_sub name (end_subscription name st))
        (same-HasNext st (end_subscription name st) (end_subscription-session name st) h)

  handle_unsubscribe-Sound :
      (up : UnsubscribePacket) (st : State Db) → HasNext st → Sound (handle_unsubscribe up st)
  unfolding handle_unsubscribe
  handle_unsubscribe-Sound up st h =
      let st₁ = unsubscribe_all up.topics st in
      write-Sound (write_unsub_ack up.packet_id) (sync_session_topics st₁) (
        same-HasNext st₁ (sync_session_topics st₁) (sync-session st₁)
          (unsubscribe_all-HasNext up.topics st h))

  handle_pub_ack-HasNext :
      (pid : ℕ) (o : Option InflightMsg) (st : State Db) → HasNext st → HasNext (acked pid o st)
  unfolding acked
  handle_pub_ack-HasNext pid none st h = h
  handle_pub_ack-HasNext pid (some m) st h =
      let st₁ = count inflight_dec (set_inflight (remove pid st.session.inflight) st) in
      same-HasNext st₁ (set_offset m.topic_ref m.seq st₁) (set_offset-session m.topic_ref m.seq st₁)
        h

  pub dispatch-Sound :
      (bcrypt_ok : Bytes → Bytes → Bool) (env : Env Db) (p : Packet) (st : State Db)
      → HasNext st
      → Sound (dispatch bcrypt_ok env p st)
  unfolding dispatch handle_pub_ack
  dispatch-Sound bcrypt_ok env (publish pp) st h = handle_publish-Sound env pp st h
  dispatch-Sound bcrypt_ok env (subscribe sp) st h = handle_subscribe-Sound env sp st h
  dispatch-Sound bcrypt_ok env (unsubscribe up) st h = handle_unsubscribe-Sound up st h
  dispatch-Sound bcrypt_ok env (pub_ack pid) st h = record {
    next = handle_pub_ack-HasNext pid _ st h;
    only_full = tt;
  }
  dispatch-Sound bcrypt_ok env ping_req st h = write-Sound write_ping_resp st h
  dispatch-Sound bcrypt_ok env disconnect st h = record { next = h; only_full = tt }
  dispatch-Sound bcrypt_ok env (connect cp) st h = record { next = h; only_full = tt }

  module _ (bcrypt_ok : Bytes → Bytes → Bool) where
    logged_in-Sound :
        (r : Option User × Bool) (st : State Db) → HasNext st → Sound (logged_in bcrypt_ok r st)
    unfolding logged_in write
    logged_in-Sound (u, true) st h = record { next = h; only_full = tt }
    logged_in-Sound (u, false) st h = record { next = h; only_full = tt }

    log_in-Sound :
        (cp : ConnectPacket) (st : State Db) → HasNext st → Sound (log_in bcrypt_ok cp st)
    unfolding log_in
    log_in-Sound cp st h = elim (Option-cases st.session.auth_store) [
      | inl none_set ↦ rw none_set (record { next = h; only_full = tt })
      | inr (store, e) ↦ elim (Bool-cases st.session.auth_req) [
        | inl asks ↦
            rw (e, asks)
              (logged_in-Sound (authenticate bcrypt_ok (some store) cp.username cp.password) _ h)
        | inr free ↦ rw (e, free) (record { next = h; only_full = tt })
      ]
    ]

    announce-session :
        (cp : ConnectPacket) (st : State Db) → (announce bcrypt_ok cp st).session ≡ st.session
    unfolding announce
    announce-session cp st = elim (Bool-cases st.session.has_owner) [
      | inl e ↦ rw e refl
      | inr e ↦ rw e refl
    ]

    pub handle_connect-Sound :
        (cp : ConnectPacket) (st : State Db) → HasNext st → Sound (handle_connect bcrypt_ok cp st)
    unfolding handle_connect
    handle_connect-Sound cp st h =
        continue-Sound (log_in bcrypt_ok cp (set_client_id bcrypt_ok cp.client_id st))
          (λ u. modify (announce bcrypt_ok cp) >> write (write_conn_ack false conn_accepted))
          (log_in-Sound cp (set_client_id bcrypt_ok cp.client_id st) h)
          (λ u st₁ h₁.
            let st₂ = announce bcrypt_ok cp st₁ in
            write-Sound (write_conn_ack false conn_accepted) st₂
              (same-HasNext st₁ st₂ (announce-session cp st₁) h₁))
