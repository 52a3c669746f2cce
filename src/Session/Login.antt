-- ===== src/Session/Login.antt =====
-- core/transport/mqtt/session.go: a connection whose CONNECT is refused.
use broker_message.Base.{
  ℕ, ◌≡◌, refl, Bool, true, false, Option, some, [], Bool-cases, inl, inr, Bytes, ok, err,
}
use broker_message.Auth.{User, Store, authenticate}
use broker_message.Storage.{Badger}
use broker_message.Packet.{ConnectPacket, connect, conn_refused_bad_credentials}
use broker_message.Packet.Read.{read_packet}
use broker_message.Packet.Write.{write_conn_ack}
use broker_message.Session.{
  State, Env, auth_failed, write, write_conn, count, close, connections_inc, connections_dec,
}
use broker_message.Session.Subscribe.{cleanup_subs, end_each, sync_session_topics}
use broker_message.Session.Handle.{
  set_client_id, logged_in, log_in, handle_connect, connected, first_packet, handle, ended, stopped,
  deferred,
}

module _ {Db : Type 0} ⦃b : Badger Db⦄ where
  -- The clean-up of a session without subscriptions touches no topic and no key.
  cleanup_subs-none :
      (st : State Db)
      → st.session.subs ≡ []
      → ((cleanup_subs st).broker.registry ≡ st.broker.registry)
        × ((cleanup_subs st).broker.dedup ≡ st.broker.dedup)
        × ((cleanup_subs st).session.conn ≡ st.session.conn)
  unfolding cleanup_subs end_each sync_session_topics
  cleanup_subs-none st h = elim (Bool-cases st.session.has_owner) [
    | inl e ↦ rw (h, e) (refl, refl, refl)
    | inr e ↦ rw (h, e) (refl, refl, refl)
  ]

  module _ (bcrypt_ok : Bytes → Bytes → Bool) where
    -- The state behind a refused login: the client id is set, and the refusal has been written.
    abbrev pub refused : ConnectPacket → State Db → State Db
    refused cp st =
        (write (write_conn_ack false conn_refused_bad_credentials)
          (set_client_id bcrypt_ok cp.client_id st)).0

    handle_connect-refused :
        (cp : ConnectPacket) (st : State Db) (store : Store) (u : Option User)
        → st.session.auth_store ≡ some store
        → st.session.auth_req ≡ true
        → authenticate bcrypt_ok (some store) cp.username cp.password ≡ (u, false)
        → handle_connect bcrypt_ok cp st ≡ (refused cp st, err auth_failed)
    unfolding handle_connect log_in logged_in
    handle_connect-refused cp st store u h r a = rw (h, r, a) refl

    module _ (env : ℕ → Env Db) where
      handle-refused_eq :
          (src rest : Bytes) (cp : ConnectPacket) (st : State Db)
          → read_packet src ≡ ok (connect cp, rest)
          → handle_connect bcrypt_ok cp (count connections_inc st)
            ≡ (refused cp (count connections_inc st), err auth_failed)
          → handle bcrypt_ok env src st
            ≡ ended (
                let st₃ = cleanup_subs (refused cp (count connections_inc st)) in
                count connections_dec (record st₃ { session = close st₃.session }))
      unfolding handle first_packet connected stopped deferred
      handle-refused_eq src rest cp st e h = rw (e, handle) (rw h refl)

      -- `Handle` ends on a connection whose first packet is a CONNECT that the user store refuses, and
      -- changes no topic and no key, whatever bytes follow: the connection gets one frame, the refusal,
      -- if that can be written. The session is new: it has no subscription.
      pub handle-refused :
          (src rest : Bytes) (cp : ConnectPacket) (st : State Db) (store : Store) (u : Option User)
          → read_packet src ≡ ok (connect cp, rest)
          → st.session.subs ≡ []
          → st.session.auth_store ≡ some store
          → st.session.auth_req ≡ true
          → authenticate bcrypt_ok (some store) cp.username cp.password ≡ (u, false)
          → (st' : State Db) × (handle bcrypt_ok env src st ≡ ended st')
            × (st'.broker.registry ≡ st.broker.registry)
            × (st'.broker.dedup ≡ st.broker.dedup)
            × (st'.session.conn
                ≡ (write_conn
                    (write_conn_ack false conn_refused_bad_credentials)
                    st.session.conn).0)
      unfolding write
      handle-refused src rest cp st store u e n h r a =
          let st₂ = refused cp (count connections_inc st) in
          let st₃ = cleanup_subs st₂ in
          (
            count connections_dec (record st₃ { session = close st₃.session }),
            handle-refused_eq src rest cp st e
                (handle_connect-refused cp (count connections_inc st) store u h r a),
            (cleanup_subs-none st₂ n).0,
            (cleanup_subs-none st₂ n).1,
            (cleanup_subs-none st₂ n).2,
          )
