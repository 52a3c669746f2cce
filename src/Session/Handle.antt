-- ===== src/Session/Handle.antt =====
-- core/transport/mqtt/session.go: `handleConnect`, `dispatch` and `Handle`.
use broker_message.Base.{
  ℕ, zero, suc, Bool, true, false, Option, some, none, [], ◌∷◌, if◌then◌else◌, length, Bytes,
  bytes_eq, Result, ok, err,
}
use broker_message.Exec.{pure, raise, modify, ◌>>◌}
use broker_message.Auth.{User, authenticate}
use broker_message.Storage.{Badger}
use broker_message.Server
use broker_message.Packet.{
  Packet, ConnectPacket, connect, publish, pub_ack, subscribe, unsubscribe, ping_req, disconnect,
  conn_accepted, conn_refused_bad_credentials,
}
use broker_message.Packet.Read.{read_packet}
use broker_message.Packet.Write.{write_conn_ack, write_ping_resp}
use broker_message.Session.{
  Handler, State, Env, SessionError, count, write, close, auth_failed, disconnected, never_returns,
  connections_inc, connections_dec,
}
use broker_message.Session.Publish.{handle_publish}
use broker_message.Session.Subscribe.{handle_subscribe, handle_unsubscribe, cleanup_subs}
use broker_message.Session.Acks.{handle_pub_ack}

-- `"auto-" + remote`
abbrev pub auto_id : Bytes → Bytes
auto_id remote_addr = b'a' ∷ b'u' ∷ b't' ∷ b'o' ∷ b'-' ∷ remote_addr

abbrev pub user_name : Option User → Bytes → Bytes
user_name none username = username
user_name (some u) username = u.name

-- What becomes of `Handle`, with the state: it ends, or a handler does not return and it stands still.
-- A loop without fuel is neither.
pub data Course (Db : Type 0) : Type 0 where
  ended : State Db → Course Db
  stands : State Db → Course Db
  out_of_fuel : Course Db

module _ {Db : Type 0} ⦃b : Badger Db⦄ where
  unfoldable pub stopped : SessionError → State Db → Course Db
  stopped never_returns st = stands st
  stopped _ st = ended st

  -- The deferred calls of `Handle`, which are made when it ends.
  unfoldable pub deferred : Course Db → Course Db
  deferred (ended st) =
      let st₁ = cleanup_subs st in
      ended (count connections_dec (record st₁ { session = close st₁.session }))
  deferred (stands st) = stands st
  deferred out_of_fuel = out_of_fuel

module _ {Db : Type 0} ⦃b : Badger Db⦄ (bcrypt_ok : Bytes → Bytes → Bool) where
  abbrev pub set_client_id : Bytes → State Db → State Db
  set_client_id client_id st =
      let id = if bytes_eq client_id [] then auto_id st.session.remote_addr else client_id in
      record st { session = record st.session { client_id = id } }

  unfoldable pub logged_in : Option User × Bool → Handler Db (Unit {0})
  logged_in (u, true) st = (record st { session = record st.session { user = u } }, ok tt)
  logged_in (u, false) st =
      let (st', _) = write (write_conn_ack false conn_refused_bad_credentials) st in
      (st', err auth_failed)

  -- `if s.authReq && s.authStore != nil { … }`
  unfoldable pub log_in : ConnectPacket → Handler Db (Unit {0})
  unfolding logged_in
  log_in cp st = elim st.session.auth_store [
    | none ↦ (st, ok tt)
    | some store ↦
        (if st.session.auth_req
          then logged_in (authenticate bcrypt_ok (some store) cp.username cp.password) st
          else (st, ok tt))
  ]

  unfoldable pub announce : ConnectPacket → State Db → State Db
  announce cp st =
      if st.session.has_owner
      then record st {
        broker = record st.broker {
          sessions =
              Server.update_session_identity st.session.id st.session.client_id
                (user_name st.session.user cp.username) st.broker.sessions;
        };
      }
      else st

  unfoldable pub handle_connect : ConnectPacket → Handler Db (Unit {0})
  unfolding log_in announce
  handle_connect cp = do
    modify (set_client_id cp.client_id)
    log_in cp
    modify (announce cp)
    write (write_conn_ack false conn_accepted)

  -- A second CONNECT is of no handled type: it is logged.
  unfoldable pub dispatch : Env Db → Packet → Handler Db (Unit {0})
  dispatch env (publish pp) = handle_publish env pp
  dispatch env (subscribe sp) = handle_subscribe env sp
  dispatch env (unsubscribe up) = handle_unsubscribe up
  dispatch env (pub_ack pid) = modify (handle_pub_ack pid)
  dispatch env ping_req = write write_ping_resp
  dispatch env disconnect = raise disconnected
  dispatch env (connect cp) = pure tt

  module _ (env : ℕ → Env Db) where
    -- The loop of `Handle` on the bytes that arrive before the connection ends; `env n` is what the
    -- outside gives to the packet of round `n`. It ends by an error of the reader or of a handler, and
    -- stands still in a handler that does not return.
    unfoldable pub packet_loop : ℕ → ℕ → Bytes → State Db → Course Db
    unfolding stopped
    packet_loop zero round src st = out_of_fuel
    packet_loop (suc fuel) round src st = elim (read_packet src) [
      | err _ ↦ ended st
      | ok read ↦
          (let (st', r) = dispatch (env round) read.0 st in
            elim r [ err e ↦ stopped e st' | ok _ ↦ packet_loop fuel (suc round) read.1 st' ])
    ]

    unfoldable pub connected : Bytes → State Db × Result SessionError (Unit {0}) → Course Db
    unfolding stopped
    connected src (st, err e) = stopped e st
    connected src (st, ok _) = packet_loop (suc (length src)) 0 src st

    -- The first packet has to be a CONNECT.
    unfoldable pub first_packet : Bytes → Packet → State Db → Course Db
    unfolding connected packet_loop
    first_packet src (connect cp) st = connected src (handle_connect cp st)
    first_packet src _ st = ended st

    -- `Handle`: the deferred calls clean up, close the connection and count.
    unfoldable pub handle : Bytes → State Db → Course Db
    unfolding first_packet deferred
    handle src st =
        let st₁ = count connections_inc st in
        elim (read_packet src) [
          | err _ ↦ deferred (ended st₁)
          | ok read ↦ deferred (first_packet read.1 read.0 st₁)
        ]
