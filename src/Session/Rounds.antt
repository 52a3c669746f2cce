-- ===== src/Session/Rounds.antt =====
-- core/transport/mqtt/session.go, `Handle`: how the loop over the packets of a connection goes on and ends.
use broker_message.Base.{
  ℕ, Bool, zero, suc, ◌<◌, ◌≡◌, ◌≢◌, refl, ap, subst, [], arith, length, Bytes, Result,
  Result-cases, ok, err, inl, inr,
}
use broker_message.Storage.{Badger}
use broker_message.Packet.{Packet, Fault, ConnectPacket, connect}
use broker_message.Packet.Read.{read_packet}
use broker_message.Packet.Framing.{read_packet-more}
use broker_message.Session.{
  State, Env, SessionError, count, connections_inc, auth_failed, publish_denied, topic_failed,
  publish_failed, write_failed, disconnected, never_returns,
}
use broker_message.Session.AckLaws.{IsPacketId}
use broker_message.Session.Searching.{HasNext, Full, AtError}
use broker_message.Session.Returning.{dispatch-Sound, handle_connect-Sound}
use broker_message.Session.Handle.{
  Course, ended, stands, stopped, deferred, dispatch, packet_loop, handle_connect, first_packet,
  connected, handle,
}

pair_eq : {A B : Type 0} (r : A × B) {y : B} → r.1 ≡ y → r ≡ (r.0, y)
pair_eq r h = ap (λ y. (r.0, y)) h

module _ {Db : Type 0} ⦃b : Badger Db⦄ (bcrypt_ok : Bytes → Bytes → Bool) (env : ℕ → Env Db) where
  -- `Runs n src st c`: from the round `n` on, with the bytes `src` to come, the loop takes the state `st`
  -- to its end, by an error of the reader or of a handler, or to a handler that does not return.
  pub data Runs : ℕ → Bytes → State Db → Course Db → Type 0 where
    unreadable :
        {n : ℕ} {src : Bytes} {st : State Db} {e : Fault}
        → read_packet src ≡ err e
        → Runs n src st (ended st)
    refused :
        {n : ℕ} {src rest : Bytes} {st st' : State Db} {p : Packet} {e : SessionError}
        → read_packet src ≡ ok (p, rest)
        → dispatch bcrypt_ok (env n) p st ≡ (st', err e)
        → e ≢ never_returns
        → Runs n src st (ended st')
    searches :
        {n : ℕ} {src rest : Bytes} {st st' : State Db} {p : Packet}
        → read_packet src ≡ ok (p, rest)
        → dispatch bcrypt_ok (env n) p st ≡ (st', err never_returns)
        → Full st'.session
        → Runs n src st (stands st')
    handled :
        {n : ℕ} {src rest : Bytes} {st st' : State Db} {c : Course Db} {p : Packet}
        → read_packet src ≡ ok (p, rest)
        → dispatch bcrypt_ok (env n) p st ≡ (st', ok tt)
        → Runs (suc n) rest st' c
        → Runs n src st c

  -- The three ways in which a round goes.
  packet_loop-unreadable :
      (fuel n : ℕ) (src : Bytes) (st : State Db) (e : Fault)
      → read_packet src ≡ err e
      → packet_loop bcrypt_ok env (suc fuel) n src st ≡ ended st
  unfolding packet_loop
  packet_loop-unreadable fuel n src st e h = rw (h, packet_loop) refl

  packet_loop-refused :
      (fuel n : ℕ) (src rest : Bytes) (st st' : State Db) (p : Packet) (e : SessionError)
      → read_packet src ≡ ok (p, rest)
      → dispatch bcrypt_ok (env n) p st ≡ (st', err e)
      → packet_loop bcrypt_ok env (suc fuel) n src st ≡ stopped e st'
  unfolding packet_loop
  packet_loop-refused fuel n src rest st st' p e h d =
      rw (h, packet_loop)
        (rw d (ap (λ (r : State Db × Result SessionError (Unit {0})). stopped e r.0) d))

  packet_loop-handled :
      (fuel n : ℕ) (src rest : Bytes) (st st' : State Db) (p : Packet)
      → read_packet src ≡ ok (p, rest)
      → dispatch bcrypt_ok (env n) p st ≡ (st', ok tt)
      → packet_loop bcrypt_ok env (suc fuel) n src st
        ≡ packet_loop bcrypt_ok env fuel (suc n) rest st'
  unfolding packet_loop
  packet_loop-handled fuel n src rest st st' p h d =
      rw (h, packet_loop)
        (rw d (
          ap
            (λ (r : State Db × Result SessionError (Unit {0})).
              packet_loop bcrypt_ok env fuel (suc n) rest r.0)
            d))

  stopped-Runs :
      (n : ℕ) (src rest : Bytes) (st st' : State Db) (p : Packet) (e : SessionError)
      → read_packet src ≡ ok (p, rest)
      → dispatch bcrypt_ok (env n) p st ≡ (st', err e)
      → AtError e st'
      → Runs n src st (stopped e st')
  unfolding stopped
  stopped-Runs n src rest st st' p never_returns h d full = searches h d full
  stopped-Runs n src rest st st' p auth_failed h d _ = refused h d (λ x. cc)
  stopped-Runs n src rest st st' p publish_denied h d _ = refused h d (λ x. cc)
  stopped-Runs n src rest st st' p topic_failed h d _ = refused h d (λ x. cc)
  stopped-Runs n src rest st st' p publish_failed h d _ = refused h d (λ x. cc)
  stopped-Runs n src rest st st' p write_failed h d _ = refused h d (λ x. cc)
  stopped-Runs n src rest st st' p disconnected h d _ = refused h d (λ x. cc)

  -- With more rounds at hand than there are bytes to come, the loop takes its steps.
  packet_loop-Runs :
      (fuel n : ℕ) (src : Bytes) (st : State Db)
      → length src < fuel
      → HasNext st
      → Runs n src st (packet_loop bcrypt_ok env fuel n src st)
  packet_loop-Runs zero n src st h next = absurd (omega arith)
  packet_loop-Runs (suc fuel) n src st h next = elim (Result-cases (read_packet src)) [
    | inr (e, unread) ↦ rw (packet_loop-unreadable fuel n src st e unread) (unreadable unread)
    | inl ((p, rest), read) ↦
        let shorter = (read_packet-more src [] p rest read).1 in
        let sound = dispatch-Sound bcrypt_ok (env n) p st next in
        let st' = (dispatch bcrypt_ok (env n) p st).0 in
        elim (Result-cases (dispatch bcrypt_ok (env n) p st).1) [
          | inr (e, bad) ↦
              let d = pair_eq (dispatch bcrypt_ok (env n) p st) bad in
              rw (packet_loop-refused fuel n src rest st st' p e read d)
                (stopped-Runs n src rest st st' p e read d (rw bad at sound.only_full))
          | inl (u, good) ↦
              let d = pair_eq (dispatch bcrypt_ok (env n) p st) good in
              rw (packet_loop-handled fuel n src rest st st' p read d)
                (handled read d (packet_loop-Runs fuel (suc n) rest st' (omega arith) sound.next))
        ]
  ]

  handle-accepted :
      (src rest : Bytes) (cp : ConnectPacket) (st st' : State Db)
      → read_packet src ≡ ok (connect cp, rest)
      → handle_connect bcrypt_ok cp (count connections_inc st) ≡ (st', ok tt)
      → handle bcrypt_ok env src st
        ≡ deferred (packet_loop bcrypt_ok env (suc (length rest)) 0 rest st')
  unfolding handle first_packet connected
  handle-accepted src rest cp st st' h c = rw (h, handle) (rw c refl)

  -- A connection whose first packet is a CONNECT that is accepted: `Handle` takes the packets one after
  -- the other, each with the state that the one before has left, whichever packets come, up to the
  -- first error of the reader or of a handler. There it ends with the deferred calls. It fails to end
  -- only where the handler of a packet looks for a packet id and all 65535 are in flight. The session's
  -- next packet id is one, as in a new session.
  pub handle-Runs :
      (src rest : Bytes) (cp : ConnectPacket) (st st' : State Db)
      → read_packet src ≡ ok (connect cp, rest)
      → handle_connect bcrypt_ok cp (count connections_inc st) ≡ (st', ok tt)
      → IsPacketId st.session.next_pkt_id
      → (c : Course Db) × Runs 0 rest st' c × (handle bcrypt_ok env src st ≡ deferred c)
  handle-Runs src rest cp st st' h c next =
      let sound = handle_connect-Sound bcrypt_ok cp (count connections_inc st) next in
      let next' : HasNext st' =
        subst (λ (x : State Db × Result SessionError (Unit {0})). HasNext x.0) c sound.next in
      (
        packet_loop bcrypt_ok env (suc (length rest)) 0 rest st',
        packet_loop-Runs (suc (length rest)) 0 rest st' (omega arith) next',
        handle-accepted src rest cp st st' h c,
      )
