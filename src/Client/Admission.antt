-- ===== src/Client/Admission.antt =====
-- From `Connect` (sdk/go/brokermq/client.go) to `handleConnect` (core/transport/mqtt/session.go) and
-- back: the CONNECT, the login, and the CONNACK.
use broker_message.Base.{
  ℕ, ◌^◌, ◌<◌, ◌≡◌, refl, sym, ap, ◌∙◌, Bool, true, false, Option, some, List, [], ◌∷◌, ◌++◌,
  append_assoc, arith, length, Bytes, ◌==◌, if◌then◌else◌, Bool-cases, Option-cases, inl, inr,
  Result, ok, err,
}
use broker_message.Exec.{modify, continue, ◌>>◌}
use broker_message.Auth.{User, authenticate}
use broker_message.Storage.{Badger}
use broker_message.Packet.{
  Fault, Packet, ConnectPacket, connect, conn_accepted, conn_refused_bad_credentials,
}
use broker_message.Packet.Read.{read_packet, parse_body}
use broker_message.Packet.Write.{write_conn_ack}
use broker_message.Packet.Publish.{read_packet-body}
use broker_message.Session.{State, Conn, SessionError, write, write_conn}
use broker_message.Session.Handle.{logged_in, log_in, announce, handle_connect}
use broker_message.Session.Retransmission.{open_conn}
use broker_message.Client.{
  Options, connect_body, connect_packet, default_options, first_pid, new_seen_cache,
}
use broker_message.Client.Connection as Calls
use broker_message.Client.Connection.{
  Client, ClientError, Setting, connack_refused, apply_settings, connect_mqtt,
}
use broker_message.Client.Frames.{read_full-append}
use broker_message.Client.Once.{last_frame}
use broker_message.Client.Interop.{connect_of, encode_remaining-eq, parse_connect-connect_body}

-- The client's options and its CONNECT fit the wire format.
pub record IsOptions (o : Options) : Type 0 where
  pub id_fits : length o.client_id < 2 ^ 16
  pub name_fits : length o.username < 2 ^ 16
  pub password_fits : length o.password < 2 ^ 16
  pub fits : length (connect_body o) < 2 ^ 28

pub read_packet-connect :
    (o : Options) (rest : Bytes)
    → IsOptions o
    → read_packet (connect_packet o ++ rest) ≡ ok (connect (connect_of o), rest)
unfolding connect_packet
read_packet-connect o rest i =
    rw (encode_remaining-eq, append_assoc)
      (read_packet-body 0x10 (connect_body o) rest i.fits (
        unfold parse_body in
        rw (parse_connect-connect_body o i.id_fits i.name_fits i.password_fits) refl))

-- The client on a connection that takes every frame, when the broker has answered.
connect-acked :
    (settings : List Setting) (sent : List Bytes) (code : ℕ) (later : Bytes)
    → (let r = Calls.connect settings (open_conn sent) (write_conn_ack false code ++ later) in
        (r.1 ≡ (if code == 0 then ok tt else err (connack_refused code)))
        × (r.0.input ≡ later)
        × (r.0.conn
            ≡ open_conn (sent ++ (connect_packet (apply_settings settings default_options) ∷ []))))
unfolding Calls.connect Calls.connect_mqtt Calls.write Calls.read_full write_conn write_conn_ack
connect-acked settings sent code later =
    let o = apply_settings settings default_options in
    let c : Client = record {
      opts = o;
      conn = open_conn (sent ++ (connect_packet o ∷ []));
      input = 0x20 ∷ 2 ∷ 0 ∷ code ∷ later;
      seen = new_seen_cache o.seen_cache_size;
      next_pid = first_pid;
    } in
    let taken = read_full-append (0x20 ∷ 2 ∷ 0 ∷ code ∷ []) later c refl in
    elim (Bool-cases (code == 0)) [
      | inl e ↦ rw (taken, e) (refl, refl, refl)
      | inr e ↦ rw (taken, e) (refl, refl, refl)
    ]

-- The return code in the CONNACK of a `handleConnect`.
abbrev answer : Result SessionError (Unit {0}) → ℕ
answer (ok _) = conn_accepted
answer (err _) = conn_refused_bad_credentials

-- What `Connect` returns for what `handleConnect` returns.
abbrev pub admitted : Result SessionError (Unit {0}) → Result ClientError (Unit {0})
admitted (ok _) = ok tt
admitted (err _) = err (connack_refused conn_refused_bad_credentials)

answer-admitted :
    (r : Result SessionError (Unit {0}))
    → (if answer r == 0 then ok tt else err (connack_refused (answer r))) ≡ admitted r
answer-admitted (ok _) = refl
answer-admitted (err _) = refl

same_connect :
    {p q : ConnectPacket} {xs ys : Bytes}
    → Path (Result Fault (Packet × Bytes)) (ok (connect p, xs)) (ok (connect q, ys))
    → (p ≡ q) × (ys ≡ xs)
same_connect h = ground arith

module _ {Db : Type 0} ⦃b : Badger Db⦄ (bcrypt_ok : Bytes → Bytes → Bool) where
  -- The connection behind the login: a refusal has been answered.
  abbrev Answered : List Bytes → State Db × Result SessionError (Unit {0}) → Type 0
  Answered frames (st, ok _) = st.session.conn ≡ open_conn frames
  Answered frames (st, err _) =
      st.session.conn
      ≡ open_conn (frames ++ (write_conn_ack false conn_refused_bad_credentials ∷ []))

  logged_in-Answered :
      (p : Option User × Bool) (frames : List Bytes) (st : State Db)
      → st.session.conn ≡ open_conn frames
      → Answered frames (logged_in bcrypt_ok p st)
  unfolding logged_in write write_conn
  logged_in-Answered (u, true) frames st h = h
  logged_in-Answered (u, false) frames st h = rw h refl

  log_in-Answered :
      (cp : ConnectPacket) (frames : List Bytes) (st : State Db)
      → st.session.conn ≡ open_conn frames
      → Answered frames (log_in bcrypt_ok cp st)
  unfolding log_in
  log_in-Answered cp frames st h = elim (Option-cases st.session.auth_store) [
    | inl e ↦ rw (e, log_in) h
    | inr (store, e) ↦ elim (Bool-cases st.session.auth_req) [
      | inl required ↦
          rw (e, required, log_in)
            (logged_in-Answered (authenticate bcrypt_ok (some store) cp.username cp.password) frames
              _ h)
      | inr open_door ↦ rw (e, open_door, log_in) h
    ]
  ]

  announce-conn :
      (cp : ConnectPacket) (st : State Db)
      → (announce bcrypt_ok cp st).session.conn ≡ st.session.conn
  unfolding announce
  announce-conn cp st = elim (Bool-cases st.session.has_owner) [
    | inl e ↦ rw e refl
    | inr e ↦ rw e refl
  ]

  after_login :
      (cp : ConnectPacket) (frames : List Bytes) (p : State Db × Result SessionError (Unit {0}))
      → Answered frames p
      → (let r =
            continue p.1
              (λ (u : Unit {0}).
                (modify (announce bcrypt_ok cp) >> write (write_conn_ack false conn_accepted)))
              p.0 in
          r.0.session.conn ≡ open_conn (frames ++ (write_conn_ack false (answer r.1) ∷ [])))
  unfolding write write_conn
  after_login cp frames (st, ok u) h = let conn = announce-conn cp st ∙ h in rw conn refl
  after_login cp frames (st, err e) h = h

  handle_connect-answers :
      (cp : ConnectPacket) (frames : List Bytes) (st : State Db)
      → st.session.conn ≡ open_conn frames
      → (handle_connect bcrypt_ok cp st).0.session.conn
        ≡ open_conn
            (frames ++ (write_conn_ack false (answer (handle_connect bcrypt_ok cp st).1) ∷ []))
  unfolding handle_connect
  handle_connect-answers cp frames st h = after_login cp frames _ (log_in-Answered cp frames _ h)

  -- The broker reads the CONNECT that `Connect` writes as the client id, the user name and the password
  -- of the client's options, but no password where there is no user name, with a clean session and a
  -- keep-alive of 60 whatever the options say. The frame that `handleConnect` then writes makes
  -- `Connect` succeed if the broker has accepted the client, and fail with return code 4 if it has
  -- refused it. Both connections take every frame; the client id, the name and the password are below
  -- 2 ^ 16 bytes and the body of the packet below 2 ^ 28. What follows the CONNACK is left.
  pub connect-admitted :
      (settings : List Setting) (sent frames : List Bytes) (bytes rest left later : Bytes)
      (cp : ConnectPacket) (st : State Db)
      → IsOptions (apply_settings settings default_options)
      → read_packet (connect_packet (apply_settings settings default_options) ++ rest)
        ≡ ok (connect cp, left)
      → st.session.conn ≡ open_conn frames
      → (handle_connect bcrypt_ok cp st).0.session.conn ≡ open_conn (frames ++ (bytes ∷ []))
      → (let r = Calls.connect settings (open_conn sent) (bytes ++ later) in
          (cp ≡ connect_of (apply_settings settings default_options))
          × (left ≡ rest)
          × (r.1 ≡ admitted (handle_connect bcrypt_ok cp st).1)
          × (r.0.conn
              ≡ open_conn (sent ++ (connect_packet (apply_settings settings default_options) ∷ [])))
          × (r.0.input ≡ later))
  connect-admitted settings sent frames bytes rest left later cp st i read h answered =
      let o = apply_settings settings default_options in
      let (same, leaves) = same_connect (sym (read_packet-connect o rest i) ∙ read) in
      let code = answer (handle_connect bcrypt_ok cp st).1 in
      let frame : bytes ≡ write_conn_ack false code =
        last_frame frames bytes (write_conn_ack false code)
          (ap (λ (x : Conn). x.sent) (sym answered ∙ handle_connect-answers cp frames st h)) in
      let (result, input, conn) = connect-acked settings sent code later in
      rw frame
        (sym same, leaves, result ∙ answer-admitted (handle_connect bcrypt_ok cp st).1, conn, input)
