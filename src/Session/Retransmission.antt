-- ===== src/Session/Retransmission.antt =====
-- core/transport/mqtt/session.go, `retransmitLoop`: a message that is not acknowledged is sent again.
use broker_message.Base.{
  ◌<◌, arith, ℕ, ◌+◌, ◌≤◌, ◌≡◌, inl, inr, refl, sym, ap, ◌∙◌, true, Option, some, none, List, [],
  ◌∷◌, ◌++◌, map, leb, le→leb, ◌==◌, ==_iff, if◌then◌else◌, append_assoc, append-nil, Bytes, Assoc,
  lookup, lookup-insert, nat_key, Bool-cases,
}
use broker_message.Packet.Write.{write_publish}
use broker_message.Session.{State, Conn, InflightMsg, write, write_conn}
use broker_message.Session.Acks.{
  retransmit_timeout, overdue, refresh, resent, resend, retransmit_tick,
}

-- `Due now inflight due`: of what is in flight, the second list has what was sent ten seconds ago or
-- longer, and leaves out what was sent later, in the order of the first.
pub data Due (now : ℕ) : Assoc ℕ InflightMsg → Assoc ℕ InflightMsg → Type 0 where
  no_more : Due now [] []
  due_now :
      {pid : ℕ} {m : InflightMsg} {inflight due : Assoc ℕ InflightMsg}
      → m.sent_at + 10_000_000_000 ≤ now
      → Due now inflight due
      → Due now ((pid, m) ∷ inflight) ((pid, m) ∷ due)
  too_soon :
      {pid : ℕ} {m : InflightMsg} {inflight due : Assoc ℕ InflightMsg}
      → now < m.sent_at + 10_000_000_000
      → Due now inflight due
      → Due now ((pid, m) ∷ inflight) due

overdue-Due : (now : ℕ) (inflight : Assoc ℕ InflightMsg) → Due now inflight (overdue now inflight)
unfolding overdue
overdue-Due now [] = no_more
overdue-Due now ((pid, m) ∷ inflight) =
    elim (Bool-cases (leb (m.sent_at + retransmit_timeout) now)) [
      | inl e ↦ rw e (due_now (ground arith) (overdue-Due now inflight))
      | inr e ↦ rw e (too_soon (ground arith) (overdue-Due now inflight))
    ]

-- The frame in which a message is sent again.
abbrev pub again : ℕ × InflightMsg → Bytes
again e = write_publish e.1.topic_name e.1.wire e.1.qos e.0 true

-- What is in flight under an id after it has been sent at `now`.
abbrev pub sent_now : ℕ → Option InflightMsg → Option InflightMsg
sent_now now none = none
sent_now now (some m) = some (record m { sent_at = now })

lookup-refresh :
    (now pid j : ℕ) (o : Option InflightMsg) (inflight : Assoc ℕ InflightMsg)
    → lookup pid inflight ≡ o
    → lookup j (refresh now pid o inflight)
      ≡ (if pid == j then sent_now now (lookup j inflight) else lookup j inflight)
unfolding refresh
lookup-refresh now pid j none inflight h = elim (Bool-cases (pid == j)) [
  | inl e ↦ rw (e, ← (==_iff pid j).0 e, h) refl
  | inr e ↦ rw e refl
]
lookup-refresh now pid j (some m) inflight h = elim (Bool-cases (pid == j)) [
  | inl e ↦
      rw (lookup-insert pid j (record m { sent_at = now }) inflight, e, ← (==_iff pid j).0 e, h)
        refl
  | inr e ↦ rw (lookup-insert pid j (record m { sent_at = now }) inflight, e) refl
]

some-injective : (m n : InflightMsg) → some m ≡ some n → m ≡ n
some-injective m n h = cc

-- A message that is overdue is in the list.
lookup-overdue :
    (now pid : ℕ) (m : InflightMsg) (inflight : Assoc ℕ InflightMsg)
    → lookup pid inflight ≡ some m
    → m.sent_at + retransmit_timeout ≤ now
    → lookup pid (overdue now inflight) ≡ some m
unfolding lookup overdue
lookup-overdue now pid m [] h late = cc
lookup-overdue now pid m ((j, n) ∷ inflight) h late = elim (Bool-cases (j == pid)) [
  | inl same ↦
      let first : n ≡ m = some-injective n m (rw same at h) in
      let test : leb (n.sent_at + retransmit_timeout) now ≡ true =
        rw first (le→leb (m.sent_at + retransmit_timeout) now late) in
      rw test (rw same (ap some first))
  | inr other ↦
      let rest = lookup-overdue now pid m inflight (rw other at h) late in
      elim (Bool-cases (leb (n.sent_at + retransmit_timeout) now)) [
        | inl e ↦ rw e (rw other rest)
        | inr e ↦ rw e rest
      ]
]

-- A connection that takes every frame, with what has been written so far.
abbrev pub open_conn : List Bytes → Conn
open_conn frames = record { sent = frames; outcomes = [] }

-- What is in flight under an id, after the messages of a list that has an entry for it or not.
abbrev after_sending : ℕ → Option InflightMsg → Option InflightMsg → Option InflightMsg
after_sending now none o = o
after_sending now (some m) o = sent_now now o

sent_twice :
    (now : ℕ) (listed o : Option InflightMsg)
    → after_sending now listed (sent_now now o) ≡ sent_now now o
sent_twice now none o = refl
sent_twice now (some m) none = refl
sent_twice now (some m) (some n) = refl

listed_first :
    (now pid j : ℕ) (msg : InflightMsg) (items : Assoc ℕ InflightMsg) (o : Option InflightMsg)
    → after_sending now (lookup j items) (if pid == j then sent_now now o else o)
      ≡ after_sending now (lookup j ((pid, msg) ∷ items)) o
unfolding lookup
listed_first now pid j msg items o = elim (Bool-cases (pid == j)) [
  | inl e ↦ rw e (sent_twice now (lookup j items) o)
  | inr e ↦ rw e refl
]

module _ {Db : Type 0} where
  resent-conn :
      (now pid : ℕ) (msg : InflightMsg) (frame : Bytes) (frames : List Bytes) (st : State Db)
      → st.session.conn ≡ open_conn frames
      → ((resent now pid msg (write frame st)).session.conn ≡ open_conn (frames ++ (frame ∷ [])))
        × ((resent now pid msg (write frame st)).session.inflight
            ≡ refresh now pid (lookup pid st.session.inflight) st.session.inflight)
  unfolding resent write write_conn
  resent-conn now pid msg frame frames st h = rw h (refl, refl)

  -- The connection and the session behind the loop.
  resend-conn :
      (now : ℕ) (items : Assoc ℕ InflightMsg) (frames : List Bytes) (st : State Db)
      → st.session.conn ≡ open_conn frames
      → (resend now items st).session.conn ≡ open_conn (frames ++ map again items)
  unfolding resend
  resend-conn now [] frames st h = h ∙ ap open_conn (sym (append-nil frames))
  resend-conn now ((pid, msg) ∷ items) frames st h =
      let frame = again (pid, msg) in
      let st₁ = resent now pid msg (write frame st) in
      resend-conn now items (frames ++ (frame ∷ [])) st₁
        ((resent-conn now pid msg frame frames st h).0)
      ∙ ap open_conn (append_assoc frames (frame ∷ []) (map again items))

  resend-inflight :
      (now j : ℕ) (items : Assoc ℕ InflightMsg) (frames : List Bytes) (st : State Db)
      → st.session.conn ≡ open_conn frames
      → lookup j (resend now items st).session.inflight
        ≡ after_sending now (lookup j items) (lookup j st.session.inflight)
  unfolding resend
  resend-inflight now j [] frames st h = unfold lookup in refl
  resend-inflight now j ((pid, msg) ∷ items) frames st h =
      let frame = again (pid, msg) in
      let st₁ = resent now pid msg (write frame st) in
      let (conn, inflight) = resent-conn now pid msg frame frames st h in
      let refreshed =
        ap (lookup j) inflight
        ∙ lookup-refresh now pid j (lookup pid st.session.inflight) st.session.inflight refl in
      resend-inflight now j items (frames ++ (frame ∷ [])) st₁ conn
      ∙ ap (after_sending now (lookup j items)) refreshed
      ∙ listed_first now pid j msg items (lookup j st.session.inflight)

  -- A connection that takes every frame gets, at each tick, the messages that are in flight and were
  -- sent ten seconds ago or longer, and no others, with DUP set and in the order of the table. A message
  -- that is in flight that long is among them, and it stays in flight, sent at the time of the tick.
  pub retransmit_tick-sends :
      (now pid : ℕ) (m : InflightMsg) (frames : List Bytes) (st : State Db)
      → st.session.conn ≡ open_conn frames
      → lookup pid st.session.inflight ≡ some m
      → m.sent_at + 10_000_000_000 ≤ now
      → (due : Assoc ℕ InflightMsg) × Due now st.session.inflight due
        × ((retransmit_tick now st).session.conn ≡ open_conn (frames ++ map again due))
        × (lookup pid due ≡ some m)
        × (lookup pid (retransmit_tick now st).session.inflight ≡ some (record m { sent_at = now }))
  unfolding retransmit_tick
  retransmit_tick-sends now pid m frames st h there late =
      let due = overdue now st.session.inflight in
      let listed = lookup-overdue now pid m st.session.inflight there late in
      (
        due,
        overdue-Due now st.session.inflight,
        resend-conn now due frames st h,
        listed,
        resend-inflight now pid due frames st h ∙ rw (listed, there) refl,
      )
