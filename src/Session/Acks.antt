-- ===== src/Session/Acks.antt =====
-- core/transport/mqtt/session.go: `handlePubAck` and one tick of `retransmitLoop`.
use broker_message.Base.{
  ℕ, ◌+◌, true, Option, some, none, [], ◌∷◌, leb, if◌then◌else◌, Assoc, lookup, insert, remove,
  nat_key, Result, ok, err,
}
use broker_message.Storage.{Badger}
use broker_message.Packet.Write.{write_publish}
use broker_message.Session.{
  State, InflightMsg, SessionError, count, write, inflight_dec, retransmit_total,
}
use broker_message.Session.Deliver.{set_offset}

-- Ten seconds, in nanoseconds.
abbrev pub retransmit_timeout : ℕ
retransmit_timeout = 10_000_000_000

module _ {Db : Type 0} where
  abbrev pub set_inflight : Assoc ℕ InflightMsg → State Db → State Db
  set_inflight inflight st = record st { session = record st.session { inflight = inflight } }

-- The messages that were sent long enough ago.
unfoldable pub overdue : ℕ → Assoc ℕ InflightMsg → Assoc ℕ InflightMsg
overdue now [] = []
overdue now ((pid, msg) ∷ inflight) =
    let rest = overdue now inflight in
    if leb (msg.sent_at + retransmit_timeout) now then (pid, msg) ∷ rest else rest

unfoldable pub refresh : ℕ → ℕ → Option InflightMsg → Assoc ℕ InflightMsg → Assoc ℕ InflightMsg
refresh now pid none inflight = inflight
refresh now pid (some m) inflight = insert pid (record m { sent_at = now }) inflight

module _ {Db : Type 0} ⦃b : Badger Db⦄ where
  unfoldable pub acked : ℕ → Option InflightMsg → State Db → State Db
  acked pid none st = st
  acked pid (some msg) st =
      set_offset msg.topic_ref msg.seq
        (count inflight_dec (set_inflight (remove pid st.session.inflight) st))

  -- An id that is not in flight is logged. No error is returned.
  unfoldable pub handle_pub_ack : ℕ → State Db → State Db
  unfolding acked
  handle_pub_ack pid st = acked pid (lookup pid st.session.inflight) st

module _ {Db : Type 0} where
  unfoldable pub resent : ℕ → ℕ → InflightMsg → State Db × Result SessionError (Unit {0}) → State Db
  unfolding refresh
  resent now pid msg (st, err e) = st
  resent now pid msg (st, ok _) =
      let st' = count (retransmit_total msg.topic_name) st in
      set_inflight (refresh now pid (lookup pid st'.session.inflight) st'.session.inflight) st'

  -- The loop over `toRetransmit`; the time of sending is asked for anew, in the same nanosecond here.
  unfoldable pub resend : ℕ → Assoc ℕ InflightMsg → State Db → State Db
  unfolding resent refresh
  resend now [] st = st
  resend now ((pid, msg) ∷ items) st =
      resend now items
        (resent now pid msg (write (write_publish msg.topic_name msg.wire msg.qos pid true) st))

  unfoldable pub retransmit_tick : ℕ → State Db → State Db
  unfolding resend overdue
  retransmit_tick now st = resend now (overdue now st.session.inflight) st
