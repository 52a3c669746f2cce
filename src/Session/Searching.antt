-- ===== src/Session/Searching.antt =====
-- core/transport/mqtt/session.go: `allocPacketID` is the one place where a handler may fail to return,
-- and it does so with every packet id in flight.
use broker_message.Base.{
  ℕ, ◌≡◌, ◌≢◌, none, Bool-cases, inl, inr, Bytes, lookup, nat_key, Result, ok, err,
}
use broker_message.Exec.{continue}
use broker_message.Session.{
  State, Session, SessionError, auth_failed, publish_denied, topic_failed, publish_failed,
  write_failed, disconnected, never_returns, write, write_conn,
}
use broker_message.Session.AckLaws.{IsPacketId}

-- No packet id is free.
abbrev pub Full : Session → Type 0
Full s = (j : ℕ) → IsPacketId j → lookup j s.inflight ≢ none

module _ {Db : Type 0} where
  abbrev pub HasNext : State Db → Type 0
  HasNext st = IsPacketId st.session.next_pkt_id

  pub same-HasNext : (st st' : State Db) → st'.session ≡ st.session → HasNext st → HasNext st'
  same-HasNext st st' e h = rw e h

  abbrev pub AtError : SessionError → State Db → Type 0
  AtError auth_failed st = Unit {0}
  AtError publish_denied st = Unit {0}
  AtError topic_failed st = Unit {0}
  AtError publish_failed st = Unit {0}
  AtError write_failed st = Unit {0}
  AtError disconnected st = Unit {0}
  AtError never_returns st = Full st.session

  pub AtError-session :
      (e : SessionError) (st st' : State Db)
      → st'.session ≡ st.session
      → AtError e st
      → AtError e st'
  AtError-session auth_failed st st' h a = tt
  AtError-session publish_denied st st' h a = tt
  AtError-session topic_failed st st' h a = tt
  AtError-session publish_failed st st' h a = tt
  AtError-session write_failed st st' h a = tt
  AtError-session disconnected st st' h a = tt
  AtError-session never_returns st st' h a = rw h a

  abbrev pub AtResult : {A : Type 0} → Result SessionError A → State Db → Type 0
  AtResult (ok a) st = Unit {0}
  AtResult (err e) st = AtError e st

  -- A handler's outcome: the next id to try is a packet id, and a handler that does not return has
  -- found every id in flight.
  pub record Sound {A : Type 0} (x : State Db × Result SessionError A) : Type 0 where
    pub next : HasNext x.0
    pub only_full : AtResult x.1 x.0

  pub continue-Sound :
      {A B : Type 0} (x : State Db × Result SessionError A)
      (f : A → State Db → State Db × Result SessionError B)
      → Sound x
      → ((a : A) (st : State Db) → HasNext st → Sound (f a st))
      → Sound (continue x.1 f x.0)
  continue-Sound (st, ok a) f s k = k a st s.next
  continue-Sound (st, err e) f s k = record { next = s.next; only_full = s.only_full }

  pub write-Sound : (frame : Bytes) (st : State Db) → HasNext st → Sound (write frame st)
  unfolding write
  write-Sound frame st h = elim (Bool-cases (write_conn frame st.session.conn).1) [
    | inl e ↦ record { next = h; only_full = rw e tt }
    | inr e ↦ record { next = h; only_full = rw e tt }
  ]
