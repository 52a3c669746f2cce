-- ===== src/Session/Steps.antt =====
-- core/transport/mqtt/session.go: the steps of one connection, as its loop, the goroutines of its
-- subscriptions and the retransmission take turns.
use broker_message.Base.{ℕ, ◌≡◌, Bool, false, Bytes, bytes_key}
use broker_message.Storage.{Badger}
use broker_message.Topic.{Message}
use broker_message.Packet.{
  Packet, connect, publish, pub_ack, subscribe, unsubscribe, ping_req, disconnect,
}
use broker_message.Packet.Write.{write_ping_resp}
use broker_message.Session.{State, Env, Reader}
use broker_message.Session.Publish.{may_publish}
use broker_message.Session.Subscribe.{cleanup_subs}
use broker_message.Session.Deliver.{receive}
use broker_message.Session.Acks.{retransmit_tick}
use broker_message.Session.Handle.{dispatch}
use broker_message.Session.Keeps.{Confined, Confined-refl}
use broker_message.Session.Delivery.{
  write-Confined, receive-Confined, handle_pub_ack-Confined, retransmit_tick-Confined,
}
use broker_message.Session.Confinement.{handle_unsubscribe-Confined, cleanup_subs-Confined}
use broker_message.Session.Subscribing.{handle_subscribe-Confined}
use broker_message.Session.Denied.{handle_publish-Confined}

module _ {Db : Type 0} ⦃b : Badger Db⦄ (bcrypt_ok : Bytes → Bytes → Bool) where
  -- One step: a packet is handled, a goroutine handles a message of its channel, the retransmission
  -- wakes up, or the subscriptions end.
  pub data Step : State Db → State Db → Type 0 where
    handles : (env : Env Db) (p : Packet) (st : State Db) → Step st (dispatch bcrypt_ok env p st).0
    receives :
        (env : Env Db) (r : Reader) (m : Message) (st : State Db) → Step st (receive env r m st).0
    resends : (now : ℕ) (st : State Db) → Step st (retransmit_tick now st)
    cleans_up : (st : State Db) → Step st (cleanup_subs st)

  module _ (name : Bytes) where
    dispatch-Confined :
        (env : Env Db) (p : Packet) (st : State Db)
        → may_publish st.session.user name ≡ false
        → Confined name st (dispatch bcrypt_ok env p st).0
    unfolding dispatch
    dispatch-Confined env (publish pp) st h = handle_publish-Confined name env pp st h
    dispatch-Confined env (subscribe sp) st h = handle_subscribe-Confined name env sp st
    dispatch-Confined env (unsubscribe up) st h = handle_unsubscribe-Confined name up st
    dispatch-Confined env (pub_ack pid) st h = handle_pub_ack-Confined name pid st
    dispatch-Confined env ping_req st h = write-Confined name write_ping_resp st
    dispatch-Confined env disconnect st h = Confined-refl name st
    dispatch-Confined env (connect cp) st h = Confined-refl name st

    pub Step-Confined :
        {st st' : State Db}
        → Step st st'
        → may_publish st.session.user name ≡ false
        → Confined name st st'
    Step-Confined (handles env p st) h = dispatch-Confined env p st h
    Step-Confined (receives env r m st) h = receive-Confined name env r m st
    Step-Confined (resends now st) h = retransmit_tick-Confined name now st
    Step-Confined (cleans_up st) h = cleanup_subs-Confined name st
