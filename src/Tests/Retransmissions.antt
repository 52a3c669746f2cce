-- ===== src/Tests/Retransmissions.antt =====
-- core/transport/mqtt/session.go, `retransmitLoop`, with one message in flight for ten seconds.
use broker_message.Base.{ℕ, Assoc, ◌≡◌, refl, some, [], ◌∷◌, ◌++◌, map, arith, lookup, nat_key}
use broker_message.Storage.Memory.{MemDb, mem_badger}
use broker_message.Session.{State, InflightMsg}
use broker_message.Session.Acks.{retransmit_tick}
use broker_message.Session.Retransmission.{Due, again, open_conn, retransmit_tick-sends}
use broker_message.Tests.Logins.{state}

abbrev message : InflightMsg
message = record {
  topic_name = b'n' ∷ [];
  seq = 1;
  wire = 7 ∷ [];
  qos = 1;
  sent_at = 5;
  topic_ref = b'n' ∷ [];
}

abbrev waiting : State MemDb
waiting = record state { session = record state.session { inflight = (3, message) ∷ [] } }

message_waiting : lookup 3 waiting.session.inflight ≡ some message
unfolding lookup
message_waiting = refl

retransmit_tick-sends_example :
    (due : Assoc ℕ InflightMsg) × Due 10_000_000_005 waiting.session.inflight due
    × ((retransmit_tick 10_000_000_005 waiting).session.conn ≡ open_conn ([] ++ map again due))
    × (lookup 3 due ≡ some message)
    × (lookup 3 (retransmit_tick 10_000_000_005 waiting).session.inflight
        ≡ some (record message { sent_at = 10_000_000_005 }))
retransmit_tick-sends_example =
    retransmit_tick-sends 10_000_000_005 3 message [] waiting refl message_waiting (omega arith)
