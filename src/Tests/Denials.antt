-- ===== src/Tests/Denials.antt =====
-- core/transport/mqtt/session.go: a user publishes where he may not.
use broker_message.Base.{
  ◌==◌, insert, nat_key, Bool-cases, inl, inr, ◌≡◌, refl, false, some, [], ◌∷◌, bytes_eq, lookup,
  bytes_key, Bytes,
}
use broker_message.Auth.{User, can_publish, any_match, match_topic, match_loop, split_from}
use broker_message.Storage.Memory.{MemDb, mem_badger, empty_db}
use broker_message.Storage.Prefixes.{under}
use broker_message.Topic.{Topic}
use broker_message.Topic.Keys.{msg_key_prefix}
use broker_message.Registry
use broker_message.Packet.{Packet, publish}
use broker_message.Session.{State}
use broker_message.Session.Publish.{may_publish}
use broker_message.Session.Handle.{dispatch}
use broker_message.Session.Steps.{handles}
use broker_message.System.{
  System, Reach, here, turn, takes, IsGuest, AllGuests, Reach-denied, some-injective,
}
use broker_message.Tests.Logins.{state, env}

abbrev topic_name : Bytes
topic_name = b'n' ∷ []

abbrev guest : User
guest = record {
  name = b'g' ∷ [];
  password = [];
  bcrypt = [];
  publish = (b'm' ∷ []) ∷ [];
  subscribe = [];
  admin = false;
}

abbrev news : Topic MemDb
news = record {
  name = topic_name;
  seq = 3;
  subs = [];
  chans = [];
  next_chan = 0;
  db = empty_db;
  offsets = [];
}

abbrev before : State MemDb
before = record state {
  session = record state.session { user = some guest };
  broker = record state.broker { registry = record { topics = (topic_name, news) ∷ [] } };
}

abbrev packet : Packet
packet = publish (record {
  topic_name = topic_name;
  packet_id = 0;
  qos = 0;
  retain = false;
  dup = false;
  payload = 1 ∷ [];
})

abbrev tried : State MemDb
tried = (dispatch bytes_eq (env 1) packet before).0

guest_denied : may_publish (some guest) topic_name ≡ false
unfolding may_publish can_publish any_match match_topic bytes_eq match_loop split_from
guest_denied = refl

news_there : Registry.get before.broker.registry topic_name ≡ some news
unfolding lookup bytes_eq
news_there = refl

-- The connection 1 over the broker, and what its PUBLISH and a tick make of it.
abbrev system : System MemDb
system = record { broker = before.broker; sessions = (1, before.session) ∷ [] }

session_there : lookup 1 system.sessions ≡ some before.session
unfolding lookup
session_there = refl

all_guests : AllGuests topic_name system.sessions
unfolding lookup
all_guests i s h = elim (Bool-cases (1 == i)) [
  | inl same ↦
      let equal : before.session ≡ s = some-injective before.session s (rw same at h) in
      rw (← equal) guest_denied
  | inr other ↦ let none_there = rw other at h in absurd cc
]

abbrev later : System MemDb
later = record { broker = tried.broker; sessions = insert 1 tried.session system.sessions }

publishes : Reach bytes_eq (IsGuest topic_name) system later
publishes =
    turn here (takes 1 before.session tried system session_there (handles (env 1) packet before))

Reach-denied_example :
    (t : Topic MemDb) × (Registry.get later.broker.registry topic_name ≡ some t)
    × (t.seq ≡ 3)
    × (under msg_key_prefix t.db.entries ≡ under msg_key_prefix [])
Reach-denied_example =
    Reach-denied bytes_eq topic_name system later news publishes all_guests news_there
