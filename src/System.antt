-- ===== src/System.antt =====
-- core/transport/mqtt: several connections over one broker. Each is a session of its own, and they take
-- turns in any order; what they share is the broker.
use broker_message.Base.{
  ℕ, ◌≡◌, refl, sym, ap, ◌∙◌, Bool, false, Option, some, none, ◌==◌, Bytes, bytes_key, Assoc,
  lookup, insert, lookup-insert, nat_key, Bool-cases, inl, inr,
}
use broker_message.Storage.{Badger}
use broker_message.Storage.Prefixes.{under}
use broker_message.Topic.{Topic}
use broker_message.Topic.Keys.{msg_key_prefix}
use broker_message.Registry
use broker_message.Session.{Session, State, Broker}
use broker_message.Session.Publish.{may_publish}
use broker_message.Session.Keeps.{KeptIn, KeptIn-refl, KeptIn-trans}
use broker_message.Session.Steps.{Step, Step-Confined}

pub some-injective : (s t : Session) → some s ≡ some t → s ≡ t
some-injective s t h = cc

pub record System (Db : Type 0) : Type 0 where
  pub broker : Broker Db
  pub sessions : Assoc ℕ Session

module _ {Db : Type 0} ⦃b : Badger Db⦄ (bcrypt_ok : Bytes → Bytes → Bool)
    (Admitted : Session → Type 0) where
  -- One connection takes a step, or a session that is admitted joins.
  pub data Turn : System Db → System Db → Type 0 where
    takes :
        (i : ℕ) (s : Session) (st' : State Db) (sys : System Db)
        → lookup i sys.sessions ≡ some s
        → Step bcrypt_ok (record { session = s; broker = sys.broker }) st'
        → Turn sys (record { broker = st'.broker; sessions = insert i st'.session sys.sessions })
    joins :
        (i : ℕ) (s : Session) (sys : System Db)
        → Admitted s
        → Turn sys (record sys { sessions = insert i s sys.sessions })

  pub data Reach (sys : System Db) : System Db → Type 0 where
    here : Reach sys sys
    turn : {sys₁ sys₂ : System Db} → Reach sys sys₁ → Turn sys₁ sys₂ → Reach sys sys₂

module _ (name : Bytes) where
  -- A session whose user may not publish to the topic.
  abbrev pub IsGuest : Session → Type 0
  IsGuest s = may_publish s.user name ≡ false

  abbrev pub AllGuests : Assoc ℕ Session → Type 0
  AllGuests sessions = (i : ℕ) (s : Session) → lookup i sessions ≡ some s → IsGuest s

  insert-AllGuests :
      (i : ℕ) (s : Session) (sessions : Assoc ℕ Session)
      → IsGuest s
      → AllGuests sessions
      → AllGuests (insert i s sessions)
  insert-AllGuests i s sessions g all j t h = elim (Bool-cases (i == j)) [
    | inl same ↦
        let found = sym (lookup-insert i j s sessions) ∙ h in
        let equal : s ≡ t = some-injective s t (rw same at found) in rw (← equal) g
    | inr other ↦ let found = sym (lookup-insert i j s sessions) ∙ h in all j t (rw other at found)
  ]

module _ {Db : Type 0} ⦃b : Badger Db⦄ (bcrypt_ok : Bytes → Bytes → Bool) (name : Bytes) where
  -- What a turn of guests keeps.
  record Keeps (sys sys' : System Db) : Type 0 where
    guests : AllGuests name sys'.sessions
    topic : KeptIn (Registry.get sys.broker.registry name) (Registry.get sys'.broker.registry name)

  Turn-Keeps :
      {sys sys' : System Db}
      → Turn bcrypt_ok (IsGuest name) sys sys'
      → AllGuests name sys.sessions
      → Keeps sys sys'
  Turn-Keeps (takes i s st' sys there moved) all =
      let kept = Step-Confined bcrypt_ok name moved (all i s there) in
      record {
        guests =
            insert-AllGuests name i st'.session sys.sessions
              (ap (λ u. may_publish u name) kept.same_user ∙ all i s there) all;
        topic = kept.same_topic;
      }
  Turn-Keeps (joins i s sys g) all = record {
    guests = insert-AllGuests name i s sys.sessions g all;
    topic = KeptIn-refl (Registry.get sys.broker.registry name);
  }

  Reach-Keeps :
      {sys sys' : System Db}
      → Reach bcrypt_ok (IsGuest name) sys sys'
      → AllGuests name sys.sessions
      → Keeps sys sys'
  Reach-Keeps {sys} here all = record {
    guests = all;
    topic = KeptIn-refl (Registry.get sys.broker.registry name);
  }
  Reach-Keeps {sys} {sys'} (turn {sys₁} {sys₂} before last) all =
      let first = Reach-Keeps before all in
      let second = Turn-Keeps last first.guests in
      record {
        guests = second.guests;
        topic = KeptIn-trans (Registry.get sys.broker.registry name) _ _ first.topic second.topic;
      }

  there_still :
      (t : Topic Db) (o : Option (Topic Db))
      → KeptIn (some t) o
      → (t' : Topic Db) × (o ≡ some t')
        × (t'.seq ≡ t.seq)
        × (under msg_key_prefix (b.entries t'.db) ≡ under msg_key_prefix (b.entries t.db))
  there_still t none k = absurd k
  there_still t (some t') k = (t', refl, k.0, k.1)

  -- While all connections are of users who may not publish to a topic of the registry, and whoever joins
  -- is one, nothing changes the topic's messages, their numbers or its last number, whatever packets the
  -- clients send and however the connections, their deliveries and retransmissions take turns. The
  -- topic stays in the registry.
  pub Reach-denied :
      (sys sys' : System Db) (t : Topic Db)
      → Reach bcrypt_ok (IsGuest name) sys sys'
      → AllGuests name sys.sessions
      → Registry.get sys.broker.registry name ≡ some t
      → (t' : Topic Db) × (Registry.get sys'.broker.registry name ≡ some t')
        × (t'.seq ≡ t.seq)
        × (under msg_key_prefix (b.entries t'.db) ≡ under msg_key_prefix (b.entries t.db))
  Reach-denied sys sys' t reach all there =
      there_still t (Registry.get sys'.broker.registry name)
        (rw there at ((Reach-Keeps reach all).topic))
