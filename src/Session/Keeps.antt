-- ===== src/Session/Keeps.antt =====
-- core/transport/mqtt/session.go: steps of a session that keep its user and the messages of a topic.
use broker_message.Base.{
  ◌≡◌, refl, ◌∙◌, Bool, true, false, Option, some, none, if◌then◌else◌, Bytes, bytes_eq,
  bytes_eq_iff, lookup-insert, bytes_key, Result, ok, err, Bool-cases, inl, inr,
}
use broker_message.Exec.{continue}
use broker_message.Storage.{Badger}
use broker_message.Storage.Prefixes.{under}
use broker_message.Topic.{Topic}
use broker_message.Topic.Keys.{msg_key_prefix}
use broker_message.Registry
use broker_message.Session.{State, SessionError, Handler}
use broker_message.Session.Publish.{set_topic}

module _ {Db : Type 0} ⦃b : Badger Db⦄ where
  -- The topic has the same messages, under the same numbers, and the same last number.
  abbrev pub Kept : Topic Db → Topic Db → Type 0
  Kept t t' =
      (t'.seq ≡ t.seq)
      × (under msg_key_prefix (b.entries t'.db) ≡ under msg_key_prefix (b.entries t.db))

  -- A topic that was there is there, with the same messages.
  abbrev pub KeptIn : Option (Topic Db) → Option (Topic Db) → Type 0
  KeptIn none o = Unit {0}
  KeptIn (some t) none = ⊥
  KeptIn (some t) (some t') = Kept t t'

  pub KeptIn-refl : (o : Option (Topic Db)) → KeptIn o o
  KeptIn-refl none = tt
  KeptIn-refl (some t) = (refl, refl)

  pub KeptIn-trans : (o p q : Option (Topic Db)) → KeptIn o p → KeptIn p q → KeptIn o q
  KeptIn-trans none p q h k = tt
  KeptIn-trans (some t) none q h k = absurd h
  KeptIn-trans (some t) (some t') none h k = absurd k
  KeptIn-trans (some t) (some t') (some t'') h k = (k.0 ∙ h.0, k.1 ∙ h.1)

  -- From the one state to the other, the user stays, and the topic keeps its messages.
  pub record Confined (name : Bytes) (st st' : State Db) : Type 0 where
    pub same_user : st'.session.user ≡ st.session.user
    pub same_topic :
        KeptIn (Registry.get st.broker.registry name) (Registry.get st'.broker.registry name)

  pub Confined-refl : (name : Bytes) (st : State Db) → Confined name st st
  Confined-refl name st = record { same_user = refl; same_topic = KeptIn-refl _ }

  pub Confined-trans :
      (name : Bytes) (st st₁ st₂ : State Db)
      → Confined name st st₁
      → Confined name st₁ st₂
      → Confined name st st₂
  Confined-trans name st st₁ st₂ h k = record {
    same_user = k.same_user ∙ h.same_user;
    same_topic = KeptIn-trans _ _ _ h.same_topic k.same_topic;
  }

  -- A step that leaves the registry and the user.
  pub still-Confined :
      (name : Bytes) (st st' : State Db)
      → st'.session.user ≡ st.session.user
      → st'.broker.registry ≡ st.broker.registry
      → Confined name st st'
  still-Confined name st st' h k = record {
    same_user = h;
    same_topic = rw k (KeptIn-refl (Registry.get st.broker.registry name));
  }

  -- One handler after another.
  pub continue-Confined :
      {A B : Type 0} (name : Bytes) (st : State Db) (r : State Db × Result SessionError A)
      (f : A → Handler Db B)
      → Confined name st r.0
      → ((x : A) → r.1 ≡ ok x → Confined name r.0 (f x r.0).0)
      → Confined name st (continue r.1 f r.0).0
  continue-Confined name st (st₁, ok x) f h k = Confined-trans name st st₁ (f x st₁).0 h (k x refl)
  continue-Confined name st (st₁, err e) f h k = h

  -- A change of another topic.
  pub set_topic-other :
      (name k : Bytes) (t : Topic Db) (st : State Db)
      → bytes_eq k name ≡ false
      → Confined name st (set_topic k t st)
  set_topic-other name k t st other = record {
    same_user = refl;
    same_topic =
        rw (lookup-insert k name t st.broker.registry.topics, other)
          (KeptIn-refl (Registry.get st.broker.registry name));
  }

  -- A change of a topic to one with the same messages.
  pub set_topic-Confined :
      (name k : Bytes) (t : Topic Db) (st : State Db)
      → KeptIn (Registry.get st.broker.registry k) (some t)
      → Confined name st (set_topic k t st)
  set_topic-Confined name k t st h = elim (Bool-cases (bytes_eq k name)) [
    | inl same ↦
        let key = (bytes_eq_iff k name).0 same in
        record {
          same_user = refl;
          same_topic = rw (lookup-insert k name t st.broker.registry.topics, same) (rw (← key) h);
        }
    | inr other ↦ set_topic-other name k t st other
  ]

  pub if-Confined :
      (name : Bytes) (test : Bool) (st x y : State Db)
      → Confined name st x
      → Confined name st y
      → Confined name st (if test then x else y)
  if-Confined name true st x y h k = h
  if-Confined name false st x y h k = k

  pub if-result-Confined :
      {A : Type 0} (name : Bytes) (test : Bool) (st : State Db)
      (x y : State Db × Result SessionError A)
      → Confined name st x.0
      → Confined name st y.0
      → Confined name st (if test then x else y).0
  if-result-Confined name true st x y h k = h
  if-result-Confined name false st x y h k = k
