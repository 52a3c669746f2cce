-- ===== src/Session/Confinement.antt =====
-- core/transport/mqtt/session.go: no handler but `handlePublish` changes the messages of a topic that
-- was there.
use broker_message.Base.{
  ℕ, ◌≡◌, refl, ap, ◌∙◌, Option, some, none, List, [], ◌∷◌, map, Bytes, lookup, lookup-insert,
  bytes_key, Result, ok, err, Bool-cases, inl, inr, bytes_eq_refl, ok-injective,
}
use broker_message.Storage.{Badger}
use broker_message.Topic
use broker_message.Topic.{Topic, Message, TopicError, subscribe, is_subscribed}
use broker_message.Registry
use broker_message.Packet.{UnsubscribePacket}
use broker_message.Packet.Write.{write_unsub_ack}
use broker_message.Session.{State, Env}
use broker_message.Session.Publish.{get_or_create, opened}
use broker_message.Session.Subscribe.{
  change_topic, end_old, end_subscription, drop_sub, sync_session_topics, unsubscribe_all,
  handle_unsubscribe, end_each, cleanup_subs,
}
use broker_message.Session.Keeps.{
  KeptIn, Confined, Confined-refl, Confined-trans, still-Confined, set_topic-Confined, if-Confined,
}
use broker_message.Session.Delivery.{write-Confined}

module _ {Db : Type 0} ⦃b : Badger Db⦄ (name : Bytes) where
  created-Confined :
      (open_dir : Bytes → Option Db) (k : Bytes) (n : Result TopicError (Topic Db)) (st : State Db)
      → Registry.get st.broker.registry k ≡ none
      → Confined name st (opened k (Registry.add_created open_dir k n st.broker.registry) st).0
  unfolding opened Registry.add_created
  created-Confined open_dir k (ok t) st h = set_topic-Confined name k t st (rw h tt)
  created-Confined open_dir k (err e) st h = Confined-refl name st

  found-Confined :
      (env : Env Db) (k : Bytes) (o : Option (Topic Db)) (st : State Db)
      → Registry.get st.broker.registry k ≡ o
      → Confined name st (opened k (Registry.get_or_new env.open_dir k o st.broker.registry) st).0
  unfolding Registry.get_or_new
  found-Confined env k (some t) st h = unfold opened in Confined-refl name st
  found-Confined env k none st h = created-Confined env.open_dir k _ st h

  pub get_or_create-Confined :
      (env : Env Db) (k : Bytes) (st : State Db) → Confined name st (get_or_create env k st).0
  unfolding get_or_create Registry.get_or_create
  get_or_create-Confined env k st = found-Confined env k (Registry.get st.broker.registry k) st refl

  created_there :
      (open_dir : Bytes → Option Db) (k : Bytes) (n : Result TopicError (Topic Db)) (st : State Db)
      (t : Topic Db)
      → (opened k (Registry.add_created open_dir k n st.broker.registry) st).1 ≡ ok t
      → Registry.get
          (opened k (Registry.add_created open_dir k n st.broker.registry) st).0.broker.registry
          k
        ≡ some t
  unfolding opened Registry.add_created
  created_there open_dir k (ok t') st t h =
      lookup-insert k k t' st.broker.registry.topics
      ∙ rw (bytes_eq_refl k) (ap some (ok-injective t' t h))
  created_there open_dir k (err e) st t h = cc

  found_there :
      (env : Env Db) (k : Bytes) (o : Option (Topic Db)) (st : State Db) (t : Topic Db)
      → Registry.get st.broker.registry k ≡ o
      → (opened k (Registry.get_or_new env.open_dir k o st.broker.registry) st).1 ≡ ok t
      → Registry.get
          (opened k (Registry.get_or_new env.open_dir k o st.broker.registry) st).0.broker.registry
          k
        ≡ some t
  unfolding opened Registry.get_or_new
  found_there env k (some t') st t g h = g ∙ ap some (ok-injective t' t h)
  found_there env k none st t g h = created_there env.open_dir k _ st t h

  -- The topic that `GetOrCreate` returns is the one that the registry holds.
  pub get_or_create_there :
      (env : Env Db) (k : Bytes) (st : State Db) (t : Topic Db)
      → (get_or_create env k st).1 ≡ ok t
      → Registry.get (get_or_create env k st).0.broker.registry k ≡ some t
  unfolding get_or_create Registry.get_or_create
  get_or_create_there env k st t h =
      found_there env k (Registry.get st.broker.registry k) st t refl h

  unsubscribe-kept : (chan : ℕ) (t : Topic Db) → KeptIn (some t) (some (Topic.unsubscribe chan t))
  unfolding Topic.unsubscribe
  unsubscribe-kept chan t = elim (Bool-cases (is_subscribed chan t.subs)) [
    | inl e ↦ rw e (refl, refl)
    | inr e ↦ rw e (refl, refl)
  ]

  change_topic-Confined :
      (k : Bytes) (chan : ℕ) (o : Option (Topic Db)) (st : State Db)
      → Registry.get st.broker.registry k ≡ o
      → Confined name st (change_topic k (Topic.unsubscribe chan) o st)
  unfolding change_topic
  change_topic-Confined k chan none st h = Confined-refl name st
  change_topic-Confined k chan (some t) st h =
      set_topic-Confined name k (Topic.unsubscribe chan t) st (rw h (unsubscribe-kept chan t))

  end_old-Confined :
      (k : Bytes) (chan : Option ℕ) (st : State Db) → Confined name st (end_old k chan st)
  unfolding end_old
  end_old-Confined k none st = Confined-refl name st
  end_old-Confined k (some chan) st =
      change_topic-Confined k chan (Registry.get st.broker.registry k) st refl

  pub end_subscription-Confined :
      (k : Bytes) (st : State Db) → Confined name st (end_subscription k st)
  unfolding end_subscription
  end_subscription-Confined k st = end_old-Confined k (lookup k st.session.subs) st

  pub sync-Confined : (st : State Db) → Confined name st (sync_session_topics st)
  unfolding sync_session_topics
  sync-Confined st =
      if-Confined name st.session.has_owner st _ st (still-Confined name st _ refl refl)
        (Confined-refl name st)

  unsubscribe_all-Confined :
      (names : List Bytes) (st : State Db) → Confined name st (unsubscribe_all names st)
  unfolding unsubscribe_all
  unsubscribe_all-Confined [] st = Confined-refl name st
  unsubscribe_all-Confined (k ∷ names) st =
      let ended = end_subscription k st in
      Confined-trans name st ended _ (end_subscription-Confined k st) (
        Confined-trans name ended (drop_sub k ended) _
          (still-Confined name ended (drop_sub k ended) refl refl)
          (unsubscribe_all-Confined names (drop_sub k ended)))

  pub handle_unsubscribe-Confined :
      (up : UnsubscribePacket) (st : State Db) → Confined name st (handle_unsubscribe up st).0
  unfolding handle_unsubscribe
  handle_unsubscribe-Confined up st =
      let st₁ = unsubscribe_all up.topics st in
      Confined-trans name st st₁ _ (unsubscribe_all-Confined up.topics st) (
        Confined-trans name st₁ (sync_session_topics st₁) _ (sync-Confined st₁)
          (write-Confined name (write_unsub_ack up.packet_id) (sync_session_topics st₁)))

  end_each-Confined : (names : List Bytes) (st : State Db) → Confined name st (end_each names st)
  unfolding end_each
  end_each-Confined [] st = Confined-refl name st
  end_each-Confined (k ∷ names) st =
      Confined-trans name st (end_subscription k st) _ (end_subscription-Confined k st)
        (end_each-Confined names (end_subscription k st))

  pub cleanup_subs-Confined : (st : State Db) → Confined name st (cleanup_subs st)
  unfolding cleanup_subs
  cleanup_subs-Confined st =
      let st₁ = end_each (map (λ e. e.0) st.session.subs) st in
      let st₂ : State Db = record st₁ {
        session = record st₁.session { subs = []; sub_qos = [] };
      } in
      Confined-trans name st st₁ _ (end_each-Confined (map (λ e. e.0) st.session.subs) st) (
        Confined-trans name st₁ st₂ _ (still-Confined name st₁ st₂ refl refl) (
          Confined-trans name st₂ (sync_session_topics st₂) _ (sync-Confined st₂)
            (still-Confined name (sync_session_topics st₂) _ refl refl)))
