-- ===== src/Topic/Restart.antt =====
-- core/topic/topic.go: what `LoadFromDir` finds when the broker comes up again.
use broker_message.Base.{
  ℕ, ◌+◌, ◌^◌, ◌<◌, ◌≡◌, ◌≢◌, ◌⊎◌, refl, sym, ap, ◌∙◌, Bool, true, false, some, List, [], ◌∷◌, ◌++◌,
  arith, length, take, Bytes, lookup, bytes_key, bytes_eq, bytes_eq_refl, be-put_uint64, put_uint64,
  inl, inr, ok, err, none,
}
use broker_message.Envelope.{Envelope}
use broker_message.Envelope.RoundTrip.{IsWire, length-put_uint64}
use broker_message.Storage
use broker_message.Storage.{Badger, Read, found, missing, failed, StorageError, key_not_found}
use broker_message.Storage.Entries.{put, lookup-put}
use broker_message.Offsets
use broker_message.Offsets.{Offsets}
use broker_message.Offsets.Restart.{Readable, load_from_storage-succeeds}
use broker_message.Topic.{Topic, Message, name_key, seq_key, load_from_dir, publish, restored_seq}
use broker_message.Topic.Keys.{msg_key}
use broker_message.Topic.Publishing.{stored, next_message, publish-eq-ok}
use broker_message.Topic.Refinement.{Refines, publish-Refines}

Read-cases : (r : Read) → ((v : Bytes) × (r ≡ found v)) ⊎ ((r ≡ missing) ⊎ (r ≡ failed))
Read-cases (found v) = inl (v, refl)
Read-cases missing = inr (inl refl)
Read-cases failed = inr (inr refl)

msg_key-ne-name_key : (n : ℕ) → bytes_eq (msg_key n) name_key ≡ false
unfolding msg_key bytes_eq
msg_key-ne-name_key n = refl

msg_key-ne-seq_key : (n : ℕ) → bytes_eq (msg_key n) seq_key ≡ false
unfolding msg_key bytes_eq
msg_key-ne-seq_key n = refl

module _ {Db : Type 0} ⦃b : Badger Db⦄ where
  -- A read that does not fail gives what has been committed.
  get-committed :
      (db : Db) (k v : Bytes)
      → lookup k (b.entries db) ≡ some v
      → b.txn_get db k ≢ failed
      → Storage.get db k ≡ ok v
  unfolding Storage.get
  get-committed db k v h alive = elim (Read-cases (b.txn_get db k)) [
    | inl (w, e) ↦
        let same : some w ≡ some v = sym (b.get_found db k w e) ∙ h in rw (e, Storage.get) (cc)
    | inr (inl e) ↦ absurd (cc (sym (b.get_missing db k e) ∙ h))
    | inr (inr e) ↦ absurd (alive e)
  ]

  get_uint64-committed :
      (db : Db) (k : Bytes) (n : ℕ)
      → lookup k (b.entries db) ≡ some (put_uint64 n)
      → n < 2 ^ 64
      → b.txn_get db k ≢ failed
      → Storage.get_uint64 db k ≡ ok n
  unfolding Storage.get_uint64
  get_uint64-committed db k n h fits alive =
      let whole : take 8 (put_uint64 n) ≡ put_uint64 n = unfold put_uint64 in refl in
      rw (get-committed db k (put_uint64 n) h alive, length-put_uint64 n, whole)
        (ap ok (be-put_uint64 n fits))

  get-absent :
      (db : Db) (k : Bytes)
      → lookup k (b.entries db) ≡ none
      → b.txn_get db k ≢ failed
      → Storage.get db k ≡ err key_not_found
  unfolding Storage.get
  get-absent db k h alive = elim (Read-cases (b.txn_get db k)) [
    | inl (w, e) ↦ absurd (cc (sym (b.get_found db k w e) ∙ h))
    | inr (inl e) ↦ rw (e, Storage.get) refl
    | inr (inr e) ↦ absurd (alive e)
  ]

  -- The topic's name is stored.
  abbrev pub IsNamed : Topic Db → Type 0
  IsNamed t = lookup name_key (b.entries t.db) ≡ some t.name

  -- The topic's last number is stored, or no number is and the topic is at 0, as one that `New` made.
  abbrev pub IsNumbered : Topic Db → Type 0
  IsNumbered t =
      (lookup seq_key (b.entries t.db) ≡ some (put_uint64 t.seq))
      ⊎ ((lookup seq_key (b.entries t.db) ≡ none) × (t.seq ≡ 0))

  pub record Durable (t : Topic Db) : Type 0 where
    pub of_name : IsNamed t
    pub of_seq : IsNumbered t
    pub seq_fits : t.seq < 2 ^ 64

  restored_seq-numbered :
      (t : Topic Db)
      → IsNumbered t
      → t.seq < 2 ^ 64
      → b.txn_get t.db seq_key ≢ failed
      → restored_seq (Storage.get_uint64 t.db seq_key) ≡ t.seq
  unfolding restored_seq Storage.get_uint64
  restored_seq-numbered t (inl there) fits alive =
      rw (get_uint64-committed t.db seq_key t.seq there fits alive) refl
  restored_seq-numbered t (inr (absent, zero)) fits alive =
      rw (get-absent t.db seq_key absent alive) (sym zero)

  -- The reads of a restart do not fail.
  pub record CanLoad (db : Db) : Type 0 where
    pub name_alive : b.txn_get db name_key ≢ failed
    pub seq_alive : b.txn_get db seq_key ≢ failed
    pub offsets_readable : Readable db

  reloaded : Topic Db → Topic Db
  reloaded t = record {
    name = t.name;
    seq = t.seq;
    subs = [];
    chans = [];
    next_chan = 0;
    db = t.db;
    offsets = (Offsets.load_from_storage t.db).0;
  }

  load_from_dir-reloaded :
      (t : Topic Db) → Durable t → CanLoad t.db → load_from_dir (some t.db) ≡ ok (reloaded t)
  unfolding load_from_dir reloaded
  load_from_dir-reloaded t d c =
      let loads : Offsets.load_from_storage t.db ≡ ((Offsets.load_from_storage t.db).0, true) =
        ap (λ (fine : Bool). ((Offsets.load_from_storage t.db).0, fine))
          (load_from_storage-succeeds t.db c.offsets_readable) in
      rw (get-committed t.db name_key t.name d.of_name c.name_alive)
        (rw (loads) (rw (restored_seq-numbered t d.of_seq d.seq_fits c.seq_alive) refl))

  -- A publication whose number is stored too keeps what a restart reads.
  publish-Durable :
      (fresh : Bytes) (t t' : Topic Db) (env : Envelope) (m : Message)
      → publish fresh t env ≡ (t', ok m)
      → (Storage.set_uint64 (stored t m).0 seq_key m.seq).1 ≡ true
      → t.seq + 1 < 2 ^ 64
      → IsNamed t
      → Durable t'
  publish-Durable fresh t t' env m h numbered room named =
      let (is_next, is_advanced, done) = publish-eq-ok fresh t t' env m h in
      let fits : m.seq < 2 ^ 64 = rw is_next (omega (arith, room)) in
      let other : bytes_eq seq_key name_key ≡ false = unfold bytes_eq in refl in
      let entries : b.entries (Storage.set_uint64 (stored t m).0 seq_key m.seq).0
          ≡ put seq_key (put_uint64 m.seq) (put (msg_key m.seq) m.raw_wire (b.entries t.db)) =
        b.set_commits (stored t m).0 seq_key (put_uint64 m.seq) numbered
        ∙ ap (put seq_key (put_uint64 m.seq))
            (b.set_commits t.db (msg_key m.seq) m.raw_wire done) in
      rw is_advanced (record {
        of_name = rw (entries, lookup-put, other, lookup-put, msg_key-ne-name_key m.seq) named;
        of_seq = inl (rw (entries, lookup-put, bytes_eq_refl seq_key) refl);
        seq_fits = fits;
      })

  -- A message that has been published, with its number stored too, is there after a restart, be it the
  -- first of its topic or not: the topic that is loaded from the database has the same name and last
  -- number, and stands for the messages before it and this one. The database has the name of the topic
  -- and its reads do not fail in the restart, the envelope fits the wire format, the fresh id has 16
  -- bytes, and the number does not wrap.
  pub load_from_dir-publish :
      (fresh : Bytes) (t t' : Topic Db) (env : Envelope) (m : Message) (log : List Message)
      → publish fresh t env ≡ (t', ok m)
      → (Storage.set_uint64 (stored t m).0 seq_key m.seq).1 ≡ true
      → Refines t log
      → IsNamed t
      → IsWire env
      → length fresh ≡ 16
      → t.seq + 1 < 2 ^ 64
      → CanLoad t'.db
      → (t₂ : Topic Db) × (load_from_dir (some t'.db) ≡ ok t₂)
        × Refines t₂ (log ++ (m ∷ []))
        × (t₂.name ≡ t.name)
        × (t₂.seq ≡ t.seq + 1)
  unfolding reloaded
  load_from_dir-publish fresh t t' env m log h numbered r d w f room c =
      let (is_next, is_advanced, _) = publish-eq-ok fresh t t' env m h in
      let refined = publish-Refines fresh t t' env m log h r w f room in
      (
        reloaded t',
        load_from_dir-reloaded t' (publish-Durable fresh t t' env m h numbered room d) c,
        record { held = refined.held; read_back = refined.read_back; up_to = refined.up_to },
        rw is_advanced refl,
        rw is_advanced (rw is_next (omega (arith, room))),
      )

  IsNumbered-same :
      (t t' : Topic Db)
      → t'.seq ≡ t.seq
      → lookup seq_key (b.entries t'.db) ≡ lookup seq_key (b.entries t.db)
      → IsNumbered t
      → IsNumbered t'
  IsNumbered-same t t' n e (inl there) = inl (e ∙ there ∙ rw n refl)
  IsNumbered-same t t' n e (inr (absent, zero)) = inr (e ∙ absent, n ∙ zero)

  -- Where the number of a message could not be stored, a restart takes the topic back to the number
  -- before, and the next message that it publishes has the number, and so the key, of the one that is
  -- there: for a topic whose name is stored and whose number before is stored, or that has had no message
  -- yet, and a database whose reads do not fail in the restart.
  pub load_from_dir-repeats :
      (fresh fresh₂ : Bytes) (t t' : Topic Db) (env env₂ : Envelope) (m : Message)
      → publish fresh t env ≡ (t', ok m)
      → (Storage.set_uint64 (stored t m).0 seq_key m.seq).1 ≡ false
      → Durable t
      → CanLoad t'.db
      → (t₂ : Topic Db) × (load_from_dir (some t'.db) ≡ ok t₂)
        × (lookup (msg_key m.seq) (b.entries t₂.db) ≡ some m.raw_wire)
        × ((next_message fresh₂ t₂ env₂).seq ≡ m.seq)
  unfolding reloaded
  load_from_dir-repeats fresh fresh₂ t t' env env₂ m h lost d c =
      let (is_next, is_advanced, done) = publish-eq-ok fresh t t' env m h in
      let entries : b.entries (Storage.set_uint64 (stored t m).0 seq_key m.seq).0
          ≡ put (msg_key m.seq) m.raw_wire (b.entries t.db) =
        b.set_aborts (stored t m).0 seq_key (put_uint64 m.seq) lost
        ∙ b.set_commits t.db (msg_key m.seq) m.raw_wire done in
      let before : Topic Db = record t { db = t'.db } in
      let same : lookup seq_key (b.entries before.db) ≡ lookup seq_key (b.entries t.db) =
        rw (is_advanced, entries, lookup-put, msg_key-ne-seq_key m.seq) refl in
      let d' : Durable before = record {
        of_name = rw (is_advanced, entries, lookup-put, msg_key-ne-name_key m.seq) d.of_name;
        of_seq = IsNumbered-same t before refl same d.of_seq;
        seq_fits = d.seq_fits;
      } in
      (
        reloaded before,
        load_from_dir-reloaded before d' c,
        rw (is_advanced, entries, lookup-put, bytes_eq_refl (msg_key m.seq)) refl,
        rw is_next refl,
      )
