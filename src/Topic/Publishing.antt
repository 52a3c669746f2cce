-- ===== src/Topic/Publishing.antt =====
-- core/topic/topic.go: what `Publish` stores, and what `decodeStoredMessage` makes of it.
use broker_message.Base.{
  ℕ, ◌+◌, ◌%◌, ◌^◌, ◌≡◌, refl, sym, ap, ◌∙◌, Bool, true, false, some, arith, length, Bytes,
  bytes_eq, lookup, bytes_key, Result, ok, err, Bool-cases, inl, inr, ok-injective, put_uint64,
  bytes_eq_refl, if◌then◌else◌,
}
use broker_message.Envelope
use broker_message.Envelope.{Envelope, nil_uuid, encode, decode, try_decode, to_option}
use broker_message.Envelope.RoundTrip.{IsWire, decode-encode, try_decode-eq-decode}
use broker_message.Storage
use broker_message.Storage.{Badger}
use broker_message.Storage.Entries.{lookup-put}
use broker_message.Topic.{
  Topic, Message, TopicError, persist_message, seq_key, decode_stored_message, publish, fan_out,
}
use broker_message.Topic.Keys.{msg_key}

-- The envelope as it is stored: a message id of its own is made where it has none.
abbrev pub stamped : Bytes → Envelope → Envelope
stamped fresh env =
    Envelope.with_server_msg_id
      (if bytes_eq env.server_msg_id nil_uuid then fresh else env.server_msg_id) env

pub stamped-IsWire :
    (fresh : Bytes) (env : Envelope) → IsWire env → length fresh ≡ 16 → IsWire (stamped fresh env)
stamped-IsWire fresh env w h = record {
  idem_len = w.idem_len;
  server_len = ground (arith, w.server_len);
  idem_set = w.idem_set;
  ts_fits = w.ts_fits;
  props_fit = w.props_fit;
}

-- What `Publish` makes of an envelope.
abbrev pub message_of : Bytes → ℕ → Bytes → Envelope → Message
message_of name seq fresh env = record {
  seq = seq;
  topic = name;
  payload = env.payload;
  timestamp = env.publish_ts;
  idempotency_id = env.idempotency_id;
  server_msg_id = (stamped fresh env).server_msg_id;
  raw_wire = encode (stamped fresh env);
}

decode_stored-encode :
    (name : Bytes) (env : Envelope)
    → IsWire env
    → decode_stored_message name (encode env)
      ≡ some (record {
        seq = 0;
        topic = name;
        payload = env.payload;
        timestamp = env.publish_ts;
        idempotency_id = env.idempotency_id;
        server_msg_id = env.server_msg_id;
        raw_wire = encode env;
      })
unfolding decode_stored_message
decode_stored-encode name env w =
    let read : try_decode (encode env) ≡ some env =
      try_decode-eq-decode (encode env) ∙ rw (decode-encode env w) refl in
    rw (read, decode_stored_message) refl

msg_key-ne-seq_key : (n : ℕ) → bytes_eq seq_key (msg_key n) ≡ false
unfolding msg_key bytes_eq
msg_key-ne-seq_key n = refl

module _ {Db : Type 0} ⦃b : Badger Db⦄ where
  abbrev pub next_message : Bytes → Topic Db → Envelope → Message
  next_message fresh t env = message_of t.name ((t.seq + 1) % 2 ^ 64) fresh env

  -- The transaction that stores the message, and the topic behind it.
  abbrev pub stored : Topic Db → Message → Db × Bool
  stored t m = Storage.set t.db (msg_key m.seq) m.raw_wire

  abbrev pub advanced : Topic Db → Message → Topic Db
  advanced t m = record t {
    seq = m.seq;
    db = (Storage.set_uint64 (stored t m).0 seq_key m.seq).0;
    chans = fan_out m t.subs t.chans;
  }

  publish-commits :
      (fresh : Bytes) (t : Topic Db) (env : Envelope)
      → (stored t (next_message fresh t env)).1 ≡ true
      → publish fresh t env ≡ (advanced t (next_message fresh t env), ok (next_message fresh t env))
  unfolding publish
  publish-commits fresh t env h = rw (h, publish) refl

  publish-aborts :
      (fresh : Bytes) (t : Topic Db) (env : Envelope)
      → (stored t (next_message fresh t env)).1 ≡ false
      → (publish fresh t env).1 ≡ err persist_message
  unfolding publish
  publish-aborts fresh t env h = rw (h, publish) refl

  -- The parts of a publication that succeeds.
  pub publish-eq-ok :
      (fresh : Bytes) (t t' : Topic Db) (env : Envelope) (m : Message)
      → publish fresh t env ≡ (t', ok m)
      → (m ≡ next_message fresh t env) × (t' ≡ advanced t m) × ((stored t m).1 ≡ true)
  publish-eq-ok fresh t t' env m h = elim (Bool-cases (stored t (next_message fresh t env)).1) [
    | inl done ↦
        let whole = sym (publish-commits fresh t env done) ∙ h in
        let same : next_message fresh t env ≡ m =
          ok-injective _ _ (ap (λ (x : Topic Db × Result TopicError Message). x.1) whole) in
        (
          sym same,
          rw (← same) (ap (λ (x : Topic Db × Result TopicError Message). x.0) (sym whole)),
          rw (← same) done,
        )
    | inr lost ↦
        let failed =
          sym (publish-aborts fresh t env lost)
          ∙ ap (λ (x : Topic Db × Result TopicError Message). x.1) h in
        absurd cc
  ]

  lookup-seq_put :
      (n v : ℕ) (db : Db)
      → lookup (msg_key n) (b.entries (Storage.set_uint64 db seq_key v).0)
        ≡ lookup (msg_key n) (b.entries db)
  lookup-seq_put n v db = elim (Bool-cases (Storage.set_uint64 db seq_key v).1) [
    | inl done ↦ rw (b.set_commits db seq_key (put_uint64 v) done) (
        lookup-put seq_key (msg_key n) (put_uint64 v) (b.entries db)
        ∙ rw (msg_key-ne-seq_key n) refl)
    | inr lost ↦ rw (b.set_aborts db seq_key (put_uint64 v) lost) refl
  ]

  -- A message that is published has the next sequence number, and the database holds it under that
  -- number's key in bytes that decode to the message again, for an envelope that fits the wire format
  -- and a fresh UUID of 16 bytes. (What is stored carries no sequence number: the key does.)
  pub publish-stored :
      (fresh : Bytes) (t t' : Topic Db) (env : Envelope) (m : Message)
      → publish fresh t env ≡ (t', ok m)
      → IsWire env
      → length fresh ≡ 16
      → (m.seq ≡ (t.seq + 1) % 2 ^ 64)
        × (t'.seq ≡ m.seq)
        × (lookup (msg_key m.seq) (b.entries t'.db) ≡ some m.raw_wire)
        × (decode_stored_message t.name m.raw_wire ≡ some (record m { seq = 0 }))
  publish-stored fresh t t' env m h w f =
      let (is_next, is_advanced, done) = publish-eq-ok fresh t t' env m h in
      (
        rw is_next refl,
        rw is_advanced refl,
        rw is_advanced (
            lookup-seq_put m.seq m.seq (stored t m).0
            ∙ rw (b.set_commits t.db (msg_key m.seq) m.raw_wire done) (
                lookup-put (msg_key m.seq) (msg_key m.seq) m.raw_wire (b.entries t.db)
                ∙ rw (bytes_eq_refl (msg_key m.seq)) refl)),
        rw is_next (decode_stored-encode t.name (stamped fresh env) (stamped-IsWire fresh env w f)),
      )
