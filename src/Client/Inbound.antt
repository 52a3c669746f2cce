-- ===== src/Client/Inbound.antt =====
-- From the client's `Publish` (sdk/go/brokermq/client.go) to the broker's topic: the frame is read by
-- core/transport/mqtt/packet.go and handled by `handlePublish` of core/transport/mqtt/session.go.
use broker_message.Base.{
  ℕ, ◌+◌, ◌^◌, ◌<◌, ◌≡◌, ◌≢◌, refl, sym, ap, ◌∙◌, false, some, List, [], ◌∷◌, ◌++◌, arith, ltb,
  if◌then◌else◌, length, Bytes, bytes_eq, bytes_eq_iff, Bool-cases, inl, inr, Result, ok,
}
use broker_message.Envelope
use broker_message.Envelope.{Envelope, nil_uuid}
use broker_message.Envelope.RoundTrip.{IsWire, decode-encode}
use broker_message.Storage.{Badger}
use broker_message.Topic as Topics
use broker_message.Topic.{Topic, Message}
use broker_message.Topic.Publishing.{publish-eq-ok}
use broker_message.Topic.Refinement.{Refines, publish-Refines}
use broker_message.Registry
use broker_message.Packet.{Fault, Packet, PublishPacket, publish}
use broker_message.Packet.Read.{read_packet}
use broker_message.Packet.Publish.{sent, sent_id, publish_length}
use broker_message.Session.{State, Env}
use broker_message.Session.Publish.{envelope_of, is_duplicate, handle_publish}
use broker_message.Session.Accepted.{handle_publish-new}
use broker_message.Client as Sdk
use broker_message.Client.{Options}
use broker_message.Client.Interop.{read_packet-client_publish}

-- The idempotency key of a publication: that of the options, or a new one.
abbrev pub idempotency_key : Bytes → Options → Bytes
idempotency_key fresh o = if bytes_eq o.idempotency_id nil_uuid then fresh else o.idempotency_id

-- The envelope that the client sends.
abbrev pub sent_envelope : Bytes → ℕ → Options → Bytes → Envelope
sent_envelope fresh now o payload = record {
  idempotency_id = idempotency_key fresh o;
  server_msg_id = nil_uuid;
  publish_ts = now;
  user_props = [];
  payload = payload;
}

-- What is published fits the wire format, and the UUIDs have 16 bytes.
pub record IsSendable (fresh : Bytes) (now : ℕ) (o : Options) (pid : ℕ) (topic payload : Bytes)
    : Type 0 where
  pub fresh_len : length fresh ≡ 16
  pub fresh_set : fresh ≢ nil_uuid
  pub key_len : length o.idempotency_id ≡ 16
  pub time_fits : now < 2 ^ 64
  pub topic_fits : length topic < 2 ^ 16
  pub qos_fits : o.qos < 4
  pub pid_fits : pid < 2 ^ 16
  pub fits :
      publish_length topic (Envelope.encode (sent_envelope fresh now o payload)) o.qos < 2 ^ 28

same_packet :
    {p q : PublishPacket} {xs ys : Bytes}
    → Path (Result Fault (Packet × Bytes)) (ok (publish p, xs)) (ok (publish q, ys))
    → (p ≡ q) × (ys ≡ xs)
same_packet h = ground arith

module _ (fresh : Bytes) (now : ℕ) (o : Options) (pid : ℕ) (topic payload : Bytes) where
  new_publish-sent :
      fresh ≢ nil_uuid
      → Envelope.new_publish fresh now (idempotency_key fresh o) payload
        ≡ sent_envelope fresh now o payload
  unfolding Envelope.new_publish
  new_publish-sent h = elim (Bool-cases (bytes_eq o.idempotency_id nil_uuid)) [
    | inl nil ↦ elim (Bool-cases (bytes_eq fresh nil_uuid)) [
      | inl same ↦ absurd (h ((bytes_eq_iff fresh nil_uuid).0 same))
      | inr set ↦ rw (nil, set) refl
    ]
    | inr set ↦ rw (set, set) refl
  ]

  sent_envelope-IsWire :
      IsSendable fresh now o pid topic payload → IsWire (sent_envelope fresh now o payload)
  sent_envelope-IsWire s = elim (Bool-cases (bytes_eq o.idempotency_id nil_uuid)) [
    | inl nil ↦ record {
      idem_len = rw nil s.fresh_len;
      server_len = refl;
      idem_set = rw nil s.fresh_set;
      ts_fits = s.time_fits;
      props_fit = omega arith;
    }
    | inr set ↦ record {
      idem_len = rw set s.key_len;
      server_len = refl;
      idem_set = rw set (λ (same : o.idempotency_id ≡ nil_uuid).
          cc (sym set ∙ (bytes_eq_iff o.idempotency_id nil_uuid).1 same));
      ts_fits = s.time_fits;
      props_fit = omega arith;
    }
  ]

  -- The packet that the broker reads.
  abbrev pub read_back : PublishPacket
  read_back =
      sent topic (Envelope.encode (sent_envelope fresh now o payload)) o.qos (sent_id o.qos pid)
        false

  publish-frame :
      fresh ≢ nil_uuid
      → (Sdk.publish fresh now o pid topic payload).0
        ≡ Sdk.write_publish topic
            (Envelope.encode (sent_envelope fresh now o payload))
            o.qos
            (sent_id o.qos pid)
            false
  unfolding Sdk.publish
  publish-frame h = elim (Bool-cases (ltb 0 o.qos)) [
    | inl some_id ↦ rw (new_publish-sent h, some_id) refl
    | inr no_id ↦ rw (new_publish-sent h, no_id) refl
  ]

  pub read_packet-publish :
      (rest : Bytes)
      → IsSendable fresh now o pid topic payload
      → read_packet ((Sdk.publish fresh now o pid topic payload).0 ++ rest)
        ≡ ok (publish read_back, rest)
  read_packet-publish rest s = rw (publish-frame s.fresh_set) (
      read_packet-client_publish topic (Envelope.encode (sent_envelope fresh now o payload)) o.qos
        (sent_id o.qos pid) false rest s.topic_fits s.qos_fits (ground (arith, s.pid_fits)) s.fits)

  envelope_of-sent :
      (other : Bytes) (later : ℕ)
      → IsSendable fresh now o pid topic payload
      → envelope_of other later read_back.payload ≡ sent_envelope fresh now o payload
  unfolding envelope_of
  envelope_of-sent other later s =
      rw (decode-encode (sent_envelope fresh now o payload) (sent_envelope-IsWire s), envelope_of)
        refl

  module _ {Db : Type 0} ⦃b : Badger Db⦄ where
    -- A publication of the client that reaches the broker, and that `handlePublish` accepts as no
    -- duplicate, appends to the messages of the topic that `GetOrCreate` gives, be it there or just made,
    -- one with the client's payload, its key and its time, and the next sequence number, which does not
    -- wrap. What follows the frame is left for the next packet. The topic is below 2 ^ 16 bytes, the QoS
    -- of the options below 4, the packet id below 2 ^ 16, the time below 2 ^ 64 and the frame below
    -- 2 ^ 28; ids are of 16 bytes, and a fresh one of the client is not the nil UUID.
    pub publish-appends :
        (rest left : Bytes) (pp : PublishPacket) (env : Env Db) (st st₁ : State Db)
        (reg : Registry.Registry Db) (t : Topic Db) (log : List Message)
        → IsSendable fresh now o pid topic payload
        → read_packet ((Sdk.publish fresh now o pid topic payload).0 ++ rest)
          ≡ ok (publish pp, left)
        → handle_publish env pp st ≡ (st₁, ok tt)
        → Registry.get_or_create env.open_dir topic st.broker.registry ≡ (reg, some t)
        → (is_duplicate env (idempotency_key fresh o) st).1 ≡ ok false
        → Refines t log
        → length env.fresh_server ≡ 16
        → t.seq + 1 < 2 ^ 64
        → (t' : Topic Db) × (m : Message) × (Registry.get st₁.broker.registry topic ≡ some t')
          × Refines t' (log ++ (m ∷ []))
          × (m.payload ≡ payload)
          × (m.idempotency_id ≡ idempotency_key fresh o)
          × (m.timestamp ≡ now)
          × (m.seq ≡ t.seq + 1)
          × (left ≡ rest)
    publish-appends rest left pp env st st₁ reg t log s read h there new r server room =
        let (same, leaves) = same_packet (sym (read_packet-publish rest s) ∙ read) in
        let envelope : envelope_of env.fresh_idempotency env.now pp.payload
            ≡ sent_envelope fresh now o payload =
          rw (← same) (envelope_of-sent env.fresh_idempotency env.now s) in
        let name : topic ≡ pp.topic_name = ap (λ (p : PublishPacket). p.topic_name) same in
        let (t', m, stored, registered) =
          handle_publish-new env pp st st₁ reg t h
            (ap (λ (n : Bytes). Registry.get_or_create env.open_dir n st.broker.registry) (sym name)
              ∙ there)
            (ap (λ (e : Envelope). (is_duplicate env e.idempotency_id st).1) envelope ∙ new) in
        let stored' : Topics.publish env.fresh_server t (sent_envelope fresh now o payload)
            ≡ (t', ok m) =
          ap (Topics.publish env.fresh_server t) (sym envelope) ∙ stored in
        let (is_next, _, _) =
          publish-eq-ok env.fresh_server t t' (sent_envelope fresh now o payload) m stored' in
        (
          t',
          m,
          ap (Registry.get st₁.broker.registry) name ∙ registered,
          publish-Refines env.fresh_server t t' (sent_envelope fresh now o payload) m log stored' r
              (sent_envelope-IsWire s) server room,
          rw is_next refl,
          rw is_next refl,
          rw is_next refl,
          rw is_next (omega (arith, room)),
          leaves,
        )
