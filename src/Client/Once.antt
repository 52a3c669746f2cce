-- ===== src/Client/Once.antt =====
-- sdk/go/brokermq, the loop of `Subscribe`: which messages the handler gets of what the broker sends.
use broker_message.Base.{
  false, ℕ, suc, ◌+◌, ◌^◌, ◌≤◌, ◌<◌, ◌≡◌, refl, ap, ◌∙◌, Bool, true, Option, some, none, List, [],
  ◌∷◌, ◌++◌, arith, ltb, if◌then◌else◌, length, length-append, All, append_assoc, append-nil, Bytes,
  bytes_eq, le→not_ltb, Bool-cases, inl, inr,
}
use broker_message.Envelope.{Envelope, encode, nil_uuid}
use broker_message.Envelope.RoundTrip.{IsWire, decode-encode}
use broker_message.Packet.Write.{encode_string, publish_header, write_publish}
use broker_message.Packet.Strings.{length-encode_string}
use broker_message.Packet.Publish.{
  id_bytes, sent_id, length-id_bytes, publish_length, publish_header-Flags, write_publish-body,
}
use broker_message.Session.{write_conn}
use broker_message.Session.Retransmission.{open_conn}
use broker_message.Client.{
  SeenCache, Message, contains, evict_oldest, seen, received, deliver, pub_ack_packet,
}
use broker_message.Client.Connection.{
  Client, write, read_packet_flags, acknowledge, take_delivery, take_packet, round, receive_loop,
}
use broker_message.Client.Frames.{read_packet_flags-body, parse_publish_body-written}

-- A PUBLISH of the broker.
pub record Delivery : Type 0 where
  pub topic : Bytes
  pub env : Envelope
  pub qos : ℕ
  pub pid : ℕ
  pub dup : Bool

-- It fits the wire format.
pub record IsDelivery (d : Delivery) : Type 0 where
  pub topic_fits : length d.topic < 2 ^ 16
  pub qos_fits : d.qos < 4
  pub pid_fits : d.pid < 2 ^ 16
  pub is_wire : IsWire d.env
  pub fits : publish_length d.topic (encode d.env) d.qos < 2 ^ 28

abbrev pub frame : Delivery → Bytes
frame d = write_publish d.topic (encode d.env) d.qos d.pid d.dup

-- What the handler is given of it.
abbrev pub message : Delivery → Message
message d = record {
  topic = d.topic;
  payload = d.env.payload;
  idempotency_id = d.env.idempotency_id;
  server_msg_id = d.env.server_msg_id;
  publish_ts = d.env.publish_ts;
}

-- The PUBACK that is owed for it.
abbrev pub ack : Delivery → List Bytes
ack d = if ltb 0 (sent_id d.qos d.pid) then pub_ack_packet (sent_id d.qos d.pid) ∷ [] else []

received-encode : (e : Envelope) → IsWire e → received (encode e) ≡ e
unfolding received
received-encode e w = rw (decode-encode e w, received) refl

-- The body of the frame, behind the length prefix.
abbrev body_of : Delivery → Bytes
body_of d = encode_string d.topic ++ (id_bytes d.qos d.pid ++ encode d.env)

deliver-body :
    (d : Delivery) (cache : SeenCache)
    → IsDelivery d
    → deliver (body_of d) d.qos cache ≡ (
      (seen d.env.server_msg_id cache).0,
      (if (seen d.env.server_msg_id cache).1 then none else some (message d)),
      (if ltb 0 (sent_id d.qos d.pid) then some (sent_id d.qos d.pid) else none),
    )
unfolding deliver
deliver-body d cache i =
    rw
      (
        parse_publish_body-written d.topic (encode d.env) d.qos d.pid i.topic_fits i.pid_fits,
        received-encode d.env i.is_wire,
      )
      refl

-- One round of the loop at a frame.
round-frame :
    (d : Delivery) (rest : Bytes) (c : Client)
    → IsDelivery d
    → c.input ≡ frame d ++ rest
    → round (read_packet_flags c) ≡ (
        let (c', msgs) =
          take_delivery (deliver (body_of d) d.qos c.seen) (record c { input = rest }) in
        (c', msgs, true))
unfolding round take_packet
round-frame d rest c i h =
    let f = publish_header-Flags d.qos d.dup i.qos_fits in
    let small : length (body_of d) < 2 ^ 28 =
      rw (length-append, length-append)
        (ground (arith, length-encode_string d.topic, length-id_bytes d.qos d.pid, i.fits)) in
    rw
      (read_packet_flags-body (publish_header d.qos d.dup) (body_of d) rest c
        (h ∙ write_publish-body d.topic (encode d.env) d.qos d.pid d.dup rest) small)
      (rw (f.of_type, f.of_qos) refl)

abbrev ack_of : Option ℕ → List Bytes
ack_of none = []
ack_of (some pid) = pub_ack_packet pid ∷ []

abbrev handed : Option Message → List Message
handed none = []
handed (some m) = m ∷ []

-- What the loop does with a delivery, on a connection that takes every frame.
record Taken (cache : SeenCache) (m : Option Message) (o : Option ℕ) (frames : List Bytes)
    (c : Client) (r : Client × List Message) : Type 0 where
  of_input : r.0.input ≡ c.input
  of_seen : r.0.seen ≡ cache
  of_conn : r.0.conn ≡ open_conn (frames ++ ack_of o)
  of_messages : r.1 ≡ handed m

take_delivery-Taken :
    (cache : SeenCache) (m : Option Message) (o : Option ℕ) (frames : List Bytes) (c : Client)
    → c.conn ≡ open_conn frames
    → Taken cache m o frames c (take_delivery (cache, m, o) c)
unfolding take_delivery acknowledge write write_conn
take_delivery-Taken cache none none frames c h = record {
  of_input = refl;
  of_seen = refl;
  of_conn = rw append-nil h;
  of_messages = refl;
}
take_delivery-Taken cache none (some pid) frames c h = record {
  of_input = refl;
  of_seen = refl;
  of_conn = rw h refl;
  of_messages = refl;
}
take_delivery-Taken cache (some m) none frames c h = record {
  of_input = refl;
  of_seen = refl;
  of_conn = rw append-nil h;
  of_messages = refl;
}
take_delivery-Taken cache (some m) (some pid) frames c h = record {
  of_input = refl;
  of_seen = refl;
  of_conn = rw h refl;
  of_messages = refl;
}

-- The cache, while it has room for one more key.
evict_oldest-room :
    (c : SeenCache) (keys : List Bytes)
    → length keys ≤ c.cap
    → evict_oldest c keys ≡ record c { keys = keys }
unfolding evict_oldest
evict_oldest-room c [] h = refl
evict_oldest-room c (k ∷ keys) h = rw (le→not_ltb c.cap (length (k ∷ keys)) h) refl

ack_of-ack :
    (d : Delivery)
    → ack_of (if ltb 0 (sent_id d.qos d.pid) then some (sent_id d.qos d.pid) else none) ≡ ack d
ack_of-ack d = elim (Bool-cases (ltb 0 (sent_id d.qos d.pid))) [
  | inl e ↦ rw e refl
  | inr e ↦ rw e refl
]

-- The messages that come for the first time, beside the ids that are known; a nil id is not kept.
unfoldable pub news : List Bytes → List Delivery → List Message
news known [] = []
news known (d ∷ ds) =
    let again = news known ds in
    let new = news (d.env.server_msg_id ∷ known) ds in
    if bytes_eq d.env.server_msg_id nil_uuid
    then message d ∷ again
    else if contains d.env.server_msg_id known
    then again
    else message d ∷ new

abbrev pub frames_of : List Delivery → Bytes
frames_of [] = []
frames_of (d ∷ ds) = frame d ++ frames_of ds

abbrev pub acks : List Delivery → List Bytes
acks [] = []
acks (d ∷ ds) = ack d ++ acks ds

abbrev HasRoom : ℕ → SeenCache → Type 0
HasRoom n c = length c.keys + n ≤ c.cap

-- The message that a delivery gives, beside what the rest gives.
news-seen :
    (n : ℕ) (d : Delivery) (ds : List Delivery) (cache : SeenCache)
    → HasRoom (suc n) cache
    → (handed (if (seen d.env.server_msg_id cache).1 then none else some (message d))
          ++ news (seen d.env.server_msg_id cache).0.set ds
        ≡ news cache.set (d ∷ ds))
      × HasRoom n (seen d.env.server_msg_id cache).0
unfolding seen news
news-seen n d ds cache room =
    let id = d.env.server_msg_id in
    elim (Bool-cases (bytes_eq id nil_uuid)) [
      | inl nil ↦ rw nil (refl, omega arith)
      | inr set ↦ elim (Bool-cases (contains id cache.set)) [
        | inl old ↦ rw (set, old) (refl, omega arith)
        | inr new ↦
            let size : length (cache.keys ++ (id ∷ [])) ≡ length cache.keys + 1 =
              length-append cache.keys (id ∷ []) in
            rw
              (
                set,
                new,
                evict_oldest-room (record cache { set = id ∷ cache.set }) (cache.keys ++ (id ∷ []))
                    (omega arith),
              )
              (refl, omega arith)
      ]
    ]

-- Of PUBLISH packets that come one after the other, on a connection that takes every frame, the
-- handler gets each server id once, in the order in which they came first, and those without one; all
-- that carry a packet id are acknowledged. The ids that are known and the new ones fit the cache.
pub receive_loop-news :
    (ds : List Delivery) (rest : Bytes) (frames : List Bytes) (c : Client)
    → c.input ≡ frames_of ds ++ rest
    → All IsDelivery ds
    → c.conn ≡ open_conn frames
    → length c.seen.keys + length ds ≤ c.seen.cap
    → ((receive_loop (length ds) c).1 ≡ news c.seen.set ds)
      × ((receive_loop (length ds) c).0.conn ≡ open_conn (frames ++ acks ds))
      × ((receive_loop (length ds) c).0.input ≡ rest)
unfolding receive_loop
receive_loop-news [] rest frames c h i o room = (unfold news in refl, rw append-nil o, h)
receive_loop-news (d ∷ ds) rest frames c h i o room =
    let (cache, known) = seen d.env.server_msg_id c.seen in
    let m = if known then none else some (message d) in
    let pid = if ltb 0 (sent_id d.qos d.pid) then some (sent_id d.qos d.pid) else none in
    let c₀ : Client = record c { input = frames_of ds ++ rest } in
    let t = take_delivery-Taken cache m pid frames c₀ o in
    let (r₁, r₂) = take_delivery (cache, m, pid) c₀ in
    let first : round (read_packet_flags c) ≡ (r₁, r₂, true) =
      round-frame d (frames_of ds ++ rest) c i.0 (h ∙ append_assoc (frame d) (frames_of ds) rest)
      ∙ rw (deliver-body d c.seen i.0) refl in
    let (same, room') = news-seen (length ds) d ds c.seen room in
    let (later, conn, input) =
      receive_loop-news ds rest (frames ++ ack_of pid) r₁ t.of_input i.1 t.of_conn
        (rw t.of_seen room') in
    let known_later : news r₁.seen.set ds ≡ news cache.set ds =
      ap (λ (s : SeenCache). news s.set ds) t.of_seen in
    rw first (
      rw t.of_messages (ap (◌++◌ (handed m)) (later ∙ known_later) ∙ same),
      conn
          ∙ ap open_conn (
              append_assoc frames (ack_of pid) (acks ds)
              ∙ ap (λ (a : List Bytes). frames ++ (a ++ acks ds)) (ack_of-ack d)),
      input,
    )

seen-unknown :
    (id : Bytes) (cache : SeenCache) → contains id cache.set ≡ false → (seen id cache).1 ≡ false
unfolding seen
seen-unknown id cache h = elim (Bool-cases (bytes_eq id nil_uuid)) [
  | inl nil ↦ rw nil refl
  | inr set ↦ rw (set, h) refl
]

-- One PUBLISH whose id the cache does not have, be the cache full or not.
pub receive_loop-one :
    (d : Delivery) (rest : Bytes) (frames : List Bytes) (c : Client)
    → c.input ≡ frame d ++ rest
    → IsDelivery d
    → c.conn ≡ open_conn frames
    → contains d.env.server_msg_id c.seen.set ≡ false
    → ((receive_loop 1 c).1 ≡ message d ∷ []) × ((receive_loop 1 c).0.input ≡ rest)
unfolding receive_loop
receive_loop-one d rest frames c h i o unknown =
    let (cache, known) = seen d.env.server_msg_id c.seen in
    let pid = if ltb 0 (sent_id d.qos d.pid) then some (sent_id d.qos d.pid) else none in
    let c₀ : Client = record c { input = rest } in
    let t = take_delivery-Taken cache (some (message d)) pid frames c₀ o in
    let (r₁, r₂) = take_delivery (cache, some (message d), pid) c₀ in
    let first : round (read_packet_flags c) ≡ (r₁, r₂, true) =
      round-frame d rest c i h
      ∙ rw (deliver-body d c.seen i, seen-unknown d.env.server_msg_id c.seen unknown) refl in
    rw first (rw t.of_messages refl, t.of_input)

-- The last of the frames that were written.
pub last_frame :
    (frames : List Bytes) (x y : Bytes)
    → Path (List Bytes) (frames ++ (x ∷ [])) (frames ++ (y ∷ []))
    → x ≡ y
last_frame [] x y h = cc
last_frame (f ∷ frames) x y h = last_frame frames x y (cc)
