-- ===== src/Session/CatchUp.antt =====
-- core/transport/mqtt/session.go, `deliverMessage` for the messages that a subscriber is behind: what
-- is written of them.
use broker_message.Base.{
  ℕ, ◌+◌, ◌%◌, ◌^◌, ◌≤◌, ◌<◌, ◌≡◌, refl, sym, ap, subst, ◌∙◌, arith, true, false, some, none, [],
  ◌∷◌, ◌++◌, List, ◌==◌, ltb, if◌then◌else◌, Bool-cases, inl, inr, Bytes, bytes_key, ok, take,
  length, All, append_assoc, append-nil, lookup, insert, lookup-insert, nat_key,
}
use broker_message.Envelope.{try_decode}
use broker_message.Storage.{Badger}
use broker_message.Offsets
use broker_message.Topic.{Topic, Message, decode_stored_message}
use broker_message.Topic.Keys.{msg_key, msg_key_prefix}
use broker_message.Topic.Log.{Stored, from_seq}
use broker_message.Topic.Refinement.{Refines, UpTo, CanIterate, get_messages-Refines}
use broker_message.Packet.Write.{write_publish}
use broker_message.Session.{
  State, Env, Session, InflightMsg, alloc_packet_id, next_id, count, deliver_total, good, failed,
}
use broker_message.Session.Deliver.{
  wire_of, deliver_message, deliver_qos0, deliver_qos1, allocate, take_packet_id, keep_inflight,
  set_offset,
}
use broker_message.Session.Subscribe.{catch_up_limit, catch_up_of, fetched, deliver_all}
use broker_message.Session.AckLaws.{alloc_loop-at_free, set_offset-session}
use broker_message.Session.Retransmission.{open_conn}
use broker_message.Session.Written.{write_counted-open}

-- The PUBLISH packets of these messages, in their order: with the packet ids from a number on at QoS 1,
-- and without one at QoS 0.
unfoldable pub publishes : ℕ → ℕ → List Message → List Bytes
publishes qos pid [] = []
publishes qos pid (m ∷ ms) =
    if qos == 1
    then write_publish m.topic m.raw_wire 1 pid false ∷ publishes qos (pid + 1) ms
    else write_publish m.topic m.raw_wire 0 0 false ∷ publishes qos pid ms

-- No packet id from the next one on is in flight, and `k` can follow it, as in a new session.
pub record HasIds (k : ℕ) (s : Session) : Type 0 where
  pub is_set : 1 ≤ s.next_pkt_id
  pub room : s.next_pkt_id + k ≤ 65535
  pub unused : (j : ℕ) → s.next_pkt_id ≤ j → lookup j s.inflight ≡ none

-- Behind the number of the topic there are no messages.
from_seq-UpTo : (n from : ℕ) (log : List Message) → n < from → UpTo n log → from_seq from log ≡ []
unfolding from_seq
from_seq-UpTo n from [] h a = refl
from_seq-UpTo n from (m ∷ log) h a =
    let before : ltb m.seq from ≡ true = ground (arith, a.0) in
    rw before (from_seq-UpTo n from log h a.1)

read_back-set :
    (name w : Bytes) (m : Message) → decode_stored_message name w ≡ some m → (length w == 0) ≡ false
unfolding decode_stored_message try_decode
read_back-set name [] m h = absurd cc
read_back-set name (x ∷ w) m h = ground arith

-- A message that can be read back is delivered in the form in which it is stored.
wire_of-Stored :
    (fresh : Bytes) (now : ℕ) (name : Bytes) (m : Message)
    → Stored name m
    → wire_of fresh now m ≡ m.raw_wire
unfolding wire_of
wire_of-Stored fresh now name m s =
    rw (read_back-set name m.raw_wire (record m { seq = 0 }) s.reads) refl

alloc_packet_id-next :
    (k : ℕ) (s : Session)
    → HasIds (k + 1) s
    → alloc_packet_id s ≡ some (s.next_pkt_id, record s { next_pkt_id = s.next_pkt_id + 1 })
unfolding alloc_packet_id
alloc_packet_id-next k s h =
    let next : next_id s.next_pkt_id ≡ s.next_pkt_id + 1 = ground (arith, h.room) in
    rw
      (
        alloc_loop-at_free 65534 s.next_pkt_id s.inflight (h.unused s.next_pkt_id (omega arith)),
        alloc_packet_id,
      )
      (ap (λ (n : ℕ). some (s.next_pkt_id, record s { next_pkt_id = n })) next)

-- An id that is taken in turn leaves the ones behind it.
HasIds-insert :
    (k : ℕ) (m : InflightMsg) (s s' : Session)
    → HasIds (k + 1) s
    → s'.next_pkt_id ≡ s.next_pkt_id + 1
    → s'.inflight ≡ insert s.next_pkt_id m s.inflight
    → HasIds k s'
HasIds-insert k m s s' h n i = record {
  is_set = omega (arith, h.is_set);
  room = omega (arith, h.room);
  unused = λ j above.
      let other : (s.next_pkt_id == j) ≡ false = ground arith in
      rw (i, lookup-insert s.next_pkt_id j m s.inflight, other) (h.unused j (omega arith));
}

module _ {Db : Type 0} ⦃b : Badger Db⦄ where
  pub catch_up_of-Refines :
      (t : Topic Db) (log : List Message) (id : Bytes)
      → Refines t log
      → t.seq < 2 ^ 64
      → CanIterate t.db msg_key_prefix (msg_key (Offsets.get t.offsets id + 1))
      → catch_up_of t id ≡ take catch_up_limit (from_seq (Offsets.get t.offsets id + 1) log)
  unfolding catch_up_of fetched
  catch_up_of-Refines t log id r room readable =
      let offset = Offsets.get t.offsets id in
      elim (Bool-cases (ltb offset t.seq)) [
        | inl behind ↦
            let small : (offset + 1) % 2 ^ 64 ≡ offset + 1 = ground arith in
            rw (behind, small)
              (ap fetched
                (get_messages-Refines t log (offset + 1) catch_up_limit r (ground arith) readable))
        | inr done ↦ rw (done, from_seq-UpTo t.seq (offset + 1) log (ground arith) r.up_to) refl
      ]

  -- What a delivery leaves: one more frame is written, and `k` packet ids can still be given out.
  abbrev Left : List Bytes → ℕ → ℕ → State Db → Type 0
  Left frames next k st =
      (st.session.conn ≡ open_conn frames) × (st.session.next_pkt_id ≡ next) × HasIds k st.session

  deliver_qos1-next :
      (env : Env Db) (name topic : Bytes) (m : Message) (frames : List Bytes) (k : ℕ)
      (st : State Db)
      → Stored name m
      → st.session.conn ≡ open_conn frames
      → HasIds (k + 1) st.session
      → (st' : State Db) × (deliver_qos1 env topic m st ≡ (st', ok tt))
        × Left
            (frames ++ (write_publish m.topic m.raw_wire 1 st.session.next_pkt_id false ∷ []))
            (st.session.next_pkt_id + 1)
            k
            st'
  unfolding deliver_qos1 allocate take_packet_id keep_inflight
  deliver_qos1-next env name topic m frames k st s o h =
      let pid = st.session.next_pkt_id in
      let wire = wire_of env.fresh_idempotency env.now m in
      let taken = record st.session { next_pkt_id = pid + 1 } in
      let msg : InflightMsg = record {
        topic_name = m.topic;
        seq = m.seq;
        wire = wire;
        qos = 1;
        sent_at = env.now;
        topic_ref = topic;
      } in
      let kept = keep_inflight pid msg (record st { session = taken }) in
      let frame = write_publish m.topic wire 1 pid false in
      let sending =
        write_counted-open frame (deliver_total topic 1 failed) (deliver_total topic 1 good) frames
          kept o in
      let st' = count (deliver_total topic 1 good) (record kept {
        session = record kept.session { conn = open_conn (frames ++ (frame ∷ [])) };
      }) in
      (
        st',
        rw (alloc_packet_id-next k st.session h) sending,
        (
          rw (wire_of-Stored env.fresh_idempotency env.now name m s) refl,
          refl,
          HasIds-insert k msg st.session st'.session h refl refl,
        ),
      )

  deliver_qos0-next :
      (env : Env Db) (name topic : Bytes) (m : Message) (frames : List Bytes) (k : ℕ)
      (st : State Db)
      → Stored name m
      → st.session.conn ≡ open_conn frames
      → HasIds (k + 1) st.session
      → (st' : State Db) × (deliver_qos0 env topic m st ≡ (st', ok tt))
        × Left
            (frames ++ (write_publish m.topic m.raw_wire 0 0 false ∷ []))
            st.session.next_pkt_id
            k
            st'
  unfolding deliver_qos0
  deliver_qos0-next env name topic m frames k st s o h =
      let frame = write_publish m.topic (wire_of env.fresh_idempotency env.now m) 0 0 false in
      let sending =
        write_counted-open frame (deliver_total topic 0 failed) (deliver_total topic 0 good) frames
          st o in
      let st₁ =
        count (deliver_total topic 0 good) (record st {
          session = record st.session { conn = open_conn (frames ++ (frame ∷ [])) };
        }) in
      let same = sym (set_offset-session topic m.seq st₁) in
      (
        set_offset topic m.seq st₁,
        rw sending refl,
        subst
            (λ (x : Session).
              (x.conn ≡ open_conn (frames ++ (write_publish m.topic m.raw_wire 0 0 false ∷ [])))
              × (x.next_pkt_id ≡ st.session.next_pkt_id)
              × HasIds k x)
            same
            (
              rw (wire_of-Stored env.fresh_idempotency env.now name m s) refl,
              refl,
              record { is_set = h.is_set; room = omega (arith, h.room); unused = h.unused },
            ),
      )

  -- The messages are written one after the other.
  pub deliver_all-writes :
      (env : Env Db) (name topic : Bytes) (qos : ℕ) (ms : List Message) (frames : List Bytes)
      (st : State Db)
      → All (Stored name) ms
      → st.session.conn ≡ open_conn frames
      → HasIds (length ms) st.session
      → (st' : State Db) × (deliver_all env topic qos ms st ≡ (st', ok tt))
        × (st'.session.conn ≡ open_conn (frames ++ publishes qos st.session.next_pkt_id ms))
  unfolding deliver_all deliver_message publishes
  deliver_all-writes env name topic qos [] frames st s o h = (st, refl, o ∙ rw append-nil refl)
  deliver_all-writes env name topic qos (m ∷ ms) frames st s o h =
      let pid = st.session.next_pkt_id in
      let more : length (m ∷ ms) ≡ length ms + 1 = omega arith in
      elim (Bool-cases (qos == 1)) [
        | inl one ↦
            let frame = write_publish m.topic m.raw_wire 1 pid false in
            let (st₁, sent, (conn, next, left)) =
              deliver_qos1-next env name topic m frames (length ms) st s.0 o
                (subst (λ n. HasIds n st.session) more h) in
            let (st', all, conn') =
              deliver_all-writes env name topic qos ms (frames ++ (frame ∷ [])) st₁ s.1 conn left in
            (
              st',
              rw (one, sent) all,
              conn'
                  ∙ rw (next, one)
                      (ap open_conn
                        (append_assoc frames (frame ∷ []) (publishes qos (pid + 1) ms))),
            )
        | inr other ↦
            let frame = write_publish m.topic m.raw_wire 0 0 false in
            let (st₁, sent, (conn, next, left)) =
              deliver_qos0-next env name topic m frames (length ms) st s.0 o
                (subst (λ n. HasIds n st.session) more h) in
            let (st', all, conn') =
              deliver_all-writes env name topic qos ms (frames ++ (frame ∷ [])) st₁ s.1 conn left in
            (
              st',
              rw (other, sent) all,
              conn'
                  ∙ rw (next, other)
                      (ap open_conn (append_assoc frames (frame ∷ []) (publishes qos pid ms))),
            )
      ]
