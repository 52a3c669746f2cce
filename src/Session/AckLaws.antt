-- ===== src/Session/AckLaws.antt =====
-- core/transport/mqtt/session.go: the packet ids of `allocPacketID`, and what `handlePubAck` leaves.
use broker_message.Base.{
  ℕ, zero, suc, ◌+◌, ◌-◌, ◌≤◌, ◌<◌, ◌≡◌, ◌≢◌, refl, sym, ap, ◌∙◌, Option, some, none, arith, ◌==◌,
  ==_iff, Bytes, bytes_eq_refl, Assoc, lookup, insert, remove, nat_key, bytes_key, lookup-insert,
  Option-cases, Bool-cases, ltb, inl, inr,
}
use broker_message.Storage.{Badger}
use broker_message.Offsets
use broker_message.Topic.{Topic}
use broker_message.Registry
use broker_message.Session.{
  State, Session, InflightMsg, next_id, alloc_or, alloc_loop, packet_ids, alloc_packet_id, count,
  inflight_dec,
}
use broker_message.Session.Deliver.{set_topic_offset, set_offset, client_offset}
use broker_message.Session.Acks.{set_inflight, acked, handle_pub_ack}

-- An id that a MQTT packet may carry.
abbrev pub IsPacketId : ℕ → Type 0
IsPacketId n = (1 ≤ n) × (n ≤ 65535)

next_id-IsPacketId : (n : ℕ) → IsPacketId n → IsPacketId (next_id n)
next_id-IsPacketId n h = ground arith

-- One round of the loop, for an id that is free and for one that is taken.
pub alloc_loop-at_free :
    (fuel start : ℕ) (inflight : Assoc ℕ InflightMsg)
    → lookup start inflight ≡ none
    → alloc_loop (suc fuel) start inflight ≡ some (start, next_id start)
unfolding alloc_loop alloc_or
alloc_loop-at_free fuel start inflight h = rw h refl

alloc_loop-at_taken :
    (fuel start : ℕ) (inflight : Assoc ℕ InflightMsg) {m : InflightMsg}
    → lookup start inflight ≡ some m
    → alloc_loop (suc fuel) start inflight ≡ alloc_loop fuel (next_id start) inflight
unfolding alloc_loop alloc_or
alloc_loop-at_taken fuel start inflight h = rw h refl

pub alloc_loop-free :
    (fuel start : ℕ) (inflight : Assoc ℕ InflightMsg) (found : ℕ × ℕ)
    → IsPacketId start
    → alloc_loop fuel start inflight ≡ some found
    → (lookup found.0 inflight ≡ none) × IsPacketId found.0 × IsPacketId found.1
alloc_loop-free zero start inflight found r h =
    let empty : alloc_loop zero start inflight ≡ none = unfold alloc_loop in refl in absurd cc
alloc_loop-free (suc fuel) start inflight found r h = elim (Option-cases (lookup start inflight)) [
  | inl free ↦
      let same : some (start, next_id start) ≡ some found =
        sym (alloc_loop-at_free fuel start inflight free) ∙ h in
      let here : (start, next_id start) ≡ found = cc in
      rw (← here) (free, r, next_id-IsPacketId start r)
  | inr (m, taken) ↦
      alloc_loop-free fuel (next_id start) inflight found (next_id-IsPacketId start r)
        (sym (alloc_loop-at_taken fuel start inflight taken) ∙ h)
]

-- The id that the loop looks at in round `k`.
walk : ℕ → ℕ → ℕ
walk zero start = start
walk (suc k) start = walk k (next_id start)

alloc_loop-taken :
    (k fuel start : ℕ) (inflight : Assoc ℕ InflightMsg)
    → alloc_loop fuel start inflight ≡ none
    → k < fuel
    → lookup (walk k start) inflight ≢ none
unfolding walk
alloc_loop-taken k zero start inflight h l free = absurd (omega arith)
alloc_loop-taken zero (suc fuel) start inflight h l free =
    let found = sym (alloc_loop-at_free fuel start inflight free) ∙ h in cc
alloc_loop-taken (suc k) (suc fuel) start inflight h l free =
    elim (Option-cases (lookup start inflight)) [
      | inl here ↦ let found = sym (alloc_loop-at_free fuel start inflight here) ∙ h in absurd cc
      | inr (m, taken) ↦
          alloc_loop-taken k fuel (next_id start) inflight
            (sym (alloc_loop-at_taken fuel start inflight taken) ∙ h) (omega arith) free
    ]

walk-below : (k start : ℕ) → IsPacketId start → start + k ≤ 65535 → walk k start ≡ start + k
unfolding walk
walk-below zero start r h = omega arith
walk-below (suc k) start r h =
    let next : next_id start ≡ start + 1 = ground arith in
    rw next (omega (arith, walk-below k (start + 1) (omega arith) (omega arith)))

walk-above :
    (k start : ℕ)
    → IsPacketId start
    → 65535 < start + k
    → k < 65535
    → walk k start ≡ start + k - 65535
unfolding walk
walk-above zero start r h l = absurd (omega arith)
walk-above (suc k) start r h l = elim (Bool-cases (start == 65535)) [
  | inl last ↦
      let at : start ≡ 65535 = (==_iff start 65535).0 last in
      rw at (omega (arith, walk-below k 1 (omega arith) (omega arith)))
  | inr other ↦
      let next : next_id start ≡ start + 1 = ground arith in
      rw next (omega (arith, walk-above k (start + 1) (ground arith) (omega arith) (omega arith)))
]

alloc_loop_complete :
    (start : ℕ) (inflight : Assoc ℕ InflightMsg) (j : ℕ)
    → IsPacketId start
    → IsPacketId j
    → alloc_loop packet_ids start inflight ≡ none
    → lookup j inflight ≢ none
alloc_loop_complete start inflight j r q h free = elim (Bool-cases (ltb j start)) [
  | inl below ↦
      let k = j + 65535 - start in
      let at : walk k start ≡ j =
        walk-above k start r (ground arith) (ground arith) ∙ ground arith in
      alloc_loop-taken k packet_ids start inflight h (ground arith) (rw at free)
  | inr above ↦
      let k = j - start in
      let at : walk k start ≡ j = walk-below k start r (ground arith) ∙ ground arith in
      alloc_loop-taken k packet_ids start inflight h (ground arith) (rw at free)
]

-- If one of the 65535 packet ids is not in flight, the search ends: it returns an id that is not in
-- flight and that a packet may carry, and leaves such an id as the next one to try.
pub alloc_packet_id-free :
    (s : Session) (j : ℕ)
    → IsPacketId s.next_pkt_id
    → IsPacketId j
    → lookup j s.inflight ≡ none
    → (id : ℕ) × (s' : Session) × (alloc_packet_id s ≡ some (id, s'))
      × (lookup id s.inflight ≡ none)
      × IsPacketId id
      × IsPacketId s'.next_pkt_id
unfolding alloc_packet_id
alloc_packet_id-free s j r q unused =
    elim (Option-cases (alloc_loop packet_ids s.next_pkt_id s.inflight)) [
      | inl stuck ↦ absurd (alloc_loop_complete s.next_pkt_id s.inflight j r q stuck unused)
      | inr (found, e) ↦
          let (free, id, next) = alloc_loop-free packet_ids s.next_pkt_id s.inflight found r e in
          (
            found.0,
            record s { next_pkt_id = found.1 },
            rw (e, alloc_packet_id) refl,
            free,
            id,
            next,
          )
    ]

lookup-insert_same :
    {V : Type 0} (k : Bytes) (v : V) (m : Assoc Bytes V) → lookup k (insert k v m) ≡ some v
lookup-insert_same k v m = lookup-insert k k v m ∙ rw (bytes_eq_refl k) refl

module _ {Db : Type 0} ⦃b : Badger Db⦄ where
  pub client_offset-found :
      (name : Bytes) (st : State Db) (t : Topic Db)
      → Registry.get st.broker.registry name ≡ some t
      → client_offset name st ≡ Offsets.get t.offsets st.session.client_id
  unfolding client_offset
  client_offset-found name st t h = rw (h, client_offset) refl

  set_offset-found :
      (name : Bytes) (seq : ℕ) (st : State Db) (t : Topic Db)
      → Registry.get st.broker.registry name ≡ some t
      → set_offset name seq st ≡ set_topic_offset name st.session.client_id seq (some t) st
  unfolding set_offset
  set_offset-found name seq st t h = rw h refl

  pub set_offset-session :
      (name : Bytes) (seq : ℕ) (st : State Db) → (set_offset name seq st).session ≡ st.session
  unfolding set_offset set_topic_offset
  set_offset-session name seq st = elim (Option-cases (Registry.get st.broker.registry name)) [
    | inl e ↦ rw e refl
    | inr (t, e) ↦ rw e refl
  ]

  client_offset-set_offset :
      (name : Bytes) (seq : ℕ) (st : State Db) (t : Topic Db)
      → Registry.get st.broker.registry name ≡ some t
      → client_offset name (set_offset name seq st) ≡ seq
  unfolding set_topic_offset Offsets.get Offsets.set
  client_offset-set_offset name seq st t h =
      let id = st.session.client_id in
      let t' : Topic Db = record t {
        offsets = (Offsets.set t.offsets t.db id seq).0;
        db = (Offsets.set t.offsets t.db id seq).1;
      } in
      rw (set_offset-found name seq st t h) (
        client_offset-found name (set_topic_offset name id seq (some t) st) t'
          (lookup-insert_same name t' st.broker.registry.topics)
        ∙ rw (lookup-insert_same (Offsets.build_key id) seq t.offsets) refl)

  handle_pub_ack-acked :
      (pid : ℕ) (st : State Db) (o : Option InflightMsg)
      → lookup pid st.session.inflight ≡ o
      → handle_pub_ack pid st ≡ acked pid o st
  unfolding handle_pub_ack
  handle_pub_ack-acked pid st o h = rw h refl

  -- A PUBACK of a message in flight takes this message, and nothing else, out of flight, and moves the
  -- client's offset in the message's topic to the message's sequence number, be the offset lower or
  -- higher before. The registry knows the topic.
  pub handle_pub_ack-moves :
      (pid : ℕ) (st : State Db) (msg : InflightMsg) (t : Topic Db)
      → lookup pid st.session.inflight ≡ some msg
      → Registry.get st.broker.registry msg.topic_ref ≡ some t
      → (client_offset msg.topic_ref (handle_pub_ack pid st) ≡ msg.seq)
        × ((handle_pub_ack pid st).session.inflight ≡ remove pid st.session.inflight)
  unfolding acked
  handle_pub_ack-moves pid st msg t h g =
      let st' = count inflight_dec (set_inflight (remove pid st.session.inflight) st) in
      rw (handle_pub_ack-acked pid st (some msg) h) (
        client_offset-set_offset msg.topic_ref msg.seq st' t g,
        ap (λ (s : Session). s.inflight) (set_offset-session msg.topic_ref msg.seq st'),
      )
