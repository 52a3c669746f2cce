-- ===== src/Topic/Refinement.antt =====
-- core/topic/topic.go: a topic stands for the list of its messages, which `Publish` appends to and
-- `GetMessages` reads a part of.
use broker_message.Base.{
  ℕ, zero, suc, ◌+◌, ◌-◌, ◌^◌, ◌≤◌, ◌<◌, ◌≡◌, refl, sym, ap, ◌∙◌, true, false, none, List, [], ◌∷◌,
  ◌++◌, map, arith, lt→ltb, length, take, All, All-append, Bytes, bytes_key, put_uint64, ok,
  Bool-cases, inl, inr,
}
use broker_message.Envelope.{Envelope}
use broker_message.Envelope.RoundTrip.{IsWire}
use broker_message.Storage
use broker_message.Storage.{Badger, scan_loop, after_step}
use broker_message.Storage.Entries.{has_prefix, within}
use broker_message.Storage.Prefixes.{under, Below, within-under, under-put_other, under-put_last}
use broker_message.Topic.{Topic, Message, seq_key, get_messages, publish}
use broker_message.Topic.Keys.{msg_key, msg_key_prefix}
use broker_message.Topic.Publishing.{stored, publish-eq-ok, publish-stored}
use broker_message.Topic.Log.{
  entry, met, Stored, from_seq, within-entries, from_seq-All, scan-log, bytes_lt-msg_key,
  has_prefix-msg_key,
}

map-append : (log more : List Message) → map entry (log ++ more) ≡ map entry log ++ map entry more
map-append [] more = refl
map-append (m ∷ log) more = ap (◌∷◌ (entry m)) (map-append log more)

-- The numbers are at most this one.
abbrev pub UpTo : ℕ → List Message → Type 0
UpTo n log = All (λ (m : Message). m.seq ≤ n) log

UpTo-suc : (n k : ℕ) (log : List Message) → n ≤ k → UpTo n log → UpTo k log
UpTo-suc n k [] h a = tt
UpTo-suc n k (m ∷ log) h a = (omega (arith, a.0), UpTo-suc n k log h a.1)

entries-Below :
    (name : Bytes) (n k : ℕ) (log : List Message)
    → n < k
    → k < 2 ^ 64
    → All (Stored name) log
    → UpTo n log
    → Below (msg_key k) (map entry log)
entries-Below name n k [] h l s a = tt
entries-Below name n k (m ∷ log) h l s a = (
  bytes_lt-msg_key m.seq k s.0.fits l ∙ lt→ltb m.seq k (omega (arith, a.0)),
  entries-Below name n k log h l s.1 a.1,
)

module _ {Db : Type 0} ⦃b : Badger Db⦄ where
  -- The topic stands for these messages: they are all that its database has under the prefix of the
  -- messages, and their numbers are not above that of the topic.
  pub record Refines (t : Topic Db) (log : List Message) : Type 0 where
    pub held : under msg_key_prefix (b.entries t.db) ≡ map entry log
    pub read_back : All (Stored t.name) log
    pub up_to : UpTo t.seq log

  -- No value that the iterator meets fails to be copied.
  abbrev pub CanIterate : Db → Bytes → Bytes → Type 0
  CanIterate db prefix seek = All (λ i. i.1 ≡ none → ⊥) (b.iterate db prefix seek)

  -- `GetMessages` returns the first `limit` of the messages from a number on.
  pub get_messages-Refines :
      (t : Topic Db) (log : List Message) (from limit : ℕ)
      → Refines t log
      → from < 2 ^ 64
      → CanIterate t.db msg_key_prefix (msg_key from)
      → get_messages t from limit ≡ ok (take limit (from_seq from log))
  get_messages-Refines t log from zero r h readable = unfold get_messages in refl
  get_messages-Refines t log from (suc n) r h readable =
      let met_items : b.iterate t.db msg_key_prefix (msg_key from)
          ≡ map met (map entry (from_seq from log)) =
        b.iterate_reads t.db msg_key_prefix (msg_key from) readable
        ∙ ap (map met) (
            sym (within-under msg_key_prefix (msg_key from) (b.entries t.db))
            ∙ ap (within msg_key_prefix (msg_key from)) r.held
            ∙ within-entries t.name from log h r.read_back) in
      let scanned =
        scan-log t.name (suc n) (from_seq from log) [] (omega arith)
          (from_seq-All t.name from log r.read_back) in
      let all : suc n - 0 ≡ suc n = omega arith in
      unfold get_messages in rw met_items (rw (scanned, all) refl)

  pub set_uint64-other :
      (db : Db) (n : ℕ)
      → under msg_key_prefix (b.entries (Storage.set_uint64 db seq_key n).0)
        ≡ under msg_key_prefix (b.entries db)
  set_uint64-other db n =
      let other : has_prefix msg_key_prefix seq_key ≡ false = unfold has_prefix in refl in
      elim (Bool-cases (Storage.set_uint64 db seq_key n).1) [
        | inl done ↦
            rw (b.set_commits db seq_key (put_uint64 n) done)
              (under-put_other msg_key_prefix seq_key (put_uint64 n) (b.entries db) other)
        | inr lost ↦ rw (b.set_aborts db seq_key (put_uint64 n) lost) refl
      ]

  -- The transaction that stores a message with the next number.
  appended :
      (t : Topic Db) (m : Message) (log : List Message)
      → Refines t log
      → (stored t m).1 ≡ true
      → m.seq < 2 ^ 64
      → m.seq ≡ t.seq + 1
      → under msg_key_prefix (b.entries (stored t m).0) ≡ map entry (log ++ (m ∷ []))
  appended t m log r done fits next =
      let below : Below (msg_key m.seq) (under msg_key_prefix (b.entries t.db)) =
        rw (← r.held) at
          (entries-Below t.name t.seq m.seq log (omega arith) fits r.read_back r.up_to) in
      rw (b.set_commits t.db (msg_key m.seq) m.raw_wire done) (
        under-put_last msg_key_prefix (msg_key m.seq) m.raw_wire (b.entries t.db)
          (has_prefix-msg_key m.seq) (b.entries_sorted t.db) below
        ∙ rw (map-append log (m ∷ []), r.held) refl)

  -- `Publish` appends the message.
  pub publish-Refines :
      (fresh : Bytes) (t t' : Topic Db) (env : Envelope) (m : Message) (log : List Message)
      → publish fresh t env ≡ (t', ok m)
      → Refines t log
      → IsWire env
      → length fresh ≡ 16
      → t.seq + 1 < 2 ^ 64
      → Refines t' (log ++ (m ∷ []))
  publish-Refines fresh t t' env m log h r w f room =
      let (is_next, is_advanced, done) = publish-eq-ok fresh t t' env m h in
      let (is_seq, same_seq, _, reads) = publish-stored fresh t t' env m h w f in
      let above : m.seq ≡ t.seq + 1 = rw is_seq (omega (arith, room)) in
      let name : t'.name ≡ t.name = rw is_advanced refl in
      let held' = appended t m log r done (omega arith) above in
      record {
        held = rw is_advanced (set_uint64-other (stored t m).0 m.seq ∙ held');
        read_back = rw name (
            All-append (Stored t.name) log (m ∷ []) r.read_back
              (record { fits = omega arith; reads = reads }, tt));
        up_to = rw same_seq (
            All-append (λ (x : Message). x.seq ≤ m.seq) log (m ∷ [])
              (UpTo-suc t.seq m.seq log (omega arith) r.up_to) (omega arith, tt));
      }
