-- ===== src/Topic/Log.antt =====
-- core/topic/topic.go: a topic as a log of messages. `Publish` appends to it, `GetMessages` reads a
-- part of it, and `Purge` empties it.
use broker_message.Base.{
  ℕ, zero, suc, ◌+◌, ◌-◌, ◌/◌, ◌^◌, ◌<◌, ◌≡◌, refl, ap, ◌∙◌, true, Option, some, List, [], ◌∷◌,
  ◌++◌, map, arith, ltb, leb, ltb→lt, if◌then◌else◌, length, length-append, take, append_assoc,
  append-nil, All, Bytes, bytes_key, Bool-cases, inl, inr,
}
use broker_message.Storage.{next, stop, scan_loop, after_step}
use broker_message.Storage.Entries.{
  bytes_lt, has_prefix, within, has_prefix-append, bytes_lt_irrefl,
}
use broker_message.Storage.Prefixes.{bytes_lt_asym}
use broker_message.Topic.{Message, decode_stored_message, add_message, collect}
use broker_message.Topic.Keys.{msg_key, msg_key_prefix, hex}
use broker_message.Topic.KeyOrder.{parse_hex-msg_key, msg_key-lt}

-- How a message is stored, and what an iterator makes of it.
abbrev pub entry : Message → Bytes × Bytes
entry m = (msg_key m.seq, m.raw_wire)

abbrev pub met : Bytes × Bytes → Bytes × Option Bytes
met e = (e.0, some e.1)

-- What is stored for a message reads as the message, which has a uint64 as its number.
pub record Stored (name : Bytes) (m : Message) : Type 0 where
  pub fits : m.seq < 2 ^ 64
  pub reads : decode_stored_message name m.raw_wire ≡ some (record m { seq = 0 })

length-hex : (k n : ℕ) → length (hex k n) ≡ k
unfolding hex
length-hex zero n = refl
length-hex (suc k) n = rw length-append (omega (arith, length-hex k (n / 16)))

length-msg_key : (n : ℕ) → length (msg_key n) ≡ 20
unfolding msg_key
length-msg_key n = omega (arith, length-hex 16 n)

pub has_prefix-msg_key : (n : ℕ) → has_prefix msg_key_prefix (msg_key n) ≡ true
unfolding msg_key
has_prefix-msg_key n = has_prefix-append msg_key_prefix (hex 16 n)

pub bytes_lt-msg_key :
    (a c : ℕ) → a < 2 ^ 64 → c < 2 ^ 64 → bytes_lt (msg_key a) (msg_key c) ≡ ltb a c
bytes_lt-msg_key a c h l = elim (Bool-cases (ltb a c)) [
  | inl below ↦ rw below (msg_key-lt a c (ltb→lt a c below) l)
  | inr not_below ↦ elim (Bool-cases (ltb c a)) [
    | inl above ↦
        rw not_below (bytes_lt_asym (msg_key c) (msg_key a) (msg_key-lt c a (ltb→lt c a above) h))
    | inr not_above ↦
        let same : a ≡ c = ground arith in rw not_below (rw same (bytes_lt_irrefl (msg_key c)))
  ]
]

-- The messages from a number on.
unfoldable pub from_seq : ℕ → List Message → List Message
from_seq from [] = []
from_seq from (m ∷ log) = let rest = from_seq from log in if ltb m.seq from then rest else m ∷ rest

pub within-entries :
    (name : Bytes) (from : ℕ) (log : List Message)
    → from < 2 ^ 64
    → All (Stored name) log
    → within msg_key_prefix (msg_key from) (map entry log) ≡ map entry (from_seq from log)
unfolding within from_seq
within-entries name from [] h a = refl
within-entries name from (m ∷ log) h a = elim (Bool-cases (ltb m.seq from)) [
  | inl before ↦
      rw (has_prefix-msg_key m.seq, bytes_lt-msg_key m.seq from a.0.fits h, before)
        (within-entries name from log h a.1)
  | inr later ↦
      rw (has_prefix-msg_key m.seq, bytes_lt-msg_key m.seq from a.0.fits h, later)
        (ap (◌∷◌ (entry m)) (within-entries name from log h a.1))
]

pub from_seq-All :
    (name : Bytes) (from : ℕ) (log : List Message)
    → All (Stored name) log
    → All (Stored name) (from_seq from log)
unfolding from_seq
from_seq-All name from [] a = tt
from_seq-All name from (m ∷ log) a = elim (Bool-cases (ltb m.seq from)) [
  | inl e ↦ rw e (from_seq-All name from log a.1)
  | inr e ↦ rw e (a.0, from_seq-All name from log a.1)
]

-- One message that the scan meets.
collect-Stored :
    (name : Bytes) (limit : ℕ) (msgs : List Message) (m : Message)
    → Stored name m
    → collect name limit msgs (msg_key m.seq) m.raw_wire
      ≡ (msgs ++ (m ∷ []), if leb limit (length (msgs ++ (m ∷ []))) then stop else next)
unfolding collect add_message
collect-Stored name limit msgs m s =
    rw (s.reads, length-msg_key m.seq, parse_hex-msg_key m.seq s.fits) refl

take-nil : (n : ℕ) → take {A = Message} n [] ≡ []
take-nil zero = refl
take-nil (suc n) = refl

pub scan-log :
    (name : Bytes) (limit : ℕ) (log msgs : List Message)
    → length msgs < limit
    → All (Stored name) log
    → scan_loop (collect name limit) (map met (map entry log)) msgs
      ≡ (msgs ++ take (limit - length msgs) log, true)
unfolding scan_loop after_step
scan-log name limit [] msgs h a = rw (take-nil (limit - length msgs), append-nil msgs) refl
scan-log name limit (m ∷ log) msgs h a =
    let len : length (msgs ++ (m ∷ [])) ≡ length msgs + 1 = length-append msgs (m ∷ []) in
    elim (Bool-cases (leb limit (length (msgs ++ (m ∷ []))))) [
      | inl full ↦
          let one : limit - length msgs ≡ 1 = ground (arith, len) in
          rw (collect-Stored name limit msgs m a.0, full, one) refl
      | inr room ↦
          let more : limit - length msgs ≡ suc (limit - length (msgs ++ (m ∷ []))) =
            ground (arith, len) in
          let short : length (msgs ++ (m ∷ [])) < limit = ground (arith, len) in
          rw (collect-Stored name limit msgs m a.0, room, more)
            (scan-log name limit log (msgs ++ (m ∷ [])) short a.1
              ∙ ap (λ (l : List Message). (l, true))
                  (append_assoc msgs (m ∷ []) (take (limit - length (msgs ++ (m ∷ []))) log)))
    ]
