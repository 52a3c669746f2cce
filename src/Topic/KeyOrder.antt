-- ===== src/Topic/KeyOrder.antt =====
-- core/topic/topic.go: the key of a message is read as its number again, and keys are in the order of
-- their numbers, which is the order in which Badger lists them.
use broker_message.Base.{
  ℕ, zero, suc, ◌+◌, ◌*◌, ◌/◌, ◌%◌, ◌^◌, ◌<◌, ◌≡◌, refl, ap, sym, ◌∙◌, true, some, [], ◌∷◌, ◌++◌,
  arith, append_assoc, append-nil, ltb, drop, Bytes, lt→ltb, Bool-cases, inl, inr,
}
use mathlib.Core.Path.{ap₂}
use broker_message.Storage.Entries.{bytes_lt}
use broker_message.Topic.Keys.{
  msg_key, hex, hex_digit, digit_value, scan_digit, parse_hex_from, parse_hex,
}

digit_value-hex_digit : (d : ℕ) → d < 16 → digit_value (hex_digit d) ≡ some d
unfolding digit_value hex_digit
digit_value-hex_digit d h = ground arith

hex_digit-lt : (a c : ℕ) → a < c → c < 16 → hex_digit a < hex_digit c
unfolding hex_digit
hex_digit-lt a c h l = ground arith

read_digit :
    (k : ℕ) (d acc : ℕ) (s : Bytes)
    → d < 16
    → parse_hex_from (suc k) (hex_digit d ∷ s) acc ≡ parse_hex_from k s (acc * 16 + d)
unfolding parse_hex_from scan_digit
read_digit k d acc s h = rw (digit_value-hex_digit d h) refl

hex-suc : (k n : ℕ) (s : Bytes) → hex (suc k) n ++ s ≡ hex k (n / 16) ++ (hex_digit (n % 16) ∷ s)
unfolding hex
hex-suc k n s = append_assoc (hex k (n / 16)) (hex_digit (n % 16) ∷ []) s

sixteen_times : (k : ℕ) → 16 ^ suc k ≡ 16 * 16 ^ k
sixteen_times k = omega arith

-- `k` digits of a number below 16 ^ k, in front of anything.
parse_hex_from-hex :
    (k j n acc : ℕ) (s : Bytes)
    → n < 16 ^ k
    → parse_hex_from (k + j) (hex k n ++ s) acc ≡ parse_hex_from j s (acc * 16 ^ k + n)
parse_hex_from-hex zero j n acc s h =
    let fuel : 0 + j ≡ j = omega arith in
    let value : acc ≡ acc * 16 ^ 0 + n = omega arith in
    unfold hex in ap₂ (λ (f a : ℕ). parse_hex_from f s a) fuel value
parse_hex_from-hex (suc k) j n acc s h = rw (hex-suc k n s) (
    ap (λ (f : ℕ). parse_hex_from f (hex k (n / 16) ++ (hex_digit (n % 16) ∷ s)) acc)
      {x = suc k + j} {y = k + suc j} (omega arith)
    ∙ parse_hex_from-hex k (suc j) (n / 16) acc (hex_digit (n % 16) ∷ s) (omega arith)
    ∙ read_digit j (n % 16) (acc * 16 ^ k + n / 16) s (omega arith)
    ∙ ap (parse_hex_from j s) {x = (acc * 16 ^ k + n / 16) * 16 + n % 16} {y = acc * 16 ^ suc k + n}
        (omega (arith, ap (λ (t : ℕ). acc * t) (sixteen_times k))))

-- The number that `GetMessages` reads from the key of a message is the message's sequence number, for
-- every uint64.
pub parse_hex-msg_key : (n : ℕ) → n < 2 ^ 64 → parse_hex (drop 4 (msg_key n)) ≡ n
unfolding parse_hex msg_key
parse_hex-msg_key n h =
    ap (λ (s : Bytes). parse_hex_from 16 s 0) (sym (append-nil (hex 16 n)))
    ∙ parse_hex_from-hex 16 0 n 0 [] (omega arith)
    ∙ (unfold parse_hex_from in omega arith)

bytes_lt-same : (p s t : Bytes) → bytes_lt (p ++ s) (p ++ t) ≡ bytes_lt s t
unfolding bytes_lt
bytes_lt-same [] s t = refl
bytes_lt-same (x ∷ p) s t = ground (arith, bytes_lt-same p s t)

bytes_lt-digit :
    (a c : ℕ) (s t : Bytes) → a < c → c < 16 → bytes_lt (hex_digit a ∷ s) (hex_digit c ∷ t) ≡ true
unfolding bytes_lt
bytes_lt-digit a c s t h l = rw (lt→ltb (hex_digit a) (hex_digit c) (hex_digit-lt a c h l)) refl

hex-lt :
    (k a c : ℕ) (s t : Bytes) → a < c → c < 16 ^ k → bytes_lt (hex k a ++ s) (hex k c ++ t) ≡ true
hex-lt zero a c s t h l = absurd (omega arith)
hex-lt (suc k) a c s t h l =
    rw (hex-suc k a s, hex-suc k c t)
      (elim (Bool-cases (ltb (a / 16) (c / 16))) [
        | inl e ↦
            hex-lt k (a / 16) (c / 16) (hex_digit (a % 16) ∷ s) (hex_digit (c % 16) ∷ t)
              (ground arith) (omega arith)
        | inr e ↦
            let same : a / 16 ≡ c / 16 = ground arith in
            rw (same, bytes_lt-same)
              (bytes_lt-digit (a % 16) (c % 16) s t (omega arith) (omega arith))
      ])

-- The keys of two messages are in the byte order of Badger as their sequence numbers are, for uint64s.
pub msg_key-lt : (a c : ℕ) → a < c → c < 2 ^ 64 → bytes_lt (msg_key a) (msg_key c) ≡ true
unfolding msg_key
msg_key-lt a c h l =
    bytes_lt-same (b'm' ∷ b's' ∷ b'g' ∷ b':' ∷ []) (hex 16 a) (hex 16 c)
    ∙ ap₂ bytes_lt (sym (append-nil (hex 16 a))) (sym (append-nil (hex 16 c)))
    ∙ hex-lt 16 a c [] [] h (omega arith)
