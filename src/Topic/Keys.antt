-- ===== src/Topic/Keys.antt =====
-- core/topic/topic.go: the keys of messages, `fmt.Sprintf("msg:%016X", seq)`, and their reading by
-- `fmt.Sscanf(…, "%016X", &seq)`.
use broker_message.Base.{
  ℕ, zero, suc, ◌+◌, ◌-◌, ◌*◌, ◌/◌, ◌%◌, Option, none, some, ◌&&◌, [], ◌∷◌, ◌++◌, ltb, leb,
  if◌then◌else◌, Bytes,
}

abbrev pub msg_key_prefix : Bytes
msg_key_prefix = b'm' ∷ b's' ∷ b'g' ∷ b':' ∷ []

-- The digit of `%X` for a number below 16.
unfoldable pub hex_digit : ℕ → ℕ
hex_digit d = if ltb d 10 then b'0' + d else b'A' + (d - 10)

-- The last `k` hexadecimal digits of a number.
unfoldable pub hex : ℕ → ℕ → Bytes
hex zero n = []
hex (suc k) n = hex k (n / 16) ++ (hex_digit (n % 16) ∷ [])

-- A uint64 has 16 digits at most, so that `%016X` writes 16 digits.
unfoldable pub msg_key : ℕ → Bytes
msg_key seq = msg_key_prefix ++ hex 16 seq

-- The value of a digit that `%X` accepts, in either case.
unfoldable pub digit_value : ℕ → Option ℕ
digit_value c =
    if leb b'0' c && leb c b'9'
    then some (c - b'0')
    else if leb b'A' c && leb c b'F'
    then some (c - b'A' + 10)
    else if leb b'a' c && leb c b'f'
    then some (c - b'a' + 10)
    else none

unfoldable pub scan_digit : (ℕ → ℕ) → ℕ → Option ℕ → ℕ
scan_digit rest acc none = acc
scan_digit rest acc (some d) = rest (acc * 16 + d)

-- At most `k` digits are read, up to the first byte that is none. With no digit the target stays as
-- it was, which is 0.
unfoldable pub parse_hex_from : ℕ → Bytes → ℕ → ℕ
unfolding scan_digit
parse_hex_from zero s acc = acc
parse_hex_from (suc k) [] acc = acc
parse_hex_from (suc k) (c ∷ s) acc = scan_digit (parse_hex_from k s) acc (digit_value c)

unfoldable pub parse_hex : Bytes → ℕ
unfolding parse_hex_from
parse_hex s = parse_hex_from 16 s 0
