-- ===== src/Packet/Strings.antt =====
-- core/transport/mqtt/packet.go: `readString` against `encodeString`, and its bounds.
use broker_message.Base.{
  ℕ, ◌+◌, ◌^◌, ◌≤◌, ◌<◌, ◌≡◌, refl, ap, ◌∙◌, ◌++◌, arith, length, slice, slice-append,
  length-append, length-slice, append_assoc, Bytes, be_uint16, put_uint16, be-put_uint16, ok,
  le→not_ltb,
}
use broker_message.Packet.Read.{read_string}
use broker_message.Packet.Write.{encode_string}

pub length-put_uint16 : (v : ℕ) → length (put_uint16 v) ≡ 2
unfolding put_uint16
length-put_uint16 v = refl

pub length-encode_string : (s : Bytes) → length (encode_string s) ≡ 2 + length s
unfolding encode_string
length-encode_string s = rw length-append (omega (arith, length-put_uint16 (length s)))

-- A word that stands behind `pre`.
pub be_uint16-behind :
    (pre : Bytes) (v : ℕ) (post : Bytes) (pos : ℕ)
    → v < 2 ^ 16
    → pos ≡ length pre
    → be_uint16 (slice (pre ++ (put_uint16 v ++ post)) pos (pos + 2)) ≡ v
be_uint16-behind pre v post pos h p =
    rw (slice-append pre (put_uint16 v) post pos (pos + 2) p (omega (arith, length-put_uint16 v)))
      (be-put_uint16 v h)

read_string-parts :
    (b : Bytes) (pos l : ℕ)
    → be_uint16 (slice b pos (pos + 2)) ≡ l
    → pos + 2 + l ≤ length b
    → read_string b pos ≡ ok (slice b (pos + 2) (pos + 2 + l), pos + 2 + l)
unfolding read_string
read_string-parts b pos l e h =
    rw (e, le→not_ltb (length b) (pos + 2) (omega arith), le→not_ltb (length b) (pos + 2 + l) h)

pub encode_string-append :
    (s post : Bytes) → encode_string s ++ post ≡ put_uint16 (length s) ++ (s ++ post)
unfolding encode_string
encode_string-append s post = append_assoc (put_uint16 (length s)) s post

-- A string of less than 65536 bytes, encoded behind `pre`, is read back.
pub read_string-encode_string :
    (pre s post : Bytes) (pos : ℕ)
    → pos ≡ length pre
    → length s < 2 ^ 16
    → read_string (pre ++ (encode_string s ++ post)) pos ≡ ok (s, pos + 2 + length s)
read_string-encode_string pre s post pos p h = rw encode_string-append (
    read_string-parts (pre ++ (word ++ (s ++ post))) pos (length s)
      (be_uint16-behind pre (length s) (s ++ post) pos h p) fits
    ∙ ap (λ (t : Bytes). ok (t, pos + 2 + length s)) body)
  where
    word : Bytes
    word = put_uint16 (length s)

    fits : pos + 2 + length s ≤ length (pre ++ (word ++ (s ++ post)))
    fits =
        rw (length-append, length-append, length-append)
          (omega (arith, length-put_uint16 (length s)))

    body : slice (pre ++ (word ++ (s ++ post))) (pos + 2) (pos + 2 + length s) ≡ s
    body = rw (← append_assoc pre word (s ++ post)) (
        slice-append (pre ++ word) s post (pos + 2) (pos + 2 + length s)
          (omega (arith, length-append pre word, length-put_uint16 (length s))) refl)

-- A string that is read stands in the buffer behind its length, and ends inside it.
pub read_string-bounds :
    (b : Bytes) (pos : ℕ) {s : Bytes} {p : ℕ}
    → read_string b pos ≡ ok (s, p)
    → (p ≤ length b) × (p ≡ pos + 2 + length s) × (s ≡ slice b (pos + 2) p)
unfolding read_string
read_string-bounds b pos {s} {p} h =
    ground (arith, length-slice b (pos + 2) (pos + 2 + be_uint16 (slice b pos (pos + 2))))
