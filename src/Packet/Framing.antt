-- ===== src/Packet/Framing.antt =====
-- core/transport/mqtt/packet.go: `ReadPacket` on a stream, where packets follow one another.
use broker_message.Base.{
  ℕ, zero, suc, ◌+◌, ◌*◌, ◌/◌, ◌^◌, ◌≤◌, ◌<◌, bit_and, ◌≡◌, refl, ap, List, [], ◌∷◌, ◌++◌, arith,
  length, take, drop, length-drop, length-append, Bytes, ok, >>=-eq-ok,
}
use broker_message.Packet.{Packet}
use broker_message.Packet.Read.{
  read_full, read_length_loop, read_remaining_length, parse_body, read_packet,
}

take-append_le {ℓ} :
    {A : Type ℓ} (n : ℕ) (xs ys : List A) → n ≤ length xs → take n (xs ++ ys) ≡ take n xs
take-append_le zero xs ys h = refl
take-append_le (suc n) [] ys h = absurd (omega arith)
take-append_le (suc n) (x ∷ xs) ys h = ap (◌∷◌ x) (take-append_le n xs ys (omega arith))

drop-append_le {ℓ} :
    {A : Type ℓ} (n : ℕ) (xs ys : List A) → n ≤ length xs → drop n (xs ++ ys) ≡ drop n xs ++ ys
drop-append_le zero xs ys h = refl
drop-append_le (suc n) [] ys h = absurd (omega arith)
drop-append_le (suc n) (x ∷ xs) ys h = drop-append_le n xs ys (omega arith)

read_full-more :
    (n : ℕ) (src more : Bytes) {body rest : Bytes}
    → read_full n src ≡ ok (body, rest)
    → (read_full n (src ++ more) ≡ ok (body, rest ++ more)) × (length rest + n ≡ length src)
unfolding read_full
read_full-more n src more h = ground (
  arith,
  length-append src more,
  length-drop n src,
  take-append_le n src more,
  drop-append_le n src more,
)

read_length_loop-more :
    (src more : Bytes) (len shift n : ℕ) (rest : Bytes)
    → read_length_loop src len shift ≡ ok (n, rest)
    → (read_length_loop (src ++ more) len shift ≡ ok (n, rest ++ more)) × (length rest < length src)
unfolding read_length_loop
read_length_loop-more [] more len shift n rest h = cc
read_length_loop-more (b ∷ src) more len shift n rest h =
    ground
      (arith, read_length_loop-more src more (len + bit_and b 0x7f * 2 ^ shift) (shift + 7) n rest)

-- A packet that is read off the front of a stream is read the same whatever bytes follow, and takes
-- two bytes at least. So the packets of a stream are determined one after the other.
pub read_packet-more :
    (src more : Bytes) (pkt : Packet) (rest : Bytes)
    → read_packet src ≡ ok (pkt, rest)
    → (read_packet (src ++ more) ≡ ok (pkt, rest ++ more)) × (length rest + 2 ≤ length src)
unfolding read_packet read_remaining_length
read_packet-more [] more pkt rest h = cc
read_packet-more (header ∷ src) more pkt rest h =
    let (prefix, e₁, h₁) = >>=-eq-ok (read_remaining_length src) _ h in
    let (bodies, e₂, h₂) = >>=-eq-ok (read_full prefix.0 prefix.1) _ h₁ in
    let (p, e₃, h₃) = >>=-eq-ok (parse_body (header / 16) (bit_and header 0x0f) bodies.0) _ h₂ in
    let (f₁, g₁) = read_length_loop-more src more 0 0 prefix.0 prefix.1 e₁ in
    let (f₂, g₂) = read_full-more prefix.0 prefix.1 more e₂ in
    (rw f₁ (rw f₂ (rw e₃ (ground arith))), ground arith)
