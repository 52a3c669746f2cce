-- ===== src/Packet/Total.antt =====
-- core/transport/mqtt/packet.go: the loops of `ReadPacket` end on every input.
use broker_message.Base.{
  ℕ, zero, suc, ◌+◌, ◌*◌, ◌/◌, ◌^◌, ◌≤◌, ◌<◌, bit_and, ◌≢◌, inl, inr, Bool, true, false, List, [],
  ◌∷◌, ◌++◌, arith, length, Bytes, get_or, Result, Result-cases, bind-ok-eq-err, ◌==◌, err,
  if◌then◌else◌,
}
use broker_message.Packet.{Fault, TopicFilter, out_of_fuel}
use broker_message.Packet.Read.{
  read_full, read_length_loop, read_remaining_length, read_string, read_string_if, read_packet_id,
  parse_connect, parse_publish, parse_filters, parse_subscribe, parse_names, parse_unsubscribe,
  parse_body, read_packet,
}
use broker_message.Packet.Strings.{read_string-bounds}

read_string-Ends : (b : Bytes) (pos : ℕ) → read_string b pos ≢ err out_of_fuel
unfolding read_string
read_string-Ends b pos h = ground arith

read_string_if-Ends : (f : Bool) (b : Bytes) (pos : ℕ) → read_string_if f b pos ≢ err out_of_fuel
unfolding read_string_if
read_string_if-Ends true b pos h = read_string-Ends b pos h
read_string_if-Ends false b pos h = cc

read_length_loop-Ends :
    (src : Bytes) (len shift : ℕ) → read_length_loop src len shift ≢ err out_of_fuel
unfolding read_length_loop
read_length_loop-Ends [] len shift h = cc
read_length_loop-Ends (b ∷ src) len shift h =
    ground (arith, read_length_loop-Ends src (len + bit_and b 0x7f * 2 ^ shift) (shift + 7))

parse_filters-Ends :
    (fuel : ℕ) (body : Bytes) (pos : ℕ) (topics : List TopicFilter)
    → pos ≤ length body
    → length body < fuel + pos
    → parse_filters fuel body pos topics ≢ err out_of_fuel
unfolding parse_filters
parse_filters-Ends zero body pos topics i f h = omega arith
parse_filters-Ends (suc fuel) body pos topics i f h = elim (Result-cases (read_string body pos)) [
  | inr (x, e) ↦ ground (arith, read_string-Ends body pos)
  | inl (s, e) ↦
      let qos = bit_and (get_or body s.1 0) 0x03 in
      ground (
        arith,
        read_string-bounds body pos e,
        parse_filters-Ends fuel body (s.1 + 1)
            (topics ++ (record { filter = s.0; qos = qos } ∷ [])),
      )
]

parse_names-Ends :
    (fuel : ℕ) (body : Bytes) (pos : ℕ) (topics : List Bytes)
    → pos ≤ length body
    → length body < fuel + pos
    → parse_names fuel body pos topics ≢ err out_of_fuel
unfolding parse_names
parse_names-Ends zero body pos topics i f h = omega arith
parse_names-Ends (suc fuel) body pos topics i f h = elim (Result-cases (read_string body pos)) [
  | inr (x, e) ↦ ground (arith, read_string-Ends body pos)
  | inl (s, e) ↦
      ground (
        arith,
        read_string-bounds body pos e,
        parse_names-Ends fuel body s.1 (topics ++ (s.0 ∷ [])),
      )
]

parse_connect-Ends : (body : Bytes) → parse_connect body ≢ err out_of_fuel
unfolding parse_connect
parse_connect-Ends body h = grind (arith, read_string-Ends body, read_string_if-Ends)

parse_publish-Ends : (flags : ℕ) (body : Bytes) → parse_publish flags body ≢ err out_of_fuel
unfolding parse_publish read_packet_id
parse_publish-Ends flags body h = grind (arith, read_string-Ends body 0)

parse_subscribe-Ends : (body : Bytes) → parse_subscribe body ≢ err out_of_fuel
unfolding parse_subscribe
parse_subscribe-Ends body h = ground (arith, parse_filters-Ends (suc (length body)) body 2 [])

parse_unsubscribe-Ends : (body : Bytes) → parse_unsubscribe body ≢ err out_of_fuel
unfolding parse_unsubscribe
parse_unsubscribe-Ends body h = ground (arith, parse_names-Ends (suc (length body)) body 2 [])

if-Ends {ℓ} :
    {A : Type ℓ} (b : Bool) (m n : Result Fault A)
    → m ≢ err out_of_fuel
    → n ≢ err out_of_fuel
    → (if b then m else n) ≢ err out_of_fuel
if-Ends true m n hm hn = hm
if-Ends false m n hm hn = hn

parse_body-Ends : (t flags : ℕ) (body : Bytes) → parse_body t flags body ≢ err out_of_fuel
unfolding parse_body
parse_body-Ends t flags body =
    if-Ends (t == 1) _ _ (λ h. parse_connect-Ends body (bind-ok-eq-err _ _ h))
      (if-Ends (t == 3) _ _ (λ h. parse_publish-Ends flags body (bind-ok-eq-err _ _ h))
        (if-Ends (t == 4) _ _ (λ h. ground arith)
          (if-Ends (t == 8) _ _ (λ h. parse_subscribe-Ends body (bind-ok-eq-err _ _ h))
            (if-Ends (t == 10) _ _ (λ h. parse_unsubscribe-Ends body (bind-ok-eq-err _ _ h))
              (λ h. ground arith)))))

-- Whatever bytes arrive, `ReadPacket` returns a packet or one of its errors: no loop of it goes on.
pub read_packet-Ends : (src : Bytes) → read_packet src ≢ err out_of_fuel
unfolding read_packet read_remaining_length read_full
read_packet-Ends [] h = cc
read_packet-Ends (header ∷ src) h =
    grind
      (arith, read_length_loop-Ends src 0 0, parse_body-Ends (header / 16) (bit_and header 0x0f))
