-- ===== src/Packet/Subscribe.antt =====
-- core/transport/mqtt/packet.go: `parseSubscribe` and `parseUnsubscribe` against the layout of MQTT
-- 3.1.1, sections 3.8.3 and 3.10.3.
use broker_message.Base.{
  ℕ, zero, suc, ◌+◌, ◌^◌, ◌<◌, bit_and, ◌≡◌, refl, ap, sym, ◌∙◌, List, [], ◌∷◌, ◌++◌, arith, length,
  get_or, get_or-append, length-append, lt→not_leb, append-nil, append_assoc, All, Bytes,
  put_uint16, low_two, ok, le→not_ltb, lt→ltb,
}
use broker_message.Packet.{TopicFilter}
use broker_message.Packet.Read.{
  read_string, parse_filters, parse_subscribe, parse_names, parse_unsubscribe,
}
use broker_message.Packet.Write.{encode_string}
use broker_message.Packet.Strings.{
  length-put_uint16, length-encode_string, be_uint16-behind, read_string-encode_string,
}

-- The payload of a SUBSCRIBE: each filter with its QoS byte behind it.
pub filters_layout : List TopicFilter → Bytes
filters_layout [] = []
filters_layout (t ∷ ts) = encode_string t.filter ++ (t.qos ∷ filters_layout ts)

-- The payload of an UNSUBSCRIBE.
pub names_layout : List Bytes → Bytes
names_layout [] = []
names_layout (t ∷ ts) = encode_string t ++ names_layout ts

abbrev pub FilterFits : TopicFilter → Type 0
FilterFits t = (length t.filter < 2 ^ 16) × (t.qos < 4)

abbrev pub NameFits : Bytes → Type 0
NameFits t = length t < 2 ^ 16

low_two_small : (q : ℕ) → q < 4 → bit_and q 0x03 ≡ q
low_two_small q h = omega (arith, low_two q (omega arith))

length-filters_layout :
    (t : TopicFilter) (ts : List TopicFilter)
    → length (filters_layout ts) < length (filters_layout (t ∷ ts))
unfolding filters_layout
length-filters_layout t ts = rw length-append (omega arith)

-- One round of the loop.
parse_filters_step :
    (fuel : ℕ) (b : Bytes) (pos p : ℕ) (topics : List TopicFilter) (t : TopicFilter)
    → pos < length b
    → read_string b pos ≡ ok (t.filter, p)
    → p < length b
    → get_or b p 0 ≡ t.qos
    → t.qos < 4
    → parse_filters (suc fuel) b pos topics ≡ parse_filters fuel b (p + 1) (topics ++ (t ∷ []))
unfolding parse_filters
parse_filters_step fuel b pos p topics t more e f q small =
    rw (lt→ltb pos (length b) more, e, lt→not_leb (length b) p f, q, low_two_small t.qos small)

parse_filters-layout :
    (ts : List TopicFilter) (fuel : ℕ) (pre : Bytes) (pos : ℕ) (topics : List TopicFilter)
    → All FilterFits ts
    → pos ≡ length pre
    → length (filters_layout ts) < fuel
    → parse_filters fuel (pre ++ filters_layout ts) pos topics ≡ ok (topics ++ ts)
parse_filters-layout ts zero pre pos topics a p f = absurd (omega arith)
parse_filters-layout [] (suc fuel) pre pos topics a p f =
    unfold parse_filters filters_layout in
    rw (append-nil, append-nil, le→not_ltb pos (length pre) (omega arith))
parse_filters-layout (t ∷ ts) (suc fuel) pre pos topics a p f =
    let rest = filters_layout ts in
    let front = pre ++ encode_string t.filter in
    let whole : pre ++ filters_layout (t ∷ ts) ≡ front ++ (t.qos ∷ rest) =
      unfold filters_layout in sym (append_assoc pre (encode_string t.filter) (t.qos ∷ rest)) in
    let size = length-append pre (encode_string t.filter) in
    let string = length-encode_string t.filter in
    let total = length-append front (t.qos ∷ rest) in
    let read = read_string-encode_string pre t.filter (t.qos ∷ rest) pos p a.0.0 in
    parse_filters_step fuel (pre ++ filters_layout (t ∷ ts)) pos (pos + 2 + length t.filter) topics
      t (rw whole (omega arith)) (unfold filters_layout in read) (rw whole (omega arith))
      (rw whole (
        ap (λ (n : ℕ). get_or (front ++ (t.qos ∷ rest)) n 0) (omega arith)
        ∙ get_or-append front t.qos rest 0))
      a.0.1
    ∙ rw whole (
        rw (← append_assoc front (t.qos ∷ []) rest) (
          parse_filters-layout ts fuel (front ++ (t.qos ∷ [])) (pos + 2 + length t.filter + 1)
            (topics ++ (t ∷ [])) a.1 (omega (arith, length-append front (t.qos ∷ [])))
            (omega (arith, length-filters_layout t ts))
          ∙ ap ok (append_assoc topics (t ∷ []) ts)))

-- A SUBSCRIBE laid out as MQTT says is read as the filters that it lists, in their order, for
-- filters below 65536 bytes and QoS below 4.
pub parse_subscribe-layout :
    (pid : ℕ) (ts : List TopicFilter)
    → pid < 2 ^ 16
    → All FilterFits ts
    → parse_subscribe (put_uint16 pid ++ filters_layout ts)
      ≡ ok (record { packet_id = pid; topics = ts })
unfolding parse_subscribe
parse_subscribe-layout pid ts h a =
    let body = put_uint16 pid ++ filters_layout ts in
    let size = length-append (put_uint16 pid) (filters_layout ts) in
    rw (
      le→not_ltb (length body) 2 (omega (arith, size, length-put_uint16 pid)),
      parse_filters-layout ts (suc (length body)) (put_uint16 pid) 2 [] a
          (sym (length-put_uint16 pid)) (omega (arith, size)),
      be_uint16-behind [] pid (filters_layout ts) 0 h refl,
    )

names_step :
    (fuel : ℕ) (b : Bytes) (pos p : ℕ) (topics : List Bytes) (t : Bytes)
    → pos < length b
    → read_string b pos ≡ ok (t, p)
    → parse_names (suc fuel) b pos topics ≡ parse_names fuel b p (topics ++ (t ∷ []))
unfolding parse_names
names_step fuel b pos p topics t more e = rw (lt→ltb pos (length b) more, e)

length-names_layout :
    (t : Bytes) (ts : List Bytes)
    → length (names_layout (t ∷ ts)) ≡ 2 + length t + length (names_layout ts)
unfolding names_layout
length-names_layout t ts = rw length-append (omega (arith, length-encode_string t))

parse_names-layout :
    (ts : List Bytes) (fuel : ℕ) (pre : Bytes) (pos : ℕ) (topics : List Bytes)
    → All NameFits ts
    → pos ≡ length pre
    → length (names_layout ts) < fuel
    → parse_names fuel (pre ++ names_layout ts) pos topics ≡ ok (topics ++ ts)
parse_names-layout ts zero pre pos topics a p f = absurd (omega arith)
parse_names-layout [] (suc fuel) pre pos topics a p f =
    unfold parse_names names_layout in
    rw (append-nil, append-nil, le→not_ltb pos (length pre) (omega arith))
parse_names-layout (t ∷ ts) (suc fuel) pre pos topics a p f =
    let rest = names_layout ts in
    let b = pre ++ names_layout (t ∷ ts) in
    let whole : b ≡ (pre ++ encode_string t) ++ rest =
      unfold names_layout in sym (append_assoc pre (encode_string t) rest) in
    let size = length-names_layout t ts in
    let total = length-append pre (names_layout (t ∷ ts)) in
    let front = length-append pre (encode_string t) in
    names_step fuel b pos (pos + 2 + length t) topics t (omega arith)
      (unfold names_layout in read_string-encode_string pre t rest pos p a.0)
    ∙ rw whole (
        parse_names-layout ts fuel (pre ++ encode_string t) (pos + 2 + length t)
          (topics ++ (t ∷ [])) a.1 (omega (arith, length-encode_string t)) (omega arith)
        ∙ ap ok (append_assoc topics (t ∷ []) ts))

-- An UNSUBSCRIBE laid out as MQTT says is read as the names that it lists, in their order, for names
-- below 65536 bytes.
parse_unsubscribe-layout :
    (pid : ℕ) (ts : List Bytes)
    → pid < 2 ^ 16
    → All NameFits ts
    → parse_unsubscribe (put_uint16 pid ++ names_layout ts)
      ≡ ok (record { packet_id = pid; topics = ts })
unfolding parse_unsubscribe
parse_unsubscribe-layout pid ts h a =
    let body = put_uint16 pid ++ names_layout ts in
    let size = length-append (put_uint16 pid) (names_layout ts) in
    rw (
      le→not_ltb (length body) 2 (omega (arith, size, length-put_uint16 pid)),
      parse_names-layout ts (suc (length body)) (put_uint16 pid) 2 [] a
          (sym (length-put_uint16 pid)) (omega (arith, size)),
      be_uint16-behind [] pid (names_layout ts) 0 h refl,
    )
