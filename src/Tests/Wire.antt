-- ===== src/Tests/Wire.antt =====
-- core/envelope/envelope.go on concrete envelopes.
use broker_message.Base.{
  ◌≡◌, ◌≢◌, refl, [], ◌∷◌, ◌++◌, arith, All, IsByte, replicate, Bytes, bytes_eq, be_uint16,
  be_value, ok,
}
use broker_message.Envelope.{Envelope, nil_uuid, encode, decode}
use broker_message.Envelope.RoundTrip.{IsWire, decode-encode}
use broker_message.Envelope.Canonical.{encode-decode}

abbrev small : Envelope
small = record {
  idempotency_id = replicate 16 7;
  server_msg_id = nil_uuid;
  publish_ts = 1_700_000_000_000_000_000;
  user_props = 1 ∷ [];
  payload = 2 ∷ 3 ∷ [];
}

sevens_ne_nil : replicate 16 7 ≢ nil_uuid
sevens_ne_nil h = cc

small-IsWire : IsWire small
small-IsWire = record {
  idem_len = refl;
  server_len = refl;
  idem_set = sevens_ne_nil;
  ts_fits = omega arith;
  props_fit = omega arith;
}

decode-encode_example : decode (encode small) ≡ ok small
decode-encode_example = decode-encode small small-IsWire

abbrev wire : Bytes
wire =
    0x42
    ∷ 0x4d
    ∷ 0x51
    ∷ 0x31
    ∷ 1
    ∷ (replicate 16 7 ++ (replicate 16 0 ++ (replicate 8 0 ++ (0 ∷ 1 ∷ 9 ∷ 8 ∷ []))))

abbrev parsed : Envelope
parsed = record {
  idempotency_id = replicate 16 7;
  server_msg_id = nil_uuid;
  publish_ts = 0;
  user_props = 9 ∷ [];
  payload = 8 ∷ [];
}

wire_decoded : decode wire ≡ ok parsed
unfolding decode bytes_eq be_uint16 be_value
wire_decoded = refl

wire_bytes : All IsByte wire
wire_bytes = omega arith

encode-decode_example : encode parsed ≡ wire
encode-decode_example = encode-decode wire parsed wire_bytes wire_decoded
