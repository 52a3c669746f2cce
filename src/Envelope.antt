-- ===== src/Envelope.antt =====
-- core/envelope/envelope.go: the wire format inside the MQTT payload. A UUID is its 16 bytes, and a
-- `time.Time` is the 64 bits of its `UnixNano()`.
pub mod RoundTrip
pub mod Canonical
use broker_message.Base.{
  ℕ, ◌+◌, ◌-◌, Bool, true, false, not, ◌||◌, Option, some, none, List, [], ◌∷◌, ◌++◌, length,
  get_or, drop, slice, replicate, Bytes, bytes_eq, put_uint16, put_uint64, be_uint16, be_uint64,
  be_value, ltb, ◌==◌, if◌then◌else◌, Result, ok, err, ◌>>=◌, ◌>>◌, refuse_if,
}

abbrev pub magic : Bytes
magic = b'B' ∷ b'M' ∷ b'Q' ∷ b'1' ∷ []

abbrev pub version : ℕ
version = 1

abbrev pub header_fixed_len : ℕ
header_fixed_len = 47

-- `uuid.Nil`
abbrev pub nil_uuid : Bytes
nil_uuid = replicate 16 0

pub data Fault : Type 0 where
  too_short : Fault
  bad_magic : Fault
  bad_version : ℕ → Fault
  invalid_uuid : Fault

pub record Envelope : Type 0 where
  pub idempotency_id : Bytes
  pub server_msg_id : Bytes
  pub publish_ts : ℕ
  pub user_props : Bytes
  pub payload : Bytes

-- `fresh` is what `uuid.NewV7()` returns, and `now` what `time.Now()` does.
unfoldable pub new_publish : Bytes → ℕ → Bytes → Bytes → Envelope
new_publish fresh now idempotency_id payload = record {
  idempotency_id = if bytes_eq idempotency_id nil_uuid then fresh else idempotency_id;
  server_msg_id = nil_uuid;
  publish_ts = now;
  user_props = [];
  payload = payload;
}

abbrev pub with_server_msg_id : Bytes → Envelope → Envelope
with_server_msg_id id e = record e { server_msg_id = id }

-- Each `copy` fills its part of `out`; the parts follow one another. `uint16(propsLen)` keeps the
-- lower 16 bits, as `put_uint16` does.
unfoldable pub encode : Envelope → Bytes
encode e =
    magic
    ++ (version
        ∷ (e.idempotency_id
            ++ (e.server_msg_id
                ++ (put_uint64 e.publish_ts
                    ++ (put_uint16 (length e.user_props) ++ (e.user_props ++ e.payload))))))

unfoldable pub decode : Bytes → Result Fault Envelope
decode wire = do
  refuse_if (ltb (length wire) header_fixed_len) too_short
  refuse_if (not (bytes_eq (slice wire 0 4) magic)) bad_magic
  refuse_if (not (get_or wire 4 0 == version)) (bad_version (get_or wire 4 0))
  let idem = slice wire 5 21
  refuse_if (bytes_eq idem nil_uuid) invalid_uuid
  let props_len = be_uint16 (slice wire 45 47)
  refuse_if (ltb (length wire) (header_fixed_len + props_len)) too_short
  ok (record {
    idempotency_id = idem;
    server_msg_id = slice wire 21 37;
    publish_ts = be_uint64 (slice wire 37 45);
    user_props = slice wire 47 (47 + props_len);
    payload = drop (47 + props_len) wire;
  })

abbrev pub to_option {ℓ} : {A : Type ℓ} → Result Fault A → Option A
to_option (ok a) = some a
to_option (err e) = none

unfoldable pub try_decode : Bytes → Option Envelope
try_decode wire =
    if ltb (length wire) header_fixed_len || not (bytes_eq (slice wire 0 4) magic)
    then none
    else to_option (decode wire)
