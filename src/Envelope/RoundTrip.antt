-- ===== src/Envelope/RoundTrip.antt =====
-- core/envelope/envelope.go: `Decode` against `Encode`.
use broker_message.Base.{
  ℕ, ◌+◌, ◌^◌, ◌<◌, ◌≡◌, ◌≢◌, refl, sym, ap, ◌∙◌, false, Bool-cases, inl, inr, [], ◌∷◌, ◌++◌, arith,
  append_assoc, length, length-append, get_or, drop, drop-append, slice, slice-append,
  slice-append_add, drop-append_add, Bytes, bytes_eq, bytes_eq_iff, bytes_eq_refl, put_uint16,
  put_uint64, be_uint16, be_uint64, be-put_uint16, be-put_uint64, ltb, le→not_ltb, ok,
}
use broker_message.Envelope.{
  magic, version, nil_uuid, Envelope, encode, decode, try_decode, to_option,
}

-- What the Go types and the two-byte length field ask of an envelope.
pub record IsWire (e : Envelope) : Type 0 where
  pub idem_len : length e.idempotency_id ≡ 16
  pub server_len : length e.server_msg_id ≡ 16
  pub idem_set : e.idempotency_id ≢ nil_uuid
  pub ts_fits : e.publish_ts < 2 ^ 64
  pub props_fit : length e.user_props < 2 ^ 16

pub length-put_uint64 : (v : ℕ) → length (put_uint64 v) ≡ 8
unfolding put_uint64
length-put_uint64 v = refl

pub length-put_uint16 : (v : ℕ) → length (put_uint16 v) ≡ 2
unfolding put_uint16
length-put_uint16 v = refl

module _ (e : Envelope) (w : IsWire e) where
  -- what stands behind the version byte, the two UUIDs, the time stamp and the length field
  behind_length : Bytes
  behind_length = e.user_props ++ e.payload

  behind_ts : Bytes
  behind_ts = put_uint16 (length e.user_props) ++ behind_length

  behind_server : Bytes
  behind_server = put_uint64 e.publish_ts ++ behind_ts

  behind_idem : Bytes
  behind_idem = e.server_msg_id ++ behind_server

  pub length-encode : length (encode e) ≡ 47 + length e.user_props + length e.payload
  unfolding encode
  length-encode = simp length-append (
      omega (
        arith,
        w.idem_len,
        w.server_len,
        length-put_uint64 e.publish_ts,
        length-put_uint16 (length e.user_props),
      ))

  -- A slice that starts in one of these parts is a slice of it.
  in_idem :
      (lo hi : ℕ)
      → slice (encode e) (5 + lo) (5 + hi) ≡ slice (e.idempotency_id ++ behind_idem) lo hi
  unfolding encode behind_idem behind_server behind_ts behind_length
  in_idem lo hi =
      slice-append_add (magic ++ (version ∷ [])) (e.idempotency_id ++ behind_idem) 5 lo hi refl

  in_server :
      (lo hi : ℕ) → slice (encode e) (5 + (16 + lo)) (5 + (16 + hi)) ≡ slice behind_idem lo hi
  in_server lo hi =
      in_idem (16 + lo) (16 + hi)
      ∙ slice-append_add e.idempotency_id behind_idem 16 lo hi (sym w.idem_len)

  in_ts :
      (lo hi : ℕ)
      → slice (encode e) (5 + (16 + (16 + lo))) (5 + (16 + (16 + hi))) ≡ slice behind_server lo hi
  unfolding behind_idem
  in_ts lo hi =
      in_server (16 + lo) (16 + hi)
      ∙ slice-append_add e.server_msg_id behind_server 16 lo hi (sym w.server_len)

  in_length :
      (lo hi : ℕ)
      → slice (encode e) (5 + (16 + (16 + (8 + lo)))) (5 + (16 + (16 + (8 + hi))))
        ≡ slice behind_ts lo hi
  unfolding behind_server
  in_length lo hi =
      in_ts (8 + lo) (8 + hi)
      ∙ slice-append_add (put_uint64 e.publish_ts) behind_ts 8 lo hi
          (sym (length-put_uint64 e.publish_ts))

  part_magic : slice (encode e) 0 4 ≡ magic
  unfolding encode
  part_magic = refl

  part_version : get_or (encode e) 4 0 ≡ 1
  unfolding encode
  part_version = refl

  part_idem : slice (encode e) 5 21 ≡ e.idempotency_id
  part_idem =
      in_idem 0 16
      ∙ slice-append [] e.idempotency_id behind_idem 0 16 refl (omega (arith, w.idem_len))

  part_server : slice (encode e) 21 37 ≡ e.server_msg_id
  unfolding behind_idem
  part_server =
      in_server 0 16
      ∙ slice-append [] e.server_msg_id behind_server 0 16 refl (omega (arith, w.server_len))

  part_ts : be_uint64 (slice (encode e) 37 45) ≡ e.publish_ts
  unfolding behind_server
  part_ts =
      ap be_uint64 (
        in_ts 0 8
        ∙ slice-append [] (put_uint64 e.publish_ts) behind_ts 0 8 refl
            (omega (arith, length-put_uint64 e.publish_ts)))
      ∙ be-put_uint64 e.publish_ts w.ts_fits

  part_props_len : be_uint16 (slice (encode e) 45 47) ≡ length e.user_props
  unfolding behind_ts
  part_props_len =
      ap be_uint16 (
        in_length 0 2
        ∙ slice-append [] (put_uint16 (length e.user_props)) behind_length 0 2 refl
            (omega (arith, length-put_uint16 (length e.user_props))))
      ∙ be-put_uint16 (length e.user_props) w.props_fit

  header : Bytes
  header =
      magic
      ++ (version
          ∷ (e.idempotency_id
              ++ (e.server_msg_id
                  ++ (put_uint64 e.publish_ts ++ put_uint16 (length e.user_props)))))

  encode-header : encode e ≡ header ++ (e.user_props ++ e.payload)
  unfolding encode header
  encode-header = simp append_assoc

  length-header : length header ≡ 47
  unfolding header
  length-header = simp length-append (
      omega (
        arith,
        w.idem_len,
        w.server_len,
        length-put_uint64 e.publish_ts,
        length-put_uint16 (length e.user_props),
      ))

  part_props : slice (encode e) 47 (47 + length e.user_props) ≡ e.user_props
  part_props = rw encode-header (
      slice-append header e.user_props e.payload 47 (47 + length e.user_props) (sym length-header)
        refl)

  part_payload : drop (47 + length e.user_props) (encode e) ≡ e.payload
  part_payload = rw encode-header (
      drop-append_add header (e.user_props ++ e.payload) 47 (length e.user_props)
        (sym length-header)
      ∙ drop-append e.user_props e.payload)

-- Every envelope that `Encode` writes with a set idempotency id is read back, field by field, if its
-- user properties are shorter than 65536 bytes.
pub decode-encode : (e : Envelope) → IsWire e → decode (encode e) ≡ ok e
unfolding decode
decode-encode e w = rw (
  le→not_ltb (length (encode e)) 47 (omega (arith, length-encode e w)),
  part_magic e w,
  bytes_eq_refl magic,
  part_version e w,
  part_idem e w,
  not_nil,
  part_props_len e w,
  le→not_ltb (length (encode e)) (47 + length e.user_props) (omega (arith, length-encode e w)),
  part_server e w,
  part_ts e w,
  part_props e w,
  part_payload e w,
)
  where
    not_nil : bytes_eq e.idempotency_id nil_uuid ≡ false
    not_nil = elim (Bool-cases (bytes_eq e.idempotency_id nil_uuid)) [
      | inl p ↦ absurd (w.idem_set ((bytes_eq_iff e.idempotency_id nil_uuid).0 p))
      | inr p ↦ p
    ]

-- `TryDecode` is `Decode` without the reason of a refusal: its own test of the length and of the
-- magic refuses nothing that `Decode` accepts.
pub try_decode-eq-decode : (wire : Bytes) → try_decode wire ≡ to_option (decode wire)
unfolding try_decode decode
try_decode-eq-decode wire = elim (Bool-cases (ltb (length wire) 47)) [
  | inl short ↦ rw short
  | inr long ↦ elim (Bool-cases (bytes_eq (slice wire 0 4) magic)) [
    | inl same ↦ rw (long, same)
    | inr other ↦ rw (long, other)
  ]
]
