-- ===== src/Envelope/Canonical.antt =====
-- core/envelope/envelope.go: `Encode` against `Decode`.
use broker_message.Base.{
  ℕ, zero, suc, ◌+◌, ◌-◌, ◌≤◌, ◌<◌, ◌≡◌, ◌≢◌, refl, sym, ap, ◌∙◌, Bool, true, false, not, List, [],
  ◌∷◌, ◌++◌, arith, length, get_or, take, drop, slice, length-slice, take-append-drop, All, IsByte,
  Bytes, bytes_eq, bytes_eq_iff, put_uint16, put_uint64, be_uint16, be_uint64, be_value, ltb, ◌==◌,
  ok, refuse_if-eq-ok, ok-injective, ==_iff,
}
use mathlib.Core.Path.{ap₂}
use mathlib.Core.Bool.{false≢true}
use broker_message.Envelope.{magic, version, nil_uuid, Envelope, encode, decode}

module _ {ℓ} {A : Type ℓ} where
  drop-nil : (n : ℕ) → drop {A = A} n [] ≡ []
  drop-nil zero = refl
  drop-nil (suc n) = refl

  drop-drop : (n k : ℕ) (xs : List A) → drop k (drop n xs) ≡ drop (n + k) xs
  drop-drop zero k xs = ap (λ (t : ℕ). drop t xs) (omega arith)
  drop-drop (suc n) k [] = drop-nil k ∙ sym (drop-nil (suc n + k))
  drop-drop (suc n) k (x ∷ xs) =
      let e : suc n + k ≡ suc (n + k) = omega arith in rw e (drop-drop n k xs)

  -- `b[lo:]` is `b[lo:hi]` and `b[hi:]`.
  drop-eq-slice : (b : List A) (lo hi : ℕ) → lo ≤ hi → drop lo b ≡ slice b lo hi ++ drop hi b
  drop-eq-slice b lo hi h =
      sym (take-append-drop (hi - lo) (drop lo b))
      ∙ ap (λ (t : List A). slice b lo hi ++ t)
          (drop-drop lo (hi - lo) b ∙ ap (λ (t : ℕ). drop t b) (omega arith))

  drop-eq-cons :
      (b : List A) (i : ℕ) (d : A) → i < length b → drop i b ≡ get_or b i d ∷ drop (i + 1) b
  drop-eq-cons [] i d h = absurd (omega arith)
  drop-eq-cons (x ∷ b) zero d h = refl
  drop-eq-cons (x ∷ b) (suc i) d h =
      let e : suc i + 1 ≡ suc (i + 1) = omega arith in rw e (drop-eq-cons b i d (omega arith))

  module _ {κ} (P : A → Type κ) where
    All-take : (n : ℕ) (xs : List A) → All P xs → All P (take n xs)
    All-take zero xs a = tt
    All-take (suc n) [] a = tt
    All-take (suc n) (x ∷ xs) a = (a.0, All-take n xs a.1)

    All-drop : (n : ℕ) (xs : List A) → All P xs → All P (drop n xs)
    All-drop zero xs a = a
    All-drop (suc n) [] a = tt
    All-drop (suc n) (x ∷ xs) a = All-drop n xs a.1

put-be_uint16 : (s : Bytes) → length s ≡ 2 → All IsByte s → put_uint16 (be_uint16 s) ≡ s
unfolding put_uint16 be_uint16
put-be_uint16 (a ∷ b ∷ []) e h = ground arith
put-be_uint16 [] e h = absurd (omega arith)
put-be_uint16 (a ∷ []) e h = absurd (omega arith)
put-be_uint16 (a ∷ b ∷ c ∷ s) e h = absurd (omega arith)

put-be_uint64 : (s : Bytes) → length s ≡ 8 → All IsByte s → put_uint64 (be_uint64 s) ≡ s
unfolding put_uint64 be_value
put-be_uint64 (a ∷ b ∷ c ∷ d ∷ e ∷ f ∷ g ∷ h ∷ []) l p = ap₂ ◌∷◌ (omega arith) (
    ap₂ ◌∷◌ (omega arith) (
      ap₂ ◌∷◌ (omega arith) (
        ap₂ ◌∷◌ (omega arith) (
          ap₂ ◌∷◌ (omega arith)
            (ap₂ ◌∷◌ (omega arith) (ap₂ ◌∷◌ (omega arith) (ap₂ ◌∷◌ (omega arith) refl)))))))
put-be_uint64 _ l p = absurd (omega arith)

not-eq-false : (b : Bool) → not b ≡ false → b ≡ true
not-eq-false true h = refl
not-eq-false false h = cc

not_short : (a b : ℕ) → ltb a b ≡ false → b ≤ a
not_short a b h = ground arith

-- What a successful `Decode` has checked, and where it has read the fields.
record Decoded (wire : Bytes) (e : Envelope) : Type 0 where
  props_len : ℕ
  header_there : 47 ≤ length wire
  is_magic : slice wire 0 4 ≡ magic
  is_version : get_or wire 4 0 ≡ version
  at_idem : e.idempotency_id ≡ slice wire 5 21
  idem_set : e.idempotency_id ≢ nil_uuid
  at_server : e.server_msg_id ≡ slice wire 21 37
  at_ts : e.publish_ts ≡ be_uint64 (slice wire 37 45)
  at_len : props_len ≡ be_uint16 (slice wire 45 47)
  props_there : 47 + props_len ≤ length wire
  at_props : e.user_props ≡ slice wire 47 (47 + props_len)
  at_payload : e.payload ≡ drop (47 + props_len) wire

decode-Decoded : (wire : Bytes) (e : Envelope) → decode wire ≡ ok e → Decoded wire e
unfolding decode
decode-Decoded wire e h =
    let len = be_uint16 (slice wire 45 47) in
    let (c₁, h₁) = refuse_if-eq-ok (ltb (length wire) 47) _ _ h in
    let (c₂, h₂) = refuse_if-eq-ok (not (bytes_eq (slice wire 0 4) magic)) _ _ h₁ in
    let (c₃, h₃) = refuse_if-eq-ok (not (get_or wire 4 0 == version)) _ _ h₂ in
    let (c₄, h₄) = refuse_if-eq-ok (bytes_eq (slice wire 5 21) nil_uuid) _ _ h₃ in
    let (c₅, h₅) = refuse_if-eq-ok (ltb (length wire) (47 + len)) _ _ h₄ in
    let r = ok-injective _ e h₅ in
    record {
      props_len = len;
      header_there = not_short (length wire) 47 c₁;
      is_magic = (bytes_eq_iff (slice wire 0 4) magic).0 (not-eq-false _ c₂);
      is_version = (==_iff (get_or wire 4 0) version).0 (not-eq-false _ c₃);
      at_idem = ap (λ (x : Envelope). x.idempotency_id) (sym r);
      idem_set = λ n. false≢true (
          sym c₄
          ∙ (bytes_eq_iff (slice wire 5 21) nil_uuid).1
              (ap (λ (x : Envelope). x.idempotency_id) r ∙ n));
      at_server = ap (λ (x : Envelope). x.server_msg_id) (sym r);
      at_ts = ap (λ (x : Envelope). x.publish_ts) (sym r);
      at_len = refl;
      props_there = not_short (length wire) (47 + len) c₅;
      at_props = ap (λ (x : Envelope). x.user_props) (sym r);
      at_payload = ap (λ (x : Envelope). x.payload) (sym r);
    }

module _ (wire : Bytes) (e : Envelope) (d : Decoded wire e) (bytes : All IsByte wire) where
  word : (lo hi : ℕ) → All IsByte (slice wire lo hi)
  word lo hi = All-take IsByte (hi - lo) (drop lo wire) (All-drop IsByte lo wire bytes)

  ts_bytes : put_uint64 e.publish_ts ≡ slice wire 37 45
  ts_bytes = rw d.at_ts (
      put-be_uint64 (slice wire 37 45)
        (length-slice wire 37 45 (omega arith) (omega (arith, d.header_there))) (word 37 45))

  size : length e.user_props ≡ d.props_len
  size =
      rw d.at_props
        (length-slice wire 47 (47 + d.props_len) (omega arith) d.props_there ∙ omega arith)

  len_bytes : put_uint16 (length e.user_props) ≡ slice wire 45 47
  len_bytes =
      rw (size, d.at_len)
        (put-be_uint16 (slice wire 45 47)
          (length-slice wire 45 47 (omega arith) (omega (arith, d.header_there))) (word 45 47))

  -- the bytes from the length field on, from the version on, and all of them
  from_length :
      drop 45 wire
      ≡ slice wire 45 47 ++ (slice wire 47 (47 + d.props_len) ++ drop (47 + d.props_len) wire)
  from_length =
      drop-eq-slice wire 45 47 (omega arith)
      ∙ ap (λ (t : Bytes). slice wire 45 47 ++ t)
          (drop-eq-slice wire 47 (47 + d.props_len) (omega arith))

  from_version :
      drop 4 wire
      ≡ version ∷ (slice wire 5 21 ++ (slice wire 21 37 ++ (slice wire 37 45 ++ drop 45 wire)))
  from_version =
      drop-eq-cons wire 4 0 (omega (arith, d.header_there))
      ∙ ap₂ ◌∷◌ d.is_version (
          drop-eq-slice wire 5 21 (omega arith)
          ∙ ap (λ (t : Bytes). slice wire 5 21 ++ t)
              (drop-eq-slice wire 21 37 (omega arith)
                ∙ ap (λ (t : Bytes). slice wire 21 37 ++ t)
                    (drop-eq-slice wire 37 45 (omega arith))))

  encode-Decoded : encode e ≡ wire
  unfolding encode
  encode-Decoded =
      rw
        (
          ts_bytes,
          len_bytes,
          d.at_idem,
          d.at_server,
          d.at_props,
          d.at_payload,
          ← from_length,
          ← from_version,
        )
        (ap (λ (t : Bytes). t ++ drop 4 wire) (sym d.is_magic)
          ∙ sym (drop-eq-slice wire 0 4 (omega arith)))

-- `Decode` accepts nothing but what `Encode` writes: encoding a decoded envelope gives the bytes
-- back, and no two byte strings decode to the same envelope.
pub encode-decode :
    (wire : Bytes) (e : Envelope) → All IsByte wire → decode wire ≡ ok e → encode e ≡ wire
encode-decode wire e bytes h = encode-Decoded wire e (decode-Decoded wire e h) bytes
