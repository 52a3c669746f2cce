-- ===== src/Auth/Permissions.antt =====
-- core/auth/auth.go: what `CanPublish`, `CanSubscribe` and `Authenticate` grant, and to whom.
use broker_message.Base.{
  ◌≡◌, ◌≢◌, ◌↔◌, ◌⊎◌, inl, inr, refl, sym, ◌∙◌, Bool, true, false, some, List, [], ◌∷◌, arith,
  length, Bytes, bytes_eq, bytes_eq_iff, Bool-cases, Option-cases, lookup, bytes_key,
}
use broker_message.Auth.{
  User, Store, authenticate, check_password, allowed, split, match_topic, any_match, can_publish,
  can_subscribe,
}
use broker_message.Auth.Matching.{Matches, match_topic_iff}

-- One of the patterns matches the topic.
pub data AnyMatches (topic : Bytes) : List Bytes → Type 0 where
  here : {p : Bytes} {ps : List Bytes} → Matches (split p) (split topic) → AnyMatches topic (p ∷ ps)
  there : {p : Bytes} {ps : List Bytes} → AnyMatches topic ps → AnyMatches topic (p ∷ ps)

any_match_sound :
    (ps : List Bytes) (topic : Bytes) → any_match ps topic ≡ true → AnyMatches topic ps
unfolding any_match
any_match_sound [] topic h = cc
any_match_sound (p ∷ ps) topic h = elim (Bool-cases (match_topic p topic)) [
  | inl a ↦ here ((match_topic_iff p topic).0 a)
  | inr a ↦ there (any_match_sound ps topic (ground arith))
]

any_match_complete :
    (topic : Bytes) {ps : List Bytes} → AnyMatches topic ps → any_match ps topic ≡ true
unfolding any_match
any_match_complete topic (here {p = p} m) = rw ((match_topic_iff p topic).1 m)
any_match_complete topic (there m) = ground (arith, any_match_complete topic m)

nil_of_length : {A : Type 0} (l : List A) → length l ≡ 0 → l ≡ []
nil_of_length [] h = refl
nil_of_length (x ∷ l) h = absurd (omega arith)

abbrev pub Granted : Bool → List Bytes → Bytes → Type 0
Granted admin patterns topic = (admin ≡ true) ⊎ (AnyMatches topic patterns ⊎ (patterns ≡ []))

allowed_sound :
    (admin : Bool) (ps : List Bytes) (topic : Bytes)
    → allowed admin ps topic ≡ true
    → Granted admin ps topic
unfolding allowed
allowed_sound true ps topic h = inl refl
allowed_sound false ps topic h = elim (Bool-cases (any_match ps topic)) [
  | inl a ↦ inr (inl (any_match_sound ps topic a))
  | inr a ↦ inr (inr (nil_of_length ps (ground arith)))
]

allowed_complete :
    (admin : Bool) (ps : List Bytes) (topic : Bytes)
    → Granted admin ps topic
    → allowed admin ps topic ≡ true
unfolding allowed
allowed_complete true ps topic g = refl
allowed_complete false ps topic (inl a) = cc
allowed_complete false ps topic (inr (inl m)) = rw (any_match_complete topic m)
allowed_complete false ps topic (inr (inr e)) = rw e (unfold any_match in refl)

-- A user may publish to a topic exactly if he is an administrator, one of his publish patterns
-- matches it, or he has no publish pattern at all.
pub can_publish_iff :
    (u : User) (topic : Bytes) → (can_publish u topic ≡ true) ↔ Granted u.admin u.publish topic
unfolding can_publish
can_publish_iff u topic =
    (allowed_sound u.admin u.publish topic, allowed_complete u.admin u.publish topic)

-- The same for subscriptions, with the subscribe patterns.
can_subscribe_iff :
    (u : User) (filter : Bytes)
    → (can_subscribe u filter ≡ true) ↔ Granted u.admin u.subscribe filter
unfolding can_subscribe
can_subscribe_iff u filter =
    (allowed_sound u.admin u.subscribe filter, allowed_complete u.admin u.subscribe filter)

module _ (bcrypt_ok : Bytes → Bytes → Bool) where
  -- The password fits the user's entry: its bcrypt hash if there is one, else its plain password,
  -- which must not be empty.
  abbrev pub Fits : User → Bytes → Type 0
  Fits u password =
      ((u.bcrypt ≢ []) × (bcrypt_ok u.bcrypt password ≡ true))
      ⊎ ((u.bcrypt ≡ []) × (u.password ≢ []) × (u.password ≡ password))

  check_password_sound :
      (u v : User) (password : Bytes)
      → check_password bcrypt_ok u password ≡ (some v, true)
      → (u ≡ v) × Fits u password
  unfolding check_password
  check_password_sound u v password h = elim (Bool-cases (bytes_eq u.bcrypt [])) [
    | inl a ↦
        let plain = (bytes_eq_iff u.bcrypt []).0 a in
        (
          ground arith,
          inr (
            plain,
            ground (arith, bytes_eq_iff u.password []),
            ground (arith, bytes_eq_iff u.password password),
          ),
        )
    | inr a ↦ (ground arith, inl (ground (arith, bytes_eq_iff u.bcrypt []), ground arith))
  ]

  check_password_complete :
      (u : User) (password : Bytes)
      → Fits u password
      → check_password bcrypt_ok u password ≡ (some u, true)
  unfolding check_password
  check_password_complete u password (inl (hashed, fits)) = ground (arith, bytes_eq_iff u.bcrypt [])
  check_password_complete u password (inr (plain, set, fits)) = ground (
    arith,
    bytes_eq_iff u.bcrypt [],
    bytes_eq_iff u.password [],
    bytes_eq_iff u.password password,
  )

  authenticate-found :
      (s : Store) (username password : Bytes) (v : User)
      → lookup username s ≡ some v
      → authenticate bcrypt_ok (some s) username password ≡ check_password bcrypt_ok v password
  unfolding authenticate
  authenticate-found s username password v found = rw (found, authenticate)

  -- With a store, a login succeeds exactly as the stored user of that name whose entry the password
  -- fits.
  pub authenticate_iff :
      (s : Store) (username password : Bytes) (u : User)
      → (authenticate bcrypt_ok (some s) username password ≡ (some u, true))
        ↔ ((lookup username s ≡ some u) × Fits u password)
  authenticate_iff s username password u = (sound, complete)
    where
      sound :
          authenticate bcrypt_ok (some s) username password ≡ (some u, true)
          → (lookup username s ≡ some u) × Fits u password
      sound h = elim (Option-cases (lookup username s)) [
        | inl missing ↦ absurd (unfold authenticate in ground arith)
        | inr (v, found) ↦
            let checked : check_password bcrypt_ok v password ≡ (some u, true) =
              sym (authenticate-found s username password v found) ∙ h in
            let (same, fits) = check_password_sound v u password checked in
            (rw (found, same), rw same at fits)
      ]

      complete :
          (lookup username s ≡ some u) × Fits u password
          → authenticate bcrypt_ok (some s) username password ≡ (some u, true)
      complete (found, fits) =
          authenticate-found s username password u found ∙ check_password_complete u password fits
