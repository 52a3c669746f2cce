-- ===== src/Admin/Access.antt =====
-- core/admin/server.go: who gets past `serve`.
use broker_message.Base.{
  ℕ, ◌+◌, ◌⊎◌, inl, inr, ◌≡◌, refl, ap, ◌∙◌, Bool, true, false, not, ◌&&◌, ◌||◌, Option, none, some,
  List, ltb, if◌then◌else◌, Bytes, bytes_eq, Assoc, lookup, insert, lookup-insert, bytes_key,
  Bool-cases,
}
use broker_message.Storage.{Badger}
use broker_message.Storage.Entries.{has_prefix}
use broker_message.Admin.{
  Env, Request, Admin, post_method, token_ttl, is_live, authenticated, credentials_fail,
  handle_login,
}
use broker_message.Admin.Serve.{Route, serve, login_path, api_path}
use broker_message.Admin.Tokens.{tokens, if-tokens, past_login-tokens}

pub and-eq-true : (x y : Bool) → (x && y) ≡ true → (x ≡ true) × (y ≡ true)
and-eq-true true y h = (refl, h)
and-eq-true false y h = cc

is_live-insert :
    (now exp : ℕ) (token cookie : Bytes) (m : Assoc Bytes ℕ)
    → is_live now (lookup cookie (insert token exp m))
      ≡ (if bytes_eq token cookie then ltb now exp else is_live now (lookup cookie m))
unfolding is_live
is_live-insert now exp token cookie m = elim (Bool-cases (bytes_eq token cookie)) [
  | inl e ↦ rw (lookup-insert token cookie exp m, e) refl
  | inr e ↦ rw (lookup-insert token cookie exp m, e) refl
]

not-or-not : (x y : Bool) → (not x || not y) ≡ not (x && y)
not-or-not true y = refl
not-or-not false y = refl

module _ {Db : Type 0} where
  -- The administrator's name and password.
  abbrev pub has_credentials : Option (Bytes × Bytes) → Admin Db → Bool
  has_credentials none a = false
  has_credentials (some (user, pass)) a = bytes_eq user a.admin_user && bytes_eq pass a.admin_pass

  pub credentials_fail-not :
      (auth : Option (Bytes × Bytes)) (a : Admin Db)
      → credentials_fail auth a ≡ not (has_credentials auth a)
  unfolding credentials_fail
  credentials_fail-not none a = refl
  credentials_fail-not (some (user, pass)) a =
      not-or-not (bytes_eq user a.admin_user) (bytes_eq pass a.admin_pass)

  -- Whether a request is a login with the administrator's name and password.
  abbrev pub logs_in : Request → Admin Db → Bool
  logs_in r a =
      (bytes_eq r.path login_path && bytes_eq r.method post_method)
      && has_credentials r.basic_auth a

  pub refused_credentials :
      (r : Request) (a : Admin Db)
      → (bytes_eq r.path login_path && bytes_eq r.method post_method) ≡ true
      → logs_in r a ≡ false
      → credentials_fail r.basic_auth a ≡ true
  refused_credentials r a asks no_login =
      let wrong : has_credentials r.basic_auth a ≡ false = rw asks at no_login in
      credentials_fail-not r.basic_auth a ∙ ap not wrong

module _ {Db : Type 0} ⦃b : Badger Db⦄ where
  pub authenticated-cookie :
      (env : Env Db) (r : Request) (a : Admin Db) (cookie : Bytes)
      → r.session_cookie ≡ some cookie
      → authenticated env r a ≡ is_live env.now (lookup cookie a.sessions)
  unfolding authenticated
  authenticated-cookie env r a cookie h = rw (h, authenticated) refl

  module _ (mux : List (Bytes × Route) → Bytes → Route ⊎ ℕ) (join : Bytes → Bytes → Bytes) where
    pub serve-tokens :
        (env : Env Db) (r : Request) (a : Admin Db)
        → logs_in r a ≡ false
        → tokens (serve mux join env r a).0 ≡ tokens a
    unfolding serve handle_login
    serve-tokens env r a no_login =
        elim (Bool-cases (bytes_eq r.path login_path && bytes_eq r.method post_method)) [
          | inl asks ↦ let fail = refused_credentials r a asks no_login in rw asks (rw fail refl)
          | inr other ↦ rw other (
              if-tokens (not (authenticated env r a) && has_prefix api_path r.path) _ _ a refl
                (past_login-tokens mux join env r a))
        ]

    serve-login :
        (env : Env Db) (r : Request) (a : Admin Db)
        → logs_in r a ≡ true
        → (serve mux join env r a).0.sessions
          ≡ insert env.session_token (env.now + token_ttl) a.sessions
    unfolding serve handle_login
    serve-login env r a login =
        let (asks, right) = and-eq-true _ (has_credentials r.basic_auth a) login in
        let fail : credentials_fail r.basic_auth a ≡ false =
          credentials_fail-not r.basic_auth a ∙ ap not right in
        rw asks (rw fail refl)

    -- A cookie opens the pages after a request exactly if it did before, but that a login with the
    -- administrator's name and password gives one cookie, which opens them for 24 hours.
    pub serve-authenticated :
        (env env' : Env Db) (r r' : Request) (a : Admin Db) (cookie : Bytes)
        → r'.session_cookie ≡ some cookie
        → authenticated env' r' (serve mux join env r a).0 ≡ (
            if logs_in r a && bytes_eq env.session_token cookie
            then ltb env'.now (env.now + token_ttl)
            else authenticated env' r' a)
    serve-authenticated env env' r r' a cookie h = elim (Bool-cases (logs_in r a)) [
      | inl login ↦
          rw
            (
              authenticated-cookie env' r' (serve mux join env r a).0 cookie h,
              authenticated-cookie env' r' a cookie h,
              serve-login env r a login,
              login,
            )
            (is_live-insert env'.now (env.now + token_ttl) env.session_token cookie a.sessions)
      | inr other ↦
          let same =
            ap (λ (x : Assoc Bytes ℕ × Assoc Bytes ℕ × Bytes × Bytes). x.0)
              (serve-tokens env r a other) in
          rw
            (
              authenticated-cookie env' r' (serve mux join env r a).0 cookie h,
              authenticated-cookie env' r' a cookie h,
              same,
              other,
            )
            refl
    ]
