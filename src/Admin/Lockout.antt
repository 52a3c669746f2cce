-- ===== src/Admin/Lockout.antt =====
-- core/admin/server.go, `serve`: without a session there is no way in.
use broker_message.Base.{
  arith, ◌≤◌, [], ◌∷◌, All, ℕ, ◌⊎◌, inl, inr, ◌≡◌, refl, ap, ◌∙◌, Bool, true, false, not, ◌&&◌,
  Option, none, some, List, Bytes, bytes_eq, Assoc, lookup, bytes_key, Bool-cases,
}
use broker_message.Storage.{Badger}
use broker_message.Storage.Entries.{has_prefix}
use broker_message.Admin.{
  Env, Request, Admin, http_error, post_method, is_live, authenticated, credentials_fail,
  handle_login,
}
use broker_message.Admin.Serve.{Route, serve, login_path, api_path}
use broker_message.Admin.Access.{
  and-eq-true, has_credentials, credentials_fail-not, logs_in, refused_credentials,
  authenticated-cookie, serve-tokens, serve-authenticated,
}

-- A request has no session: it has no cookie, or one that was not given out, or whose time is over.
pub data NoSession (now : ℕ) (sessions : Assoc Bytes ℕ) : Option Bytes → Type 0 where
  no_cookie : NoSession now sessions none
  unknown : {cookie : Bytes} → lookup cookie sessions ≡ none → NoSession now sessions (some cookie)
  expired :
      {cookie : Bytes} {exp : ℕ}
      → lookup cookie sessions ≡ some exp
      → exp ≤ now
      → NoSession now sessions (some cookie)

is_live-NoSession :
    (now : ℕ) (sessions : Assoc Bytes ℕ) (cookie : Bytes)
    → NoSession now sessions (some cookie)
    → is_live now (lookup cookie sessions) ≡ false
unfolding is_live
is_live-NoSession now sessions cookie (unknown h) = rw h refl
is_live-NoSession now sessions cookie (expired {exp = exp} h late) = rw h (ground arith)

module _ {Db : Type 0} where
  has_credentials-same :
      (auth : Option (Bytes × Bytes)) (a' a : Admin Db)
      → Path (Bytes × Bytes) (a'.admin_user, a'.admin_pass) (a.admin_user, a.admin_pass)
      → has_credentials auth a' ≡ has_credentials auth a
  has_credentials-same none a' a h = refl
  has_credentials-same (some (user, pass)) a' a h =
      ap (λ (x : Bytes × Bytes). bytes_eq user x.0 && bytes_eq pass x.1) h

  logs_in-same :
      (r : Request) (a' a : Admin Db)
      → Path (Bytes × Bytes) (a'.admin_user, a'.admin_pass) (a.admin_user, a.admin_pass)
      → logs_in r a' ≡ logs_in r a
  logs_in-same r a' a h =
      ap (λ (x : Bool). (bytes_eq r.path login_path && bytes_eq r.method post_method) && x)
        (has_credentials-same r.basic_auth a' a h)

module _ {Db : Type 0} ⦃b : Badger Db⦄ where
  module _ (mux : List (Bytes × Route) → Bytes → Route ⊎ ℕ) (join : Bytes → Bytes → Bytes) where
    serve-refused :
        (env : Env Db) (r : Request) (a : Admin Db)
        → has_prefix api_path r.path ≡ true
        → logs_in r a ≡ false
        → authenticated env r a ≡ false
        → serve mux join env r a ≡ (a, http_error 401)
    unfolding serve handle_login
    serve-refused env r a api no_login closed =
        elim (Bool-cases (bytes_eq r.path login_path && bytes_eq r.method post_method)) [
          | inl asks ↦ let fail = refused_credentials r a asks no_login in rw asks (rw fail refl)
          | inr other ↦ rw (other, closed, api) refl
        ]

    -- No page changes the administrator's name and password.
    logs_in-serve :
        (env : Env Db) (r r' : Request) (a : Admin Db)
        → logs_in r' (serve mux join env r a).0 ≡ logs_in r' a
    unfolding serve handle_login
    logs_in-serve env r r' a = elim (Bool-cases (logs_in r a)) [
      | inl login ↦
          let (asks, right) = and-eq-true _ (has_credentials r.basic_auth a) login in
          let fail : credentials_fail r.basic_auth a ≡ false =
            credentials_fail-not r.basic_auth a ∙ ap not right in
          logs_in-same r' _ a (rw asks (rw fail refl))
      | inr other ↦
          let same = serve-tokens mux join env r a other in
          logs_in-same r' _ a
            (ap (λ (x : Assoc Bytes ℕ × Assoc Bytes ℕ × Bytes × Bytes). (x.2, x.3)) same)
    ]

    -- The state after these requests.
    pub served : List (Env Db × Request) → Admin Db → Admin Db
    served [] a = a
    served ((env, r) ∷ earlier) a = served earlier (serve mux join env r a).0

    -- None of the requests is a login with the administrator's name and password that gives this cookie.
    abbrev pub NotGiven : Admin Db → List (Env Db × Request) → Option Bytes → Type 0
    NotGiven a earlier none = Unit {0}
    NotGiven a earlier (some cookie) =
        All (λ (x : Env Db × Request). (logs_in x.1 a && bytes_eq x.0.session_token cookie) ≡ false)
          earlier

    served-authenticated :
        (earlier : List (Env Db × Request)) (env : Env Db) (r : Request) (cookie : Bytes)
        (first a : Admin Db)
        → ((r' : Request) → logs_in r' a ≡ logs_in r' first)
        → r.session_cookie ≡ some cookie
        → NotGiven first earlier (some cookie)
        → authenticated env r (served earlier a) ≡ authenticated env r a
    unfolding served
    served-authenticated [] env r cookie first a same h n = refl
    served-authenticated ((env₁, r₁) ∷ earlier) env r cookie first a same h n =
        served-authenticated earlier env r cookie first (serve mux join env₁ r₁ a).0
          (λ r'. logs_in-serve env₁ r₁ r' a ∙ same r') h n.1
        ∙ serve-authenticated mux join env₁ env r₁ r a cookie h
        ∙ rw (same r₁, n.0) refl

    served-logs_in :
        (earlier : List (Env Db × Request)) (r : Request) (a : Admin Db)
        → logs_in r (served earlier a) ≡ logs_in r a
    unfolding served
    served-logs_in [] r a = refl
    served-logs_in ((env₁, r₁) ∷ earlier) r a =
        served-logs_in earlier r (serve mux join env₁ r₁ a).0 ∙ logs_in-serve env₁ r₁ r a

    served-NoSession :
        (earlier : List (Env Db × Request)) (env : Env Db) (r : Request) (o : Option Bytes)
        (a : Admin Db)
        → r.session_cookie ≡ o
        → NoSession env.now a.sessions o
        → NotGiven a earlier o
        → authenticated env r (served earlier a) ≡ false
    unfolding authenticated
    served-NoSession earlier env r none a h s n = rw h refl
    served-NoSession earlier env r (some cookie) a h s n =
        served-authenticated earlier env r cookie a a (λ r'. refl) h n
        ∙ authenticated-cookie env r a cookie h
        ∙ is_live-NoSession env.now a.sessions cookie s

    -- Without a session there is no way in: whatever requests have been served before, by whomever, if
    -- none of them was a login with the administrator's name and password that gave out the cookie of a
    -- request, and this cookie was of no session at the start or of one whose time is over, then the
    -- request, below /api/ and no such login itself, is answered by 401 and changes nothing.
    pub serve-unauthorized :
        (earlier : List (Env Db × Request)) (env : Env Db) (r : Request) (a : Admin Db)
        → has_prefix api_path r.path ≡ true
        → logs_in r a ≡ false
        → NoSession env.now a.sessions r.session_cookie
        → NotGiven a earlier r.session_cookie
        → serve mux join env r (served earlier a) ≡ (served earlier a, http_error 401)
    serve-unauthorized earlier env r a api no_login s n =
        serve-refused env r (served earlier a) api (served-logs_in earlier r a ∙ no_login)
          (served-NoSession earlier env r r.session_cookie a refl s n)
