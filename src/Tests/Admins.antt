-- ===== src/Tests/Admins.antt =====
-- core/admin/server.go on concrete requests.
use broker_message.Base.{
  lookup, ℕ, ◌+◌, ◌⊎◌, inl, ◌≡◌, refl, true, false, none, some, List, [], ◌∷◌, ◌++◌, ◌&&◌, ltb,
  if◌then◌else◌, Bytes, bytes_eq, bytes_key,
}
use broker_message.Storage.Memory.{MemDb, mem_badger}
use broker_message.Storage.Entries.{has_prefix}
use broker_message.Admin.{
  Env, Request, Admin, new, post_method, http_error, token_ttl, authenticated, credentials_fail,
}
use broker_message.Admin.Serve.{Route, ui_route, serve, login_path}
use broker_message.Admin.Access.{logs_in, serve-authenticated}
use broker_message.Admin.Lockout.{unknown, served, serve-unauthorized}

abbrev admin : Admin MemDb
admin =
    new (record { registry = record { topics = [] }; dedup = none; sessions = []; metrics = [] }) []
      [] 600 (b'a' ∷ []) (b'p' ∷ []) 1

abbrev env : Env MemDb
env = record {
  now = 5;
  session_token = b's' ∷ [];
  csrf_token = b'c' ∷ [];
  fresh = λ n. [];
  open_dir = λ d. none;
  upgrades = false;
}

abbrev later : Env MemDb
later = record env { now = 9 }

-- POST /api/topics/n/purge
abbrev purge_request : Request
purge_request = record {
  path =
      b'/' ∷ b'a' ∷ b'p' ∷ b'i' ∷ b'/' ∷ b't' ∷ b'o' ∷ b'p' ∷ b'i' ∷ b'c' ∷ b's' ∷ b'/' ∷ b'n'
      ∷ b'/' ∷ b'p' ∷ b'u' ∷ b'r' ∷ b'g' ∷ b'e' ∷ [];
  method = post_method;
  session_cookie = none;
  csrf_header = [];
  basic_auth = none;
  upgrade = [];
  from = 0;
  to = 0;
  limit = 0;
}

abbrev login : Request
login = record purge_request { path = login_path; basic_auth = some (b'a' ∷ [], b'p' ∷ []) }

abbrev with_cookie : Request
with_cookie = record purge_request { session_cookie = some (b's' ∷ []) }

abbrev mux : List (Bytes × Route) → Bytes → Route ⊎ ℕ
mux patterns path = inl ui_route

abbrev join : Bytes → Bytes → Bytes
join dir name = dir ++ (b'/' ∷ name)

below_api : has_prefix (b'/' ∷ b'a' ∷ b'p' ∷ b'i' ∷ b'/' ∷ []) purge_request.path ≡ true
unfolding has_prefix
below_api = refl

no_login : logs_in purge_request admin ≡ false
unfolding bytes_eq credentials_fail
no_login = refl

-- A cookie that nobody was given.
abbrev forged : Request
forged = record purge_request { session_cookie = some (b'x' ∷ []) }

forged_unknown : lookup (b'x' ∷ []) admin.sessions ≡ none
unfolding lookup new
forged_unknown = refl

-- The administrator has logged in, and someone else has tried to purge a topic.
abbrev earlier : List (Env MemDb × Request)
earlier = (env, login) ∷ (later, purge_request) ∷ []

serve-unauthorized_example :
    serve mux join later forged (served mux join earlier admin)
    ≡ (served mux join earlier admin, http_error 401)
unfolding bytes_eq credentials_fail new
serve-unauthorized_example =
    serve-unauthorized mux join earlier later forged admin below_api no_login
      (unknown forged_unknown) (refl, (refl, tt))

serve-authenticated_example : authenticated later with_cookie (serve mux join env login admin).0 ≡ (
    if logs_in login admin && bytes_eq (b's' ∷ []) (b's' ∷ [])
    then ltb 9 (5 + token_ttl)
    else authenticated later with_cookie admin)
serve-authenticated_example =
    serve-authenticated mux join env later login with_cookie admin (b's' ∷ []) refl
