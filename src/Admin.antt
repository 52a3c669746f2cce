-- ===== src/Admin.antt =====
-- core/admin/server.go: the HTTP server for administrators, over the registry and the table of
-- sessions. This file has its state, the login, and the pages that only read; Topics has the pages of
-- one topic, and Serve the tests that each request passes.
pub mod Topics
pub mod Serve
pub mod Tokens
pub mod Access
pub mod Lockout
use broker_message.Base.{
  ℕ, ◌+◌, ◌-◌, Bool, true, false, not, ◌||◌, ◌&&◌, Option, some, none, List, [], ◌∷◌, map, ltb,
  if◌then◌else◌, length, Bytes, bytes_eq, Assoc, lookup, insert, bytes_key,
}
use broker_message.Dedup
use broker_message.Topic.{Topic, Message}
use broker_message.Registry
use broker_message.Server
use broker_message.Server.{SessionInfo}
use broker_message.Session.{Broker}

-- `now` is what `time.Now()` returns, `session_token` and `csrf_token` what `randomToken()` returns,
-- `fresh n` what `uuid.NewV7()` returns at its n-th call, `open_dir` what `badger.Open` returns for a
-- directory, and `upgrades` whether the upgrade to a web socket succeeds.
pub record Env (Db : Type 0) : Type 0 where
  pub now : ℕ
  pub session_token : Bytes
  pub csrf_token : Bytes
  pub fresh : ℕ → Bytes
  pub open_dir : Bytes → Option Db
  pub upgrades : Bool

-- What the handlers read of a request. `from`, `to` and `limit` are what `strconv` returns for the
-- query, its error ignored; a negative `limit` is written as the uint64 with the same bits.
pub record Request : Type 0 where
  pub path : Bytes
  pub method : Bytes
  pub session_cookie : Option Bytes
  pub csrf_header : Bytes
  pub basic_auth : Option (Bytes × Bytes)
  pub upgrade : Bytes
  pub from : ℕ
  pub to : ℕ
  pub limit : ℕ

-- The values that `writeJSON` is called with.
pub data Json : Type 0 where
  state : ℕ → ℕ → ℕ → ℕ → ℕ → Json
  clients : List SessionInfo → Json
  topics : List (Bytes × ℕ) → Json
  topic : Bytes → ℕ → Json
  messages : List Message → Json
  replayed : ℕ → Json
  databases : Bytes → Bytes → List Bytes → List (Bytes × Bytes × ℕ) → Json
  purged : Json
  restarting : Json
  logged_in : Bytes → Json

-- `tail n` is a web socket on which the messages of the channel `n` are written until it is closed;
-- `no_reply` a request whose upgrade has failed.
pub data Response : Type 0 where
  json : Json → Response
  http_error : ℕ → Response
  html : Response
  tail : ℕ → Response
  no_reply : Response

-- The part of the broker that the pages use, the hub's directory and time to live, and the tokens with
-- the time at which each expires. `shutting_down` tells whether a restart has been asked for.
pub record Admin (Db : Type 0) : Type 0 where
  pub broker : Broker Db
  pub meta_dir : Bytes
  pub topics_dir : Bytes
  pub dedup_ttl : ℕ
  pub admin_user : Bytes
  pub admin_pass : Bytes
  pub started : ℕ
  pub sessions : Assoc Bytes ℕ
  pub csrf_tokens : Assoc Bytes ℕ
  pub shutting_down : Bool

abbrev pub Page : Type 0 → Type 0
Page Db = Admin Db → Admin Db × Response

abbrev pub get_method : Bytes
get_method = b'G' ∷ b'E' ∷ b'T' ∷ []

abbrev pub post_method : Bytes
post_method = b'P' ∷ b'O' ∷ b'S' ∷ b'T' ∷ []

-- 24 hours, in nanoseconds.
abbrev pub token_ttl : ℕ
token_ttl = 86_400_000_000_000

-- `New`
unfoldable pub new : {Db : Type 0} → Broker Db → Bytes → Bytes → ℕ → Bytes → Bytes → ℕ → Admin Db
new broker meta_dir topics_dir dedup_ttl admin_user admin_pass now = record {
  broker = broker;
  meta_dir = meta_dir;
  topics_dir = topics_dir;
  dedup_ttl = dedup_ttl;
  admin_user = admin_user;
  admin_pass = admin_pass;
  started = now;
  sessions = [];
  csrf_tokens = [];
  shutting_down = false;
}

-- `exp, ok := tokens[tok]; return ok && time.Now().Before(exp)`
unfoldable pub is_live : ℕ → Option ℕ → Bool
is_live now none = false
is_live now (some exp) = ltb now exp

dedup_size : {Db : Type 0} → Option (Dedup.Store Db) → ℕ
dedup_size none = 0
dedup_size (some d) = Dedup.size d

-- `CurrentSeq` of a topic that the registry lists.
seq_of : {Db : Type 0} → Option (Topic Db) → ℕ
seq_of none = 0
seq_of (some t) = t.seq

module _ {Db : Type 0} where
  unfoldable pub authenticated : Env Db → Request → Admin Db → Bool
  unfolding is_live
  authenticated env r a = elim r.session_cookie [
    | none ↦ false
    | some value ↦ is_live env.now (lookup value a.sessions)
  ]

  unfoldable pub valid_csrf : Env Db → Request → Admin Db → Bool
  unfolding is_live
  valid_csrf env r a =
      if bytes_eq r.csrf_header []
      then false
      else is_live env.now (lookup r.csrf_header a.csrf_tokens)

  -- `!ok || user != s.adminUser || pass != s.adminPass`
  unfoldable pub credentials_fail : Option (Bytes × Bytes) → Admin Db → Bool
  credentials_fail none a = true
  credentials_fail (some (user, pass)) a =
      not (bytes_eq user a.admin_user) || not (bytes_eq pass a.admin_pass)

  -- The cookie is set to `env.session_token`.
  unfoldable pub handle_login : Env Db → Request → Page Db
  unfolding credentials_fail
  handle_login env r a = if credentials_fail r.basic_auth a then (a, http_error 401) else (
    record a {
      sessions = insert env.session_token (env.now + token_ttl) a.sessions;
      csrf_tokens = insert env.csrf_token (env.now + token_ttl) a.csrf_tokens;
    },
    json (logged_in env.csrf_token),
  )

  unfoldable pub handle_state : Env Db → Page Db
  unfolding dedup_size
  handle_state env a = (
    a,
    json (
        state (env.now - a.started) (length (Registry.list_topics a.broker.registry))
          (dedup_size a.broker.dedup) a.dedup_ttl a.started),
  )

  unfoldable pub handle_clients : Page Db
  handle_clients a = (a, json (clients (Server.list_sessions a.broker.sessions)))

  -- The loop of `handleTopics`.
  unfoldable pub topic_rows : Registry.Registry Db → List Bytes → List (Bytes × ℕ)
  topic_rows reg [] = []
  topic_rows reg (n ∷ names) =
      let rest = topic_rows reg names in
      elim (Registry.get reg n) [ none ↦ rest | some t ↦ (n, t.seq) ∷ rest ]

  unfoldable pub handle_topics : Page Db
  unfolding topic_rows
  handle_topics a =
      (a, json (topics (topic_rows a.broker.registry (Registry.list_topics a.broker.registry))))

  -- `join` is `filepath.Join`.
  unfoldable pub handle_db : (Bytes → Bytes → Bytes) → Page Db
  unfolding seq_of
  handle_db join a =
      let names = Registry.list_topics a.broker.registry in
      (
        a,
        json (
            databases a.meta_dir a.topics_dir names (
              map
                (λ name. (
                  name,
                  join a.topics_dir (Registry.sanitize_topic_dir name),
                  seq_of (Registry.get a.broker.registry name),
                ))
                names)),
      )

  -- The goroutine that is started calls `Shutdown` 200 ms later.
  unfoldable pub handle_restart : Page Db
  handle_restart a = (record a { shutting_down = true }, json restarting)

  unfoldable pub handle_ui : Page Db
  handle_ui a = (a, html)
