-- ===== src/Admin/Serve.antt =====
-- core/admin/server.go: `routes` and `serve`.
use broker_message.Base.{ℕ, inl, inr, ◌⊎◌, not, ◌&&◌, List, [], ◌∷◌, if◌then◌else◌, Bytes, bytes_eq}
use broker_message.Storage.{Badger}
use broker_message.Storage.Entries.{has_prefix}
use broker_message.Admin.{
  Env, Request, Page, http_error, get_method, post_method, authenticated, valid_csrf, handle_login,
  handle_state, handle_clients, handle_topics, handle_db, handle_restart, handle_ui,
}
use broker_message.Admin.Topics.{topics_path, handle_topic_sub}

abbrev pub login_path : Bytes
login_path = b'/' ∷ b'a' ∷ b'p' ∷ b'i' ∷ b'/' ∷ b'l' ∷ b'o' ∷ b'g' ∷ b'i' ∷ b'n' ∷ []

abbrev pub api_path : Bytes
api_path = b'/' ∷ b'a' ∷ b'p' ∷ b'i' ∷ b'/' ∷ []

abbrev pub admin_path : Bytes
admin_path = b'/' ∷ b'a' ∷ b'p' ∷ b'i' ∷ b'/' ∷ b'a' ∷ b'd' ∷ b'm' ∷ b'i' ∷ b'n' ∷ b'/' ∷ []

abbrev pub state_path : Bytes
state_path = b'/' ∷ b'a' ∷ b'p' ∷ b'i' ∷ b'/' ∷ b's' ∷ b't' ∷ b'a' ∷ b't' ∷ b'e' ∷ []

abbrev pub clients_path : Bytes
clients_path =
    b'/' ∷ b'a' ∷ b'p' ∷ b'i' ∷ b'/' ∷ b'c' ∷ b'l' ∷ b'i' ∷ b'e' ∷ b'n' ∷ b't' ∷ b's' ∷ []

abbrev pub topic_list_path : Bytes
topic_list_path = b'/' ∷ b'a' ∷ b'p' ∷ b'i' ∷ b'/' ∷ b't' ∷ b'o' ∷ b'p' ∷ b'i' ∷ b'c' ∷ b's' ∷ []

abbrev pub db_path : Bytes
db_path = b'/' ∷ b'a' ∷ b'p' ∷ b'i' ∷ b'/' ∷ b'd' ∷ b'b' ∷ []

abbrev pub restart_path : Bytes
restart_path =
    b'/' ∷ b'a' ∷ b'p' ∷ b'i' ∷ b'/' ∷ b'a' ∷ b'd' ∷ b'm' ∷ b'i' ∷ b'n' ∷ b'/' ∷ b'r' ∷ b'e' ∷ b's'
    ∷ b't' ∷ b'a' ∷ b'r' ∷ b't' ∷ []

abbrev pub root_path : Bytes
root_path = b'/' ∷ []

-- The handlers that are registered.
pub data Route : Type 0 where
  state_route : Route
  clients_route : Route
  topics_route : Route
  topic_route : Route
  db_route : Route
  restart_route : Route
  ui_route : Route

unfoldable pub routes : List (Bytes × Route)
routes =
    (state_path, state_route)
    ∷ (clients_path, clients_route)
    ∷ (topic_list_path, topics_route)
    ∷ (topics_path, topic_route)
    ∷ (db_path, db_route)
    ∷ (restart_path, restart_route)
    ∷ (root_path, ui_route)
    ∷ []

-- `mux patterns path` is the handler that `http.ServeMux` picks for a path, or the status of the answer
-- that it gives itself; `join` is `filepath.Join`.
module _ {Db : Type 0} ⦃b : Badger Db⦄ (mux : List (Bytes × Route) → Bytes → Route ⊎ ℕ)
    (join : Bytes → Bytes → Bytes) where
  unfoldable pub run : Env Db → Request → Route → Page Db
  run env r state_route a = handle_state env a
  run env r clients_route a = handle_clients a
  run env r topics_route a = handle_topics a
  run env r topic_route a = handle_topic_sub env r a
  run env r db_route a = handle_db join a
  run env r restart_route a = handle_restart a
  run env r ui_route a = handle_ui a

  unfoldable pub serve_http : Env Db → Request → Page Db
  unfolding run
  serve_http env r a = elim (mux routes r.path) [
    | inl route ↦ run env r route a
    | inr status ↦ (a, http_error status)
  ]

  -- The test for a valid token, and what comes behind it.
  unfoldable pub past_login : Env Db → Request → Page Db
  unfolding serve_http
  past_login env r a =
      if not (bytes_eq r.method get_method)
        && (has_prefix admin_path r.path && not (valid_csrf env r a))
      then (a, http_error 403)
      else serve_http env r a

  unfoldable pub serve : Env Db → Request → Page Db
  unfolding past_login
  serve env r a =
      if bytes_eq r.path login_path && bytes_eq r.method post_method
      then handle_login env r a
      else if not (authenticated env r a) && has_prefix api_path r.path
      then (a, http_error 401)
      else past_login env r a
