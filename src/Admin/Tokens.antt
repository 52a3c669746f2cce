-- ===== src/Admin/Tokens.antt =====
-- core/admin/server.go: the pages behind `serve` leave the tokens as they are.
use broker_message.Base.{
  ℕ, ◌⊎◌, inl, inr, ◌≡◌, refl, Bool, true, false, not, ◌&&◌, Option, some, none, List, [], ◌∷◌,
  if◌then◌else◌, Bytes, bytes_eq, Assoc, bytes_key, Result, ok, err, Bool-cases,
}
use broker_message.Storage.{Badger}
use broker_message.Storage.Entries.{has_prefix}
use broker_message.Topic
use broker_message.Topic.{Topic, Message, TopicError}
use broker_message.Registry
use broker_message.Admin.{
  Env, Request, Admin, Response, get_method, post_method, valid_csrf, handle_state, handle_clients,
  handle_topics, handle_db, handle_restart, handle_ui,
}
use broker_message.Admin.Topics.{
  handle_tail_ws, messages_part, offsets_part, tail_part, replay_part, purge_part, websocket,
  replay_messages, handle_replay, messages_page, purge_page, topic_part, topic_page, found_topic,
  named_topic, handle_topic_sub,
}
use broker_message.Admin.Serve.{
  Route, state_route, clients_route, topics_route, topic_route, db_route, restart_route, ui_route,
  routes, run, serve_http, past_login, admin_path,
}

-- The tokens, and whose they are.
abbrev pub tokens : {Db : Type 0} → Admin Db → Assoc Bytes ℕ × Assoc Bytes ℕ × Bytes × Bytes
tokens a = (a.sessions, a.csrf_tokens, a.admin_user, a.admin_pass)

module _ {Db : Type 0} ⦃b : Badger Db⦄ where
  replay_messages-tokens :
      (env : Env Db) (name : Bytes) (t : Topic Db) (r : Result TopicError (List Message))
      (a : Admin Db)
      → tokens (replay_messages env name t r a).0 ≡ tokens a
  unfolding replay_messages
  replay_messages-tokens env name t (ok msgs) a = refl
  replay_messages-tokens env name t (err e) a = refl

  messages_page-tokens :
      (r : Result TopicError (List Message)) (a : Admin Db)
      → tokens (messages_page r a).0 ≡ tokens a
  unfolding messages_page
  messages_page-tokens (ok msgs) a = refl
  messages_page-tokens (err e) a = refl

  purge_page-tokens :
      (name : Bytes) (p : Topic Db × Bool) (a : Admin Db)
      → tokens (purge_page name p a).0 ≡ tokens a
  unfolding purge_page
  purge_page-tokens name (t, true) a = refl
  purge_page-tokens name (t, false) a = refl

  handle_tail_ws-tokens :
      (env : Env Db) (name : Bytes) (t : Topic Db) (a : Admin Db)
      → tokens (handle_tail_ws env name t a).0 ≡ tokens a
  unfolding handle_tail_ws
  handle_tail_ws-tokens env name t a = elim (Bool-cases env.upgrades) [
    | inl e ↦ rw e refl
    | inr e ↦ rw e refl
  ]

  pub if-tokens :
      (test : Bool) (x y : Admin Db × Response) (a : Admin Db)
      → tokens x.0 ≡ tokens a
      → tokens y.0 ≡ tokens a
      → tokens (if test then x else y).0 ≡ tokens a
  if-tokens true x y a h k = h
  if-tokens false x y a h k = k

  topic_part-tokens :
      (env : Env Db) (r : Request) (name part : Bytes) (t : Topic Db) (a : Admin Db)
      → tokens (topic_part env r name part t a).0 ≡ tokens a
  unfolding topic_part handle_replay
  topic_part-tokens env r name part t a =
      if-tokens (bytes_eq part messages_part) _ _ a (messages_page-tokens _ a) (
        if-tokens (bytes_eq part offsets_part) _ _ a refl (
          if-tokens (bytes_eq part tail_part) _ _ a
            (if-tokens (bytes_eq r.upgrade websocket) _ _ a (handle_tail_ws-tokens env name t a)
              refl)
            (if-tokens (bytes_eq part replay_part && bytes_eq r.method post_method) _ _ a
              (replay_messages-tokens env name t _ a)
              (if-tokens (bytes_eq part purge_part && bytes_eq r.method post_method) _ _ a
                (purge_page-tokens name (Topic.purge t) a) refl))))

  topic_page-tokens :
      (env : Env Db) (r : Request) (name : Bytes) (parts : List Bytes) (t : Topic Db) (a : Admin Db)
      → tokens (topic_page env r name parts t a).0 ≡ tokens a
  unfolding topic_page
  topic_page-tokens env r name [] t a = refl
  topic_page-tokens env r name (part ∷ parts) t a = topic_part-tokens env r name part t a

  found_topic-tokens :
      (env : Env Db) (r : Request) (name : Bytes) (parts : List Bytes)
      (f : Registry.Registry Db × Option (Topic Db)) (a : Admin Db)
      → tokens (found_topic env r name parts f a).0 ≡ tokens a
  unfolding found_topic
  found_topic-tokens env r name parts (reg, none) a = refl
  found_topic-tokens env r name parts (reg, some t) a = topic_page-tokens env r name parts t _

  named_topic-tokens :
      (env : Env Db) (r : Request) (parts : List Bytes) (a : Admin Db)
      → tokens (named_topic env r parts a).0 ≡ tokens a
  unfolding named_topic
  named_topic-tokens env r [] a = refl
  named_topic-tokens env r (name ∷ parts) a =
      if-tokens (bytes_eq name []) _ _ a refl (found_topic-tokens env r name parts _ a)

  module _ (mux : List (Bytes × Route) → Bytes → Route ⊎ ℕ) (join : Bytes → Bytes → Bytes) where
    run-tokens :
        (env : Env Db) (r : Request) (route : Route) (a : Admin Db)
        → tokens (run mux join env r route a).0 ≡ tokens a
    unfolding run handle_state handle_clients handle_topics handle_db handle_restart handle_ui
        handle_topic_sub
    run-tokens env r state_route a = refl
    run-tokens env r clients_route a = refl
    run-tokens env r topics_route a = refl
    run-tokens env r topic_route a = named_topic-tokens env r _ a
    run-tokens env r db_route a = refl
    run-tokens env r restart_route a = refl
    run-tokens env r ui_route a = refl

    routed-tokens :
        (env : Env Db) (r : Request) (found : Route ⊎ ℕ) (a : Admin Db)
        → mux routes r.path ≡ found
        → tokens (serve_http mux join env r a).0 ≡ tokens a
    unfolding serve_http
    routed-tokens env r (inl route) a h = rw (h, serve_http) (run-tokens env r route a)
    routed-tokens env r (inr status) a h = rw (h, serve_http) refl

    pub past_login-tokens :
        (env : Env Db) (r : Request) (a : Admin Db)
        → tokens (past_login mux join env r a).0 ≡ tokens a
    unfolding past_login
    past_login-tokens env r a =
        if-tokens
          (not (bytes_eq r.method get_method)
            && (has_prefix admin_path r.path && not (valid_csrf env r a)))
          _ _ a refl (routed-tokens env r (mux routes r.path) a refl)
