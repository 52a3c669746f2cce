-- ===== src/Server.antt =====
-- core/transport/mqtt/server.go, `Server`: what it knows of the sessions. A `*session` is a number.
use broker_message.Base.{
  ℕ, Option, some, none, List, [], ◌∷◌, map, if◌then◌else◌, length, Bytes, bytes_eq, Assoc, lookup,
  insert, remove, nat_key,
}

pub record SessionInfo : Type 0 where
  pub client_id : Bytes
  pub remote_addr : Bytes
  pub username : Bytes
  pub connected : ℕ
  pub topics : List Bytes

abbrev pub Sessions : Type 0
Sessions = Assoc ℕ SessionInfo

abbrev pub register_session : ℕ → SessionInfo → Sessions → Sessions
register_session = insert

-- `info, ok := s.sessions[sess]; if !ok { return }; …; s.sessions[sess] = info`
change_info : ℕ → (SessionInfo → SessionInfo) → Option SessionInfo → Sessions → Sessions
change_info sess change none sessions = sessions
change_info sess change (some info) sessions = insert sess (change info) sessions

unfoldable pub update_session_identity : ℕ → Bytes → Bytes → Sessions → Sessions
unfolding change_info
update_session_identity sess client_id username sessions =
    change_info sess (λ info. record info { client_id = client_id; username = username })
      (lookup sess sessions) sessions

unfoldable pub update_session_topics : ℕ → List Bytes → Sessions → Sessions
unfolding change_info
update_session_topics sess topics sessions =
    change_info sess (λ info. record info { topics = topics }) (lookup sess sessions) sessions

abbrev pub unregister_session : ℕ → Sessions → Sessions
unregister_session = remove

abbrev pub list_sessions : Sessions → List SessionInfo
list_sessions = map (λ e. e.1)

-- The sessions that `KickClient` closes; it returns their number.
unfoldable pub kicked : Bytes → Sessions → List ℕ
kicked client_id [] = []
kicked client_id ((sess, info) ∷ sessions) =
    let rest = kicked client_id sessions in
    if bytes_eq info.client_id client_id then sess ∷ rest else rest

abbrev pub kick_client : Bytes → Sessions → List ℕ × ℕ
kick_client client_id sessions = let ids = kicked client_id sessions in (ids, length ids)

-- The sessions that `Shutdown` closes; it waits until their connections have ended.
abbrev pub shutdown : Sessions → List ℕ
shutdown = map (λ e. e.0)
