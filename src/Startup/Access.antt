-- ===== src/Startup/Access.antt =====
-- cmd/broker/main.go and core/transport/mqtt: whom a broker that has started lets in.
use broker_message.Base.{
  ℕ, ◌≡◌, refl, sym, ap, Bool, true, false, not, ◌&&◌, Option, some, none, [], if◌then◌else◌, Bytes,
  bytes_key, Result, ok, err, ok-injective,
}
use broker_message.Auth
use broker_message.Auth.{User, authenticate}
use broker_message.Storage.{Badger}
use broker_message.Registry
use broker_message.Admin.{Admin}
use broker_message.Packet.{ConnectPacket}
use broker_message.Session.{State, Broker, auth_failed, new_session, write, write_conn}
use broker_message.Session.Handle.{handle_connect, log_in, logged_in, announce}
use broker_message.Startup.{Config, Host, StartError, TlsConfig, load_config, load_users}
use broker_message.Startup.Boot.{
  Mqtt, is_some, new_server, with_tls, with_topics, with_meta, with_config, start, accept,
}

-- Whether the users of a file refuse a login. Without a file they refuse none.
abbrev pub users_refuse : (Bytes → Bytes → Bool) → ConnectPacket → Option Auth.Store → Bool
users_refuse bcrypt_ok cp none = false
users_refuse bcrypt_ok cp (some users) =
    not (authenticate bcrypt_ok (some users) cp.username cp.password).1

module _ {Db : Type 0} ⦃b : Badger Db⦄ where
  -- The user store and the switch of a server that has come up.
  abbrev SetUp : Host Db → Config → Mqtt Db → Type 0
  SetUp host cfg srv =
      (srv.auth_store ≡ load_users host cfg.users_file)
      × (srv.auth_required ≡ (cfg.auth_required && is_some (load_users host cfg.users_file)))

  with_tls-SetUp :
      (host : Host Db) (cfg : Config) (meta : Db) (reg : Registry.Registry Db)
      (tls : Result StartError (Option TlsConfig)) (srv : Mqtt Db) (adm : Admin Db)
      → with_tls host cfg meta reg tls ≡ ok (srv, adm)
      → SetUp host cfg srv
  unfolding with_tls new_server
  with_tls-SetUp host cfg meta reg (err e) srv adm h = cc
  with_tls-SetUp host cfg meta reg (ok tls) srv adm h =
      let same = ap (λ (x : Mqtt Db × Admin Db). x.0) (sym (ok-injective _ _ h)) in
      (ap (λ (x : Mqtt Db). x.auth_store) same, ap (λ (x : Mqtt Db). x.auth_required) same)

  with_topics-SetUp :
      (host : Host Db) (cfg : Config) (meta : Db) (o : Option (Registry.Registry Db))
      (srv : Mqtt Db) (adm : Admin Db)
      → with_topics host cfg meta o ≡ ok (srv, adm)
      → SetUp host cfg srv
  unfolding with_topics
  with_topics-SetUp host cfg meta none srv adm h = cc
  with_topics-SetUp host cfg meta (some reg) srv adm h =
      with_tls-SetUp host cfg meta reg _ srv adm h

  with_meta-SetUp :
      (host : Host Db) (cfg : Config) (o : Option Db) (srv : Mqtt Db) (adm : Admin Db)
      → with_meta host cfg o ≡ ok (srv, adm)
      → SetUp host cfg srv
  unfolding with_meta
  with_meta-SetUp host cfg none srv adm h = cc
  with_meta-SetUp host cfg (some meta) srv adm h = with_topics-SetUp host cfg meta _ srv adm h

  start-SetUp :
      (host : Host Db) (path : Bytes) (cfg : Config) (srv : Mqtt Db) (adm : Admin Db)
      → load_config host path ≡ ok cfg
      → start host path ≡ ok (srv, adm)
      → SetUp host cfg srv
  unfolding start with_config
  start-SetUp host path cfg srv adm c h = with_meta-SetUp host cfg _ srv adm (rw c at h)

  abbrev fresh_state : Option Auth.Store → Bool → ℕ → Bytes → Broker Db → State Db
  fresh_state store req id remote br = record {
    session = new_session id remote [] true store req;
    broker = br;
  }

  login-checked :
      (bcrypt_ok : Bytes → Bytes → Bool) (cp : ConnectPacket) (users : Auth.Store) (id : ℕ)
      (remote : Bytes) (br : Broker Db) (p : Option User × Bool)
      → authenticate bcrypt_ok (some users) cp.username cp.password ≡ p
      → (handle_connect bcrypt_ok cp (fresh_state (some users) true id remote br)).1
        ≡ (if not p.1 then err auth_failed else ok tt)
  unfolding handle_connect log_in logged_in write write_conn new_session announce
  login-checked bcrypt_ok cp users id remote br (u, true) h = rw h refl
  login-checked bcrypt_ok cp users id remote br (u, false) h = rw h refl

  -- A CONNECT on a new connection that takes every frame.
  login-result :
      (bcrypt_ok : Bytes → Bytes → Bool) (cp : ConnectPacket) (store : Option Auth.Store)
      (req : Bool) (id : ℕ) (remote : Bytes) (br : Broker Db)
      → (handle_connect bcrypt_ok cp (fresh_state store (req && is_some store) id remote br)).1
        ≡ (if req && users_refuse bcrypt_ok cp store then err auth_failed else ok tt)
  unfolding handle_connect log_in logged_in write write_conn new_session announce
  login-result bcrypt_ok cp none true id remote br = refl
  login-result bcrypt_ok cp none false id remote br = refl
  login-result bcrypt_ok cp (some users) false id remote br = refl
  login-result bcrypt_ok cp (some users) true id remote br =
      login-checked bcrypt_ok cp users id remote br _ refl

  -- A broker that has come up with a configuration refuses a CONNECT, on a connection that takes every
  -- frame, exactly if the configuration requires a login and the users' file refuses this one. Where
  -- that file cannot be read or parsed, every CONNECT is accepted, whatever the configuration requires.
  pub handle_connect-start :
      (host : Host Db) (path : Bytes) (cfg : Config) (srv : Mqtt Db) (adm : Admin Db)
      (bcrypt_ok : Bytes → Bytes → Bool) (cp : ConnectPacket) (id now : ℕ) (remote : Bytes)
      → load_config host path ≡ ok cfg
      → start host path ≡ ok (srv, adm)
      → (handle_connect bcrypt_ok cp (accept srv id remote [] now)).1 ≡ (
          if cfg.auth_required && users_refuse bcrypt_ok cp (load_users host cfg.users_file)
          then err auth_failed
          else ok tt)
  unfolding accept
  handle_connect-start host path cfg srv adm bcrypt_ok cp id now remote c h =
      let (store, req) = start-SetUp host path cfg srv adm c h in
      let users = load_users host cfg.users_file in
      rw (store, req) (login-result bcrypt_ok cp users cfg.auth_required id remote _)
