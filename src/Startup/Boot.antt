-- ===== src/Startup/Boot.antt =====
-- cmd/broker/main.go up to the listeners, and the session that core/transport/mqtt/server.go makes for
-- a connection.
use broker_message.Base.{
  ℕ, Bool, true, false, ◌&&◌, Option, some, none, List, [], ◌∷◌, Bytes, Result, ok, err,
}
use broker_message.Auth
use broker_message.Dedup
use broker_message.Storage.{Badger}
use broker_message.Registry
use broker_message.Server
use broker_message.Session.{State, Broker, new_session}
use broker_message.Admin
use broker_message.Admin.{Admin}
use broker_message.Startup.{
  Config, TlsConfig, Host, StartError, meta_failed, topics_failed, load_config, load_users,
  load_server_tls,
}

-- What `NewServer` is given, beside the addresses.
pub record Mqtt (Db : Type 0) : Type 0 where
  pub broker : Broker Db
  pub auth_store : Option Auth.Store
  pub auth_required : Bool
  pub tls : Option TlsConfig

abbrev pub is_some : Option Auth.Store → Bool
is_some none = false
is_some (some users) = true

module _ {Db : Type 0} where
  -- `mqtt.NewServer(…, authStore, cfg.AuthRequired && authStore != nil, log)`
  unfoldable pub new_server : Config → Option Auth.Store → Broker Db → Option TlsConfig → Mqtt Db
  new_server cfg users broker tls = record {
    broker = broker;
    auth_store = users;
    auth_required = cfg.auth_required && is_some users;
    tls = tls;
  }

  abbrev pub new_registry : Registry.Registry Db
  new_registry = record { topics = [] }

module _ {Db : Type 0} ⦃b : Badger Db⦄ where
  -- `registry.Load()`: the topics of the directories below that of the topics.
  unfoldable pub load_topics : Host Db → Bytes → Option (Registry.Registry Db)
  load_topics host dir = elim (host.read_dir dir) [
    | none ↦ none
    | some entries ↦
        some
          (Registry.load_entries (λ name. host.open_db (host.join dir name)) entries new_registry)
  ]

  unfoldable pub with_tls :
      Host Db
      → Config
      → Db
      → Registry.Registry Db
      → Result StartError (Option TlsConfig)
      → Result StartError (Mqtt Db × Admin Db)
  with_tls host cfg meta registry (err e) = err e
  with_tls host cfg meta registry (ok tls) =
      let broker : Broker Db = record {
        registry = registry;
        dedup = some (Dedup.new (some meta) cfg.dedup_capacity cfg.dedup_ttl);
        sessions = [];
        metrics = [];
      } in
      ok (
        new_server cfg (load_users host cfg.users_file) broker tls,
        Admin.new broker (host.join (b'.' ∷ []) cfg.meta_dir) (host.join (b'.' ∷ []) cfg.topics_dir)
            cfg.dedup_ttl cfg.admin_user cfg.admin_password host.now,
      )

  unfoldable pub with_topics :
      Host Db → Config → Db → Option (Registry.Registry Db) → Result StartError (Mqtt Db × Admin Db)
  with_topics host cfg meta none = err topics_failed
  with_topics host cfg meta (some registry) =
      with_tls host cfg meta registry (load_server_tls host cfg)

  unfoldable pub with_meta : Host Db → Config → Option Db → Result StartError (Mqtt Db × Admin Db)
  with_meta host cfg none = err meta_failed
  with_meta host cfg (some meta) =
      with_topics host cfg meta (load_topics host (host.join (b'.' ∷ []) cfg.topics_dir))

  unfoldable pub with_config :
      Host Db → Result StartError Config → Result StartError (Mqtt Db × Admin Db)
  with_config host (err e) = err e
  with_config host (ok cfg) = with_meta host cfg (host.open_db (host.join (b'.' ∷ []) cfg.meta_dir))

  -- `main` up to the listeners: the MQTT server and the admin server, or the error that ends it.
  unfoldable pub start : Host Db → Bytes → Result StartError (Mqtt Db × Admin Db)
  unfolding with_tls with_topics with_meta with_config
  start host path = with_config host (load_config host path)

  -- What `serveListener` does with a connection that it accepts, before `Handle`.
  unfoldable pub accept : Mqtt Db → ℕ → Bytes → List Bool → ℕ → State Db
  accept srv id remote_addr outcomes now = record {
    session = new_session id remote_addr outcomes true srv.auth_store srv.auth_required;
    broker = record srv.broker {
      sessions =
          Server.register_session id
            (record {
              client_id = [];
              remote_addr = remote_addr;
              username = [];
              connected = now;
              topics = [];
            })
            srv.broker.sessions;
    };
  }
