-- ===== src/Tests/Startups.antt =====
-- cmd/broker/main.go without a users' file, where none can be written.
use broker_message.Base.{
  ◌≡◌, refl, true, false, ◌&&◌, none, some, [], ◌∷◌, ◌++◌, if◌then◌else◌, bytes_eq, ok, err,
}
use broker_message.Dedup
use broker_message.Storage.Memory.{MemDb, mem_badger, empty_db}
use broker_message.Registry
use broker_message.Admin
use broker_message.Admin.{Admin}
use broker_message.Session.{Broker, auth_failed}
use broker_message.Session.Handle.{handle_connect}
use broker_message.Startup.{
  Host, no_file, default_config, load_config, load_users, users_seen, load_server_tls,
}
use broker_message.Startup.Boot.{Mqtt, load_topics, new_server, start, accept}
use broker_message.Startup.Access.{users_refuse, handle_connect-start}
use broker_message.Tests.Logins.{login}

abbrev host : Host MemDb
host = record {
  file = λ path. no_file;
  parse_config = λ raw cfg. none;
  parse_users = λ raw. none;
  key_pair = λ cert key. true;
  certs = λ pem. true;
  open_db = λ dir. some empty_db;
  read_dir = λ dir. some [];
  join = λ dir name. dir ++ (b'/' ∷ name);
  writes = false;
  now = 1;
}

abbrev broker : Broker MemDb
broker = record {
  registry = record { topics = [] };
  dedup = some (Dedup.new (some empty_db) default_config.dedup_capacity default_config.dedup_ttl);
  sessions = [];
  metrics = [];
}

abbrev server : Mqtt MemDb
server = new_server default_config none broker none

abbrev admin : Admin MemDb
admin =
    Admin.new broker (host.join (b'.' ∷ []) default_config.meta_dir)
      (host.join (b'.' ∷ []) default_config.topics_dir) default_config.dedup_ttl
      default_config.admin_user default_config.admin_password 1

config_loaded : load_config host [] ≡ ok default_config
unfolding load_config bytes_eq
config_loaded = refl

host_started : start host [] ≡ ok (server, admin)
unfolding start load_config bytes_eq load_server_tls load_topics load_users users_seen
    default_config Registry.load_entries
host_started = refl

handle_connect-start_example : (handle_connect bytes_eq login (accept server 1 [] [] 2)).1 ≡ (
    if default_config.auth_required
      && users_refuse bytes_eq login (load_users host default_config.users_file)
    then err auth_failed
    else ok tt)
handle_connect-start_example =
    handle_connect-start host [] default_config server admin bytes_eq login 1 2 [] config_loaded
      host_started
