-- ===== src/Startup.antt =====
-- What the broker reads when it comes up: core/config/config.go, core/security/tls.go, `Load` and
-- `WriteDefaultDev` of core/auth/auth.go. Boot puts it together. The files, the YAML parser, the
-- certificates and `badger.Open` are arguments.
pub mod Boot
pub mod Access
use broker_message.Base.{
  ℕ, Bool, true, false, ◌&&◌, ◌||◌, Option, some, none, List, [], ◌∷◌, not, if◌then◌else◌, Bytes,
  bytes_eq, bytes_key, insert, nat_key, Result, ok, err,
}
use broker_message.Auth
use broker_message.Auth.{User}
use broker_message.Dedup
use broker_message.Storage.{Badger}
use broker_message.Registry
use broker_message.Registry.{DirEntry}
use broker_message.Server
use broker_message.Session.{Session, State, Broker, new_session}
use broker_message.Admin
use broker_message.Admin.{Admin}

-- What `os.ReadFile` returns.
pub data File : Type 0 where
  contents : Bytes → File
  no_file : File
  unreadable : File

pub record Config : Type 0 where
  pub mqtt_addr : Bytes
  pub mqtt_tls_addr : Bytes
  pub metrics_addr : Bytes
  pub admin_addr : Bytes
  pub topics_dir : Bytes
  pub meta_dir : Bytes
  pub users_file : Bytes
  pub tls_cert : Bytes
  pub tls_key : Bytes
  pub tls_ca : Bytes
  pub dedup_capacity : ℕ
  pub dedup_ttl : ℕ
  pub admin_user : Bytes
  pub admin_password : Bytes
  pub auth_required : Bool

unfoldable pub default_config : Config
default_config = record {
  mqtt_addr = b':' ∷ b'1' ∷ b'8' ∷ b'8' ∷ b'3' ∷ [];
  mqtt_tls_addr = b':' ∷ b'8' ∷ b'8' ∷ b'8' ∷ b'3' ∷ [];
  metrics_addr = b':' ∷ b'9' ∷ b'0' ∷ b'9' ∷ b'0' ∷ [];
  admin_addr = b':' ∷ b'8' ∷ b'0' ∷ b'8' ∷ b'0' ∷ [];
  topics_dir =
      b's' ∷ b't' ∷ b'o' ∷ b'r' ∷ b'a' ∷ b'g' ∷ b'e' ∷ b'/' ∷ b't' ∷ b'o' ∷ b'p' ∷ b'i' ∷ b'c'
      ∷ b's' ∷ [];
  meta_dir = b's' ∷ b't' ∷ b'o' ∷ b'r' ∷ b'a' ∷ b'g' ∷ b'e' ∷ b'/' ∷ b'm' ∷ b'e' ∷ b't' ∷ b'a' ∷ [];
  users_file =
      b'c' ∷ b'o' ∷ b'n' ∷ b'f' ∷ b'i' ∷ b'g' ∷ b'/' ∷ b'u' ∷ b's' ∷ b'e' ∷ b'r' ∷ b's' ∷ b'.'
      ∷ b'y' ∷ b'a' ∷ b'm' ∷ b'l' ∷ [];
  tls_cert = [];
  tls_key = [];
  tls_ca = [];
  dedup_capacity = 100_000;
  dedup_ttl = 600_000_000_000;
  admin_user = b'a' ∷ b'd' ∷ b'm' ∷ b'i' ∷ b'n' ∷ [];
  admin_password = b'a' ∷ b'd' ∷ b'm' ∷ b'i' ∷ b'n' ∷ [];
  auth_required = true;
}

-- The users' file for the development that `auth.WriteDefaultDev` writes, and its name.
abbrev pub dev_users : Bytes
dev_users =
    b'u' ∷ b's' ∷ b'e' ∷ b'r' ∷ b's' ∷ 0x3a ∷ 0xa ∷ 0x20 ∷ 0x20 ∷ 0x2d ∷ 0x20 ∷ b'n' ∷ b'a' ∷ b'm'
    ∷ b'e' ∷ 0x3a ∷ 0x20 ∷ b'a' ∷ b'd' ∷ b'm' ∷ b'i' ∷ b'n' ∷ 0xa ∷ 0x20 ∷ 0x20 ∷ 0x20 ∷ 0x20 ∷ b'p'
    ∷ b'a' ∷ b's' ∷ b's' ∷ b'w' ∷ b'o' ∷ b'r' ∷ b'd' ∷ 0x3a ∷ 0x20 ∷ b'a' ∷ b'd' ∷ b'm' ∷ b'i'
    ∷ b'n' ∷ 0xa ∷ 0x20 ∷ 0x20 ∷ 0x20 ∷ 0x20 ∷ b'a' ∷ b'd' ∷ b'm' ∷ b'i' ∷ b'n' ∷ 0x3a ∷ 0x20 ∷ b't'
    ∷ b'r' ∷ b'u' ∷ b'e' ∷ 0xa ∷ 0x20 ∷ 0x20 ∷ 0x20 ∷ 0x20 ∷ b'p' ∷ b'u' ∷ b'b' ∷ b'l' ∷ b'i' ∷ b's'
    ∷ b'h' ∷ 0x3a ∷ 0x20 ∷ 0x5b ∷ 0x22 ∷ 0x23 ∷ 0x22 ∷ 0x5d ∷ 0xa ∷ 0x20 ∷ 0x20 ∷ 0x20 ∷ 0x20 ∷ b's'
    ∷ b'u' ∷ b'b' ∷ b's' ∷ b'c' ∷ b'r' ∷ b'i' ∷ b'b' ∷ b'e' ∷ 0x3a ∷ 0x20 ∷ 0x5b ∷ 0x22 ∷ 0x23
    ∷ 0x22 ∷ 0x5d ∷ 0xa ∷ 0x20 ∷ 0x20 ∷ 0x2d ∷ 0x20 ∷ b'n' ∷ b'a' ∷ b'm' ∷ b'e' ∷ 0x3a ∷ 0x20 ∷ b'p'
    ∷ b'u' ∷ b'b' ∷ 0xa ∷ 0x20 ∷ 0x20 ∷ 0x20 ∷ 0x20 ∷ b'p' ∷ b'a' ∷ b's' ∷ b's' ∷ b'w' ∷ b'o' ∷ b'r'
    ∷ b'd' ∷ 0x3a ∷ 0x20 ∷ b'p' ∷ b'u' ∷ b'b' ∷ 0xa ∷ 0x20 ∷ 0x20 ∷ 0x20 ∷ 0x20 ∷ b'p' ∷ b'u' ∷ b'b'
    ∷ b'l' ∷ b'i' ∷ b's' ∷ b'h' ∷ 0x3a ∷ 0x20 ∷ 0x5b ∷ 0x22 ∷ b'd' ∷ b'e' ∷ b'm' ∷ b'o' ∷ 0x2f
    ∷ 0x23 ∷ 0x22 ∷ 0x5d ∷ 0xa ∷ 0x20 ∷ 0x20 ∷ 0x20 ∷ 0x20 ∷ b's' ∷ b'u' ∷ b'b' ∷ b's' ∷ b'c' ∷ b'r'
    ∷ b'i' ∷ b'b' ∷ b'e' ∷ 0x3a ∷ 0x20 ∷ 0x5b ∷ 0x5d ∷ 0xa ∷ 0x20 ∷ 0x20 ∷ 0x2d ∷ 0x20 ∷ b'n' ∷ b'a'
    ∷ b'm' ∷ b'e' ∷ 0x3a ∷ 0x20 ∷ b's' ∷ b'u' ∷ b'b' ∷ 0xa ∷ 0x20 ∷ 0x20 ∷ 0x20 ∷ 0x20 ∷ b'p' ∷ b'a'
    ∷ b's' ∷ b's' ∷ b'w' ∷ b'o' ∷ b'r' ∷ b'd' ∷ 0x3a ∷ 0x20 ∷ b's' ∷ b'u' ∷ b'b' ∷ 0xa ∷ 0x20 ∷ 0x20
    ∷ 0x20 ∷ 0x20 ∷ b'p' ∷ b'u' ∷ b'b' ∷ b'l' ∷ b'i' ∷ b's' ∷ b'h' ∷ 0x3a ∷ 0x20 ∷ 0x5b ∷ 0x5d ∷ 0xa
    ∷ 0x20 ∷ 0x20 ∷ 0x20 ∷ 0x20 ∷ b's' ∷ b'u' ∷ b'b' ∷ b's' ∷ b'c' ∷ b'r' ∷ b'i' ∷ b'b' ∷ b'e'
    ∷ 0x3a ∷ 0x20 ∷ 0x5b ∷ 0x22 ∷ b'd' ∷ b'e' ∷ b'm' ∷ b'o' ∷ 0x2f ∷ 0x23 ∷ 0x22 ∷ 0x5d ∷ 0xa ∷ []

abbrev pub dev_users_file : Bytes
dev_users_file =
    b'c' ∷ b'o' ∷ b'n' ∷ b'f' ∷ b'i' ∷ b'g' ∷ b'/' ∷ b'u' ∷ b's' ∷ b'e' ∷ b'r' ∷ b's' ∷ b'.' ∷ b'y'
    ∷ b'a' ∷ b'm' ∷ b'l' ∷ []

-- A TLS configuration; `ca` is what client certificates are verified against.
pub record TlsConfig : Type 0 where
  pub cert : Bytes
  pub key : Bytes
  pub ca : Option Bytes

-- What the broker finds when it starts, before it has written any file. `parse_config raw cfg` is
-- what `yaml.Unmarshal` makes of `cfg`, `parse_users` the users of a file or none for an error,
-- `key_pair` whether `tls.LoadX509KeyPair` succeeds, `certs` whether `AppendCertsFromPEM` finds a
-- certificate, `open_db` what `badger.Open` returns for a directory, `read_dir` the entries of a
-- directory or none for an error other than that it is not there, `join` is `filepath.Join`, and
-- `writes` whether a file can be written.
pub record Host (Db : Type 0) : Type 0 where
  pub file : Bytes → File
  pub parse_config : Bytes → Config → Option Config
  pub parse_users : Bytes → Option (List User)
  pub key_pair : Bytes → Bytes → Bool
  pub certs : Bytes → Bool
  pub open_db : Bytes → Option Db
  pub read_dir : Bytes → Option (List DirEntry)
  pub join : Bytes → Bytes → Bytes
  pub writes : Bool
  pub now : ℕ

pub data StartError : Type 0 where
  config_failed : StartError
  meta_failed : StartError
  topics_failed : StartError
  tls_failed : StartError

dev_file : Bool → File → File
dev_file writes no_file = if writes then contents dev_users else no_file
dev_file writes unreadable = unreadable
dev_file writes (contents raw) = contents raw

module _ {Db : Type 0} where
  parsed_config : Host Db → File → Result StartError Config
  parsed_config host (contents raw) = elim (host.parse_config raw default_config) [
    | some cfg ↦ ok cfg
    | none ↦ err config_failed
  ]
  parsed_config host no_file = ok default_config
  parsed_config host unreadable = err config_failed

  -- `config.Load`
  unfoldable pub load_config : Host Db → Bytes → Result StartError Config
  unfolding parsed_config
  load_config host path =
      if bytes_eq path [] then ok default_config else parsed_config host (host.file path)

  -- `auth.WriteDefaultDev("config")`, which comes first: a file of that name is there afterwards.
  unfoldable pub users_seen : Host Db → Bytes → File
  unfolding dev_file
  users_seen host path =
      if bytes_eq path dev_users_file then dev_file host.writes (host.file path) else host.file path

  parsed_users : Host Db → File → Option Auth.Store
  parsed_users host (contents raw) = elim (host.parse_users raw) [
    | some us ↦ some (Auth.load_users us [])
    | none ↦ none
  ]
  parsed_users host no_file = none
  parsed_users host unreadable = none

  -- `auth.Load`, and none where it returns an error: the broker goes on with a nil store.
  unfoldable pub load_users : Host Db → Bytes → Option Auth.Store
  unfolding parsed_users
  load_users host path = parsed_users host (users_seen host path)

  with_ca : Host Db → Bytes → Bytes → File → Result StartError (Option TlsConfig)
  with_ca host cert key (contents pem) =
      if host.certs pem
      then ok (some (record { cert = cert; key = key; ca = some pem }))
      else ok none
  with_ca host cert key no_file = err tls_failed
  with_ca host cert key unreadable = err tls_failed

  -- `security.LoadServerTLS`. For a file of CA certificates without one it returns `nil, err`, where
  -- `err` is nil.
  unfoldable pub load_server_tls : Host Db → Config → Result StartError (Option TlsConfig)
  unfolding with_ca
  load_server_tls host cfg =
      if bytes_eq cfg.tls_cert [] || bytes_eq cfg.tls_key []
      then ok none
      else if not (host.key_pair cfg.tls_cert cfg.tls_key)
      then err tls_failed
      else if bytes_eq cfg.tls_ca []
      then ok (some (record { cert = cfg.tls_cert; key = cfg.tls_key; ca = none }))
      else with_ca host cfg.tls_cert cfg.tls_key (host.file cfg.tls_ca)
