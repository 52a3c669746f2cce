-- ===== src/Session.antt =====
-- core/transport/mqtt/session.go: one MQTT connection. The handlers change the session and the broker
-- behind it, and return an error that ends the session.
pub mod Deliver
pub mod Publish
pub mod Subscribe
pub mod Acks
pub mod Handle
pub mod AckLaws
pub mod Once
pub mod Accepted
pub mod Written
pub mod CatchUp
pub mod Backlog
pub mod Login
pub mod Searching
pub mod PublishReturns
pub mod SubscribeReturns
pub mod Returning
pub mod Rounds
pub mod Retransmission
pub mod Keeps
pub mod Delivery
pub mod Confinement
pub mod Subscribing
pub mod Denied
pub mod Steps
pub mod AfterPurge
use broker_message.Base.{
  ℕ, zero, suc, ◌+◌, ◌%◌, ◌^◌, Bool, true, false, Option, some, none, List, [], ◌∷◌, ◌++◌, ◌==◌,
  if◌then◌else◌, Bytes, Assoc, lookup, insert, remove, nat_key, Result, ok, err,
}
use broker_message.Exec.{Exec}
use broker_message.Auth.{User, Store}
use broker_message.Dedup
use broker_message.Registry.{Registry}
use broker_message.Server.{Sessions}

pub record InflightMsg : Type 0 where
  pub topic_name : Bytes
  pub seq : ℕ
  pub wire : Bytes
  pub qos : ℕ
  pub sent_at : ℕ
  -- `topicRef`, by the name of the topic in the registry
  pub topic_ref : Bytes

-- A goroutine that `handleSubscribe` has started: the topic, the channel that it reads, and the QoS.
pub record Reader : Type 0 where
  pub topic : Bytes
  pub chan : ℕ
  pub qos : ℕ

-- The connection: what has been written, and how the next calls of `Write` come out (all well, when
-- the list is used up).
pub record Conn : Type 0 where
  pub sent : List Bytes
  pub outcomes : List Bool

pub record Session : Type 0 where
  pub id : ℕ
  pub conn : Conn
  pub remote_addr : Bytes
  pub closed : Bool
  pub has_owner : Bool
  pub client_id : Bytes
  pub user : Option User
  pub auth_store : Option Store
  pub auth_req : Bool
  pub subs : Assoc Bytes ℕ
  pub sub_qos : Assoc Bytes ℕ
  pub inflight : Assoc ℕ InflightMsg
  pub next_pkt_id : ℕ
  pub readers : List Reader

-- The calls of the metrics that the handlers make, in their order.
pub data Outcome : Type 0 where
  good : Outcome
  denied : Outcome
  failed : Outcome
  duplicate : Outcome

pub data Metric : Type 0 where
  connections_inc : Metric
  connections_dec : Metric
  publish_total : Bytes → ℕ → Outcome → Metric
  publish_duplicates : Bytes → Metric
  dedup_cache_size : ℕ → Metric
  topic_seq : Bytes → ℕ → Metric
  inflight_inc : Metric
  inflight_dec : Metric
  deliver_total : Bytes → ℕ → Outcome → Metric
  retransmit_total : Bytes → Metric

pub record Broker (Db : Type 0) : Type 0 where
  pub registry : Registry Db
  -- `hub.Dedup`, and none where the hub or its dedup store is nil
  pub dedup : Option (Dedup.Store Db)
  pub sessions : Sessions
  pub metrics : List Metric

pub record State (Db : Type 0) : Type 0 where
  pub session : Session
  pub broker : Broker Db

-- What the outside gives in one call of a handler: the time, the UUIDs that `uuid.NewV7()` makes for
-- an idempotency key and for a message, and the databases that `badger.Open` finds.
pub record Env (Db : Type 0) : Type 0 where
  pub now : ℕ
  pub fresh_idempotency : Bytes
  pub fresh_server : Bytes
  pub open_dir : Bytes → Option Db

-- `never_returns` is no error: all 65535 packet ids are in flight, and `allocPacketID` goes on looking.
pub data SessionError : Type 0 where
  auth_failed : SessionError
  publish_denied : SessionError
  topic_failed : SessionError
  publish_failed : SessionError
  write_failed : SessionError
  disconnected : SessionError
  never_returns : SessionError

abbrev pub Handler : Type 0 → Type 0 → Type 0
Handler Db A = Exec (State Db) SessionError A

-- `newSession`
unfoldable pub new_session : ℕ → Bytes → List Bool → Bool → Option Store → Bool → Session
new_session id remote_addr outcomes has_owner auth_store auth_required = record {
  id = id;
  conn = record { sent = []; outcomes = outcomes };
  remote_addr = remote_addr;
  closed = false;
  has_owner = has_owner;
  client_id = [];
  user = none;
  auth_store = auth_store;
  auth_req = auth_required;
  subs = [];
  sub_qos = [];
  inflight = [];
  next_pkt_id = 1;
  readers = [];
}

abbrev pub close : Session → Session
close s = record s { closed = true }

module _ {Db : Type 0} where
  abbrev pub count : Metric → State Db → State Db
  count m st = record st { broker = record st.broker { metrics = st.broker.metrics ++ (m ∷ []) } }

unfoldable pub write_conn : Bytes → Conn → Conn × Bool
write_conn frame c = elim c.outcomes [
  | [] ↦ (record c { sent = c.sent ++ (frame ∷ []) }, true)
  | ◌∷◌ outcome rest ↦ (
    if outcome
        then record { sent = c.sent ++ (frame ∷ []); outcomes = rest }
        else record c { outcomes = rest },
    outcome,
  )
]

module _ {Db : Type 0} where
  -- `s.write(func() error { … })`: the frame is sent, or the call fails.
  unfoldable pub write : Bytes → State Db → State Db × Result SessionError (Unit {0})
  write frame st =
      let (c, done) = write_conn frame st.session.conn in
      (
        record st { session = record st.session { conn = c } },
        if done then ok tt else err write_failed,
      )

-- `s.nextPktID++`, which skips 0
abbrev pub next_id : ℕ → ℕ
next_id n = if (n + 1) % 2 ^ 16 == 0 then 1 else (n + 1) % 2 ^ 16

alloc_or : ℕ → Option (ℕ × ℕ) → Option InflightMsg → Option (ℕ × ℕ)
alloc_or id later none = some (id, next_id id)
alloc_or id later (some m) = later

-- The loop of `allocPacketID`: the id, and the next one to try. `none` is a loop that has tried every
-- id that its fuel allows.
unfoldable pub alloc_loop : ℕ → ℕ → Assoc ℕ InflightMsg → Option (ℕ × ℕ)
unfolding alloc_or
alloc_loop zero id inflight = none
alloc_loop (suc fuel) id inflight =
    let later = alloc_loop fuel (next_id id) inflight in alloc_or id later (lookup id inflight)

abbrev pub packet_ids : ℕ
packet_ids = 65535

unfoldable pub alloc_packet_id : Session → Option (ℕ × Session)
unfolding alloc_loop
alloc_packet_id s = elim (alloc_loop packet_ids s.next_pkt_id s.inflight) [
  | none ↦ none
  | some found ↦ some (found.0, record s { next_pkt_id = found.1 })
]
