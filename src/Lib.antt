-- ===== src/Lib.antt =====
-- A message broker with an MQTT 3.1.1 front (core/) and its Go client (sdk/go/brokermq): a model of
-- what its functions do, with theorems about it.
--
-- A client connects by TCP. core/transport/mqtt/packet.go turns the bytes into packets, and
-- core/transport/mqtt/session.go handles them. A PUBLISH carries an envelope
-- (core/envelope/envelope.go) with an idempotency key. The session asks the dedup store
-- (core/dedup/dedup.go) whether the key was seen, and else publishes to a topic
-- (core/topic/topic.go), which stores the message in its Badger database (core/storage/badger.go)
-- and offers it to the channels of its subscribers. A SUBSCRIBE makes such a channel. Messages are
-- delivered from the client's offset on (core/offsets/offsets.go), which moves when a message is
-- sent at QoS 0 or acknowledged at QoS 1. The registry and the table of sessions are in
-- core/transport/mqtt/server.go, users and their topic patterns in core/auth/auth.go. Administrators
-- see and change the topics by HTTP (core/admin/server.go).
--
--   Base        lists, bytes, bits, maps, results, and the lemmas that the parts share
--   Exec        handlers that change a state and may return an error
--   Packet      packet.go: Read (ReadPacket and the parsers), Write (the Write functions), and the
--               proofs: Length, Strings, Publish, Framing, Subscribe, Total
--   Envelope    envelope.go: Encode, Decode, TryDecode; proofs: RoundTrip, Canonical
--   Auth        auth.go: Authenticate, matchTopic, CanPublish, CanSubscribe; proofs: Matching,
--               Permissions
--   Storage     storage/badger.go over an interface Badger; Entries has what a database holds,
--               Prefixes what an iterator meets, Memory a database in memory that meets the interface
--   Offsets     offsets.go; proof: Restart
--   Topic       topic.go; Keys has the keys of messages; proofs: KeyOrder, Publishing,
--               Subscribers, and Log, Refinement, Purging, Restart, which show a topic as a list of
--               messages
--   Dedup       dedup.go; proofs: Window (the sweep and the trimming), Duplicates
--   Registry    server.go, Registry; proof: Loading
--   Server      server.go, the table of sessions
--   Session     session.go: Deliver (deliverMessage and the goroutine of a subscription), Publish
--               (handlePublish), Subscribe (handleSubscribe, handleUnsubscribe, cleanupSubs), Acks
--               (handlePubAck, retransmitLoop), Handle (handleConnect, dispatch, Handle), Steps
--               (the steps of one connection); proofs: AckLaws, Once, Accepted, Written,
--               CatchUp and Backlog (what a new subscriber gets), Login, Rounds (the loop of Handle),
--               Searching, PublishReturns, SubscribeReturns, Returning (which handlers return),
--               AfterPurge, Retransmission, and Keeps, Delivery, Confinement, Subscribing, Denied,
--               which show what each handler leaves as it is
--   System      several connections that take turns over one broker
--   Client      sdk/go/brokermq: the packets of client.go and the cache of dedup.go; Connection
--               (options.go, and the calls of client.go that read and write); proofs: Interop,
--               Frames, Once, and against the broker Admission, Inbound, Outbound
--   Admin       core/admin/server.go: its state, the login and the pages that read; Topics (the pages
--               of one topic), Serve (routes and serve); proofs: Tokens, Access, Lockout
--   Caches      tasks/task_4/internal: cache, db and metrics over interfaces of Redis and SQLite;
--               Strategies (store: CacheAside, WriteThrough, WriteBack); proofs: Coherence, Writing,
--               Flushing
--   Orders      tasks/task_2/internal over an interface of PostgreSQL: Store (service/store.go),
--               Handlers (handlers/handlers.go); proof: Placing
--   Startup     core/config/config.go, core/security/tls.go and what core/auth/auth.go reads; Boot
--               (cmd/broker/main.go and the connections that server.go accepts); proof: Access
--   Tests       the theorems at concrete inputs
--
-- Numbers are natural numbers; a uint16 or uint64 that can wrap has its `%` written out. A byte is a
-- number below 256, a string its bytes, a UUID its 16 bytes, a time its nanoseconds since 1970. The
-- clock, `uuid.NewV7`, bcrypt and `badger.Open` are arguments. A map is an association list, so the
-- order in which Go ranges over one is that list's.
--
-- Badger is a library outside the repository. Storage.Badger is its interface: what is committed, the
-- transactions of one operation, which may fail, and the iterator, with what Badger documents of
-- them as laws. So are Redis and SQLite in Caches, and PostgreSQL in Orders, where float64 is a type
-- with the operations that the code uses. Admin.Serve takes http.ServeMux as an argument.
--
-- A method that holds a lock is one step. Where the broker runs goroutines, the model has what one
-- of them does with one message or one tick. A handler is one step of its connection, and the steps
-- of several connections come in any order (System). A connection is the list of frames that have
-- been written and how the next writes come out.
--
-- Fuel: the loops of the parsers get the length of the body and one round more (Packet.Total);
-- `encodeRemainingLength` gets nine rounds, enough for an int; `allocPacketID` gets one round for each
-- of the 65535 ids (Session.AckLaws), and a search that finds them all in flight is the error
-- never_returns, with which `Handle` stands still and neither ends nor cleans up; the loop of `Handle`
-- gets the number of bytes to come and one round more (Session.Rounds); `BatchSet` gets one round for each pair (Caches.Flushing).
--
-- Not modelled: listeners, the YAML parser, logs, the counters of core/metrics (the session records
-- which it calls), the examples (example), the Python client, and the
-- benchmarks of tasks/task_3 and tasks/task_4/cmd.
pub mod Base
pub mod Packet
pub mod Envelope
pub mod Orders
pub mod Auth
pub mod Storage
pub mod Offsets
pub mod Topic
pub mod Dedup
pub mod Exec
pub mod Registry
pub mod Server
pub mod Session
pub mod System
pub mod Client
pub mod Admin
pub mod Startup
pub mod Caches
pub mod Tests
