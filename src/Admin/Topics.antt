-- ===== src/Admin/Topics.antt =====
-- core/admin/server.go: `handleTopicSub`, `handleReplay` and `handleTailWS`, the pages of one topic.
use broker_message.Base.{
  ℕ, ◌+◌, ◌-◌, ◌%◌, ◌^◌, Bool, true, false, ◌&&◌, Option, some, none, List, [], ◌∷◌, drop, ltb,
  ◌==◌, if◌then◌else◌, length, Bytes, bytes_eq, Result, ok, err,
}
use broker_message.Auth.{split}
use broker_message.Envelope.{Envelope}
use broker_message.Storage.{Badger}
use broker_message.Storage.Entries.{has_prefix}
use broker_message.Topic
use broker_message.Topic.{Topic, Message, TopicError}
use broker_message.Registry
use broker_message.Admin.{
  Env, Request, Admin, Page, json, http_error, tail, no_reply, post_method, topic, messages,
  replayed, purged,
}

abbrev pub topics_path : Bytes
topics_path = b'/' ∷ b'a' ∷ b'p' ∷ b'i' ∷ b'/' ∷ b't' ∷ b'o' ∷ b'p' ∷ b'i' ∷ b'c' ∷ b's' ∷ b'/' ∷ []

abbrev pub messages_part : Bytes
messages_part = b'm' ∷ b'e' ∷ b's' ∷ b's' ∷ b'a' ∷ b'g' ∷ b'e' ∷ b's' ∷ []

abbrev pub offsets_part : Bytes
offsets_part = b'o' ∷ b'f' ∷ b'f' ∷ b's' ∷ b'e' ∷ b't' ∷ b's' ∷ []

abbrev pub tail_part : Bytes
tail_part = b't' ∷ b'a' ∷ b'i' ∷ b'l' ∷ []

abbrev pub replay_part : Bytes
replay_part = b'r' ∷ b'e' ∷ b'p' ∷ b'l' ∷ b'a' ∷ b'y' ∷ []

abbrev pub purge_part : Bytes
purge_part = b'p' ∷ b'u' ∷ b'r' ∷ b'g' ∷ b'e' ∷ []

abbrev pub websocket : Bytes
websocket = b'w' ∷ b'e' ∷ b'b' ∷ b's' ∷ b'o' ∷ b'c' ∷ b'k' ∷ b'e' ∷ b't' ∷ []

-- `strings.TrimPrefix`
abbrev pub trim_prefix : Bytes → Bytes → Bytes
trim_prefix prefix s = if has_prefix prefix s then drop (length prefix) s else s

-- An int that is given to `GetMessages`, which returns no message for a negative one. (That it
-- allocates a slice of that many pointers first is not modelled.)
abbrev pub int_limit : ℕ → ℕ
int_limit n = if ltb n (2 ^ 63) then n else 0

-- `if limit <= 0 { limit = 50 }`
unfoldable pub limit_of : ℕ → ℕ
limit_of limit = if int_limit limit == 0 then 50 else int_limit limit

-- The envelope that a message is published in again. It has no user properties.
unfoldable pub envelope_of : Message → Envelope
envelope_of m = record {
  idempotency_id = m.idempotency_id;
  server_msg_id = m.server_msg_id;
  publish_ts = m.timestamp;
  user_props = [];
  payload = m.payload;
}

-- What is written to the web socket for a message.
abbrev pub tail_row : Message → ℕ × Bytes × Bytes × Bytes
tail_row m = (m.seq, m.topic, m.payload, m.server_msg_id)

is_ok : {A : Type 0} → Result TopicError A → Bool
is_ok (ok x) = true
is_ok (err e) = false

module _ {Db : Type 0} where
  -- A change of the topic that `t` points to.
  abbrev pub set_topic : Bytes → Topic Db → Admin Db → Admin Db
  set_topic name t a = record a {
    broker = record a.broker { registry = Registry.put_topic name t a.broker.registry };
  }

  abbrev pub set_registry : Registry.Registry Db → Admin Db → Admin Db
  set_registry reg a = record a { broker = record a.broker { registry = reg } }

module _ {Db : Type 0} ⦃b : Badger Db⦄ where
  -- The loop of `handleReplay`: the topic and the number of messages that were published.
  unfoldable pub replay_loop : (ℕ → Bytes) → List Message → Topic Db → ℕ → Topic Db × ℕ
  unfolding is_ok
  replay_loop fresh [] t done = (t, done)
  replay_loop fresh (m ∷ msgs) t done =
      let (t', r) = Topic.publish (fresh (length msgs)) t (envelope_of m) in
      replay_loop fresh msgs t' (if is_ok r then done + 1 else done)

  unfoldable pub replay_messages :
      Env Db → Bytes → Topic Db → Result TopicError (List Message) → Page Db
  replay_messages env name t (err e) a = (a, http_error 500)
  replay_messages env name t (ok msgs) a =
      let (t', done) = replay_loop env.fresh msgs t 0 in (set_topic name t' a, json (replayed done))

  unfoldable pub handle_replay : Env Db → Request → Bytes → Topic Db → Page Db
  unfolding replay_messages
  handle_replay env r name t =
      let to = if r.to == 0 then t.seq else r.to in
      replay_messages env name t
        (Topic.get_messages t r.from (int_limit ((to + 2 ^ 64 - r.from + 1) % 2 ^ 64)))

  unfoldable pub messages_page : Result TopicError (List Message) → Page Db
  messages_page (err e) a = (a, http_error 500)
  messages_page (ok msgs) a = (a, json (messages msgs))

  unfoldable pub purge_page : Bytes → Topic Db × Bool → Page Db
  purge_page name (t, false) a = (set_topic name t a, http_error 500)
  purge_page name (t, true) a = (set_topic name t a, json purged)

  tail_ended : ℕ → Bytes → Option (Topic Db) → Admin Db → Admin Db
  tail_ended chan name none a = a
  tail_ended chan name (some t) a = set_topic name (Topic.unsubscribe chan t) a

  -- The end of `handleTailWS`, when the client has gone or the channel is closed.
  unfoldable pub end_tail : ℕ → Bytes → Admin Db → Admin Db
  unfolding tail_ended
  end_tail chan name a = tail_ended chan name (Registry.get a.broker.registry name) a

  -- `handleTailWS`, up to its loop. A failed upgrade ends the subscription again.
  unfoldable pub handle_tail_ws : Env Db → Bytes → Topic Db → Page Db
  handle_tail_ws env name t a =
      let (t', chan) = Topic.subscribe t in
      if env.upgrades
      then (set_topic name t' a, tail chan)
      else (set_topic name (Topic.unsubscribe chan t') a, no_reply)

  -- The part of `handleTopicSub` behind `if len(parts) == 1`.
  unfoldable pub topic_part : Env Db → Request → Bytes → Bytes → Topic Db → Page Db
  unfolding messages_page purge_page
  topic_part env r name part t a =
      if bytes_eq part messages_part
      then messages_page (Topic.get_messages t r.from (limit_of r.limit)) a
      else if bytes_eq part offsets_part
      then (a, json (topic name t.seq))
      else if bytes_eq part tail_part
      then (if bytes_eq r.upgrade websocket
          then handle_tail_ws env name t a
          else (a, http_error 400))
      else if bytes_eq part replay_part && bytes_eq r.method post_method
      then handle_replay env r name t a
      else if bytes_eq part purge_part && bytes_eq r.method post_method
      then purge_page name (Topic.purge t) a
      else (a, http_error 404)

  unfoldable pub topic_page : Env Db → Request → Bytes → List Bytes → Topic Db → Page Db
  topic_page env r name [] t a = (a, json (topic name t.seq))
  topic_page env r name (part ∷ parts) t a = topic_part env r name part t a

  unfoldable pub found_topic :
      Env Db → Request → Bytes → List Bytes → Registry.Registry Db × Option (Topic Db) → Page Db
  found_topic env r name parts (reg, none) a = (set_registry reg a, http_error 500)
  found_topic env r name parts (reg, some t) a = topic_page env r name parts t (set_registry reg a)

  -- A topic that is not there is made, whatever is asked of it.
  unfoldable pub named_topic : Env Db → Request → List Bytes → Page Db
  unfolding found_topic
  named_topic env r [] a = (a, http_error 404)
  named_topic env r (name ∷ parts) a =
      if bytes_eq name []
      then (a, http_error 404)
      else found_topic env r name parts
          (elim (Registry.get a.broker.registry name) [
            | some t ↦ (a.broker.registry, some t)
            | none ↦ Registry.get_or_create env.open_dir name a.broker.registry
          ])
          a

  unfoldable pub handle_topic_sub : Env Db → Request → Page Db
  unfolding named_topic
  handle_topic_sub env r a = named_topic env r (split (trim_prefix topics_path r.path)) a
