-- ===== src/Tests/Topics.antt =====
-- core/topic/topic.go on a concrete topic.
use broker_message.Base.{
  ◌+◌, ◌%◌, ◌^◌, ◌≡◌, ◌≢◌, refl, false, some, [], ◌∷◌, arith, replicate, if◌then◌else◌, Bytes,
  lookup, bytes_key, nat_key, ok,
}
use broker_message.Envelope.{Envelope, nil_uuid}
use broker_message.Envelope.RoundTrip.{IsWire}
use broker_message.Storage.Memory.{MemDb, mem_badger, empty_db}
use broker_message.Topic.{Topic, Message, decode_stored_message, publish, is_subscribed}
use broker_message.Topic.Keys.{msg_key}
use broker_message.Topic.Publishing.{next_message, publish-stored}
use broker_message.Topic.Subscribers.{IsValid, IsDistinct, offered, publish-reaches}

abbrev news : Topic MemDb
news = record {
  name = b'n' ∷ [];
  seq = 41;
  subs = 0 ∷ [];
  chans = (0, record { buffer = []; closed = false }) ∷ [];
  next_chan = 1;
  db = empty_db;
  offsets = [];
}

news-IsValid : IsValid news
unfolding IsDistinct is_subscribed
news-IsValid = record { distinct = (refl, tt); given = (omega arith, tt) }

abbrev hello : Envelope
hello = record {
  idempotency_id = replicate 16 7;
  server_msg_id = nil_uuid;
  publish_ts = 12;
  user_props = [];
  payload = 1 ∷ 2 ∷ [];
}

hello_id : replicate 16 7 ≢ nil_uuid
hello_id h = cc

hello-IsWire : IsWire hello
hello-IsWire = record {
  idem_len = refl;
  server_len = refl;
  idem_set = hello_id;
  ts_fits = omega arith;
  props_fit = omega arith;
}

abbrev fresh_id : Bytes
fresh_id = replicate 16 8

abbrev message : Message
message = next_message fresh_id news hello

abbrev after : Topic MemDb
after = (publish fresh_id news hello).0

hello_published : publish fresh_id news hello ≡ (after, ok message)
unfolding publish
hello_published = refl

publish-stored_example :
    (message.seq ≡ (41 + 1) % 2 ^ 64)
    × (after.seq ≡ message.seq)
    × (lookup (msg_key message.seq) after.db.entries ≡ some message.raw_wire)
    × (decode_stored_message (b'n' ∷ []) message.raw_wire ≡ some (record message { seq = 0 }))
publish-stored_example =
    publish-stored fresh_id news after hello message hello_published hello-IsWire refl

publish-reaches_example :
    (lookup 0 after.chans ≡ (
      if is_subscribed 0 news.subs
      then offered message (lookup 0 news.chans)
      else lookup 0 news.chans))
    × IsValid after
publish-reaches_example =
    publish-reaches fresh_id news after hello message 0 news-IsValid hello_published
