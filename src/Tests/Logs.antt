-- ===== src/Tests/Logs.antt =====
-- core/topic/topic.go: a message that is published, read, and purged.
use broker_message.Base.{◌≡◌, ◌≢◌, refl, true, [], ◌∷◌, arith, replicate, take, Bytes, bytes_eq, ok}
use broker_message.Envelope.{Envelope, nil_uuid}
use broker_message.Envelope.RoundTrip.{IsWire}
use broker_message.Storage.{scan_loop}
use broker_message.Storage.Memory.{MemDb, mem_badger, empty_db}
use broker_message.Storage.Entries.{put, within, has_prefix, bytes_lt}
use broker_message.Topic.{Topic, Message, publish, purge, get_messages, delete_keys, collect_key}
use broker_message.Topic.Keys.{msg_key, hex, hex_digit}
use broker_message.Topic.Publishing.{next_message}
use broker_message.Topic.Log.{from_seq}
use broker_message.Topic.Refinement.{Refines, publish-Refines, get_messages-Refines}
use broker_message.Topic.Purging.{purge-Refines}

abbrev news : Topic MemDb
news = record {
  name = b'n' ∷ [];
  seq = 0;
  subs = [];
  chans = [];
  next_chan = 0;
  db = empty_db;
  offsets = [];
}

news-Refines : Refines news []
unfolding within
news-Refines = record { held = refl; read_back = tt; up_to = tt }

abbrev hello : Envelope
hello = record {
  idempotency_id = replicate 16 7;
  server_msg_id = nil_uuid;
  publish_ts = 12;
  user_props = [];
  payload = 1 ∷ 2 ∷ [];
}

hello_id : replicate 16 7 ≢ nil_uuid
hello_id h = cc

hello-IsWire : IsWire hello
hello-IsWire = record {
  idem_len = refl;
  server_len = refl;
  idem_set = hello_id;
  ts_fits = omega arith;
  props_fit = omega arith;
}

abbrev fresh_id : Bytes
fresh_id = replicate 16 8

abbrev message : Message
message = next_message fresh_id news hello

abbrev after : Topic MemDb
after = (publish fresh_id news hello).0

hello_published : publish fresh_id news hello ≡ (after, ok message)
unfolding publish
hello_published = refl

publish-Refines_example : Refines after (message ∷ [])
publish-Refines_example =
    publish-Refines fresh_id news after hello message [] hello_published news-Refines hello-IsWire
      refl (omega arith)

after-Refines : Refines after (message ∷ [])
after-Refines =
    publish-Refines fresh_id news after hello message [] hello_published news-Refines hello-IsWire
      refl (omega arith)

get_messages-Refines_example : get_messages after 1 5 ≡ ok (take 5 (from_seq 1 (message ∷ [])))
unfolding within has_prefix bytes_lt msg_key hex hex_digit publish put bytes_eq
get_messages-Refines_example =
    get_messages-Refines after (message ∷ []) 1 5 after-Refines (omega arith) (λ h. cc, tt)

abbrev purged : Topic MemDb
purged = (purge after).0

purge_done : purge after ≡ (purged, true)
unfolding purge delete_keys scan_loop collect_key within has_prefix bytes_lt msg_key hex hex_digit
    publish put bytes_eq
purge_done = refl

purge-Refines_example : Refines purged []
unfolding within publish put bytes_eq msg_key bytes_lt has_prefix hex
purge-Refines_example =
    purge-Refines after purged (message ∷ []) purge_done after-Refines (λ h. cc, tt)
