-- ===== src/Tests/Access.antt =====
-- core/auth/auth.go on concrete users.
use broker_message.Base.{
  ◌≡◌, ◌↔◌, true, false, some, [], ◌∷◌, All, Bytes, lookup, bytes_key, bytes_eq,
}
use broker_message.Auth.{User, Store, match_topic, split, can_publish, authenticate}
use broker_message.Auth.Matching.{Matches, match_topic_iff, split-shape, join, NoSlash}
use broker_message.Auth.Permissions.{Granted, Fits, can_publish_iff, authenticate_iff}

abbrev filter : Bytes
filter = b'a' ∷ b'/' ∷ b'+' ∷ []

abbrev topic : Bytes
topic = b'a' ∷ b'/' ∷ b'b' ∷ []

abbrev ann : User
ann = record {
  name = b'a' ∷ [];
  password = b'p' ∷ [];
  bcrypt = [];
  publish = filter ∷ [];
  subscribe = topic ∷ [];
  admin = false;
}

abbrev users : Store
users = (b'a' ∷ [], ann) ∷ []

match_topic_iff_example : (match_topic filter topic ≡ true) ↔ Matches (split filter) (split topic)
match_topic_iff_example = match_topic_iff filter topic

split-shape_example : All NoSlash (split topic) × (join (split topic) ≡ topic)
split-shape_example = split-shape topic

can_publish_iff_example : (can_publish ann topic ≡ true) ↔ Granted false (filter ∷ []) topic
can_publish_iff_example = can_publish_iff ann topic

authenticate_iff_example :
    (authenticate bytes_eq (some users) (b'a' ∷ []) (b'p' ∷ []) ≡ (some ann, true))
    ↔ ((lookup (b'a' ∷ []) users ≡ some ann) × Fits bytes_eq ann (b'p' ∷ []))
authenticate_iff_example = authenticate_iff bytes_eq users (b'a' ∷ []) (b'p' ∷ []) ann
