-- ===== src/Registry/Loading.antt =====
-- core/transport/mqtt/server.go, `Load`: which topics the broker has after a restart.
use broker_message.Base.{
  ◌≡◌, ◌≢◌, refl, sym, ◌∙◌, Option, some, none, List, [], ◌∷◌, if◌then◌else◌, Bool-cases, inl, inr,
  Bytes, bytes_eq, bytes_eq_iff, bytes_key, lookup, lookup-insert, Result, ok, err,
}
use broker_message.Storage.{Badger}
use broker_message.Topic
use broker_message.Topic.{Topic, TopicError}
use broker_message.Registry.{Registry, DirEntry, get, add_loaded, keep_loaded, load_entries}

unfoldable pub or_else {ℓ} : {A : Type ℓ} → Option A → Option A → Option A
or_else none o = o
or_else (some a) o = some a

or_else-none {ℓ} : {A : Type ℓ} (o : Option A) → or_else o none ≡ o
unfolding or_else
or_else-none none = refl
or_else-none (some a) = refl

or_else_assoc {ℓ} :
    {A : Type ℓ} (o p q : Option A) → or_else (or_else o p) q ≡ or_else o (or_else p q)
unfolding or_else
or_else_assoc none p q = refl
or_else_assoc (some a) p q = refl

module _ {Db : Type 0} where
  -- What was loaded from a directory, if it is the topic with this name.
  unfoldable pub if_named : Bytes → Result TopicError (Topic Db) → Option (Topic Db)
  if_named name (err e) = none
  if_named name (ok t) = if bytes_eq t.name name then some t else none

  add_loaded-get :
      (name : Bytes) (t : Topic Db) (o : Option (Topic Db)) (r : Registry Db)
      → lookup t.name r.topics ≡ o
      → get (add_loaded t o r) name ≡ or_else (get r name) (if_named name (ok t))
  unfolding add_loaded or_else if_named
  add_loaded-get name t (some other) r h = elim (Bool-cases (bytes_eq t.name name)) [
    | inl same ↦ rw (same, ← (bytes_eq_iff t.name name).0 same, h) refl
    | inr differs ↦ rw differs (sym (or_else-none (get r name)))
  ]
  add_loaded-get name t none r h = elim (Bool-cases (bytes_eq t.name name)) [
    | inl same ↦
        rw (lookup-insert t.name name t r.topics, same, ← (bytes_eq_iff t.name name).0 same, h) refl
    | inr differs ↦
        rw (lookup-insert t.name name t r.topics, differs) (sym (or_else-none (get r name)))
  ]

  keep_loaded-get :
      (name : Bytes) (loaded : Result TopicError (Topic Db)) (r : Registry Db)
      → name ≢ []
      → get (keep_loaded loaded r) name ≡ or_else (get r name) (if_named name loaded)
  unfolding keep_loaded if_named
  keep_loaded-get name (err e) r set = sym (or_else-none (get r name))
  keep_loaded-get name (ok t) r set = elim (Bool-cases (bytes_eq t.name [])) [
    | inl empty ↦ elim (Bool-cases (bytes_eq t.name name)) [
      | inl same ↦
          absurd (set (sym ((bytes_eq_iff t.name name).0 same) ∙ (bytes_eq_iff t.name []).0 empty))
      | inr differs ↦ rw (empty, differs) (sym (or_else-none (get r name)))
    ]
    | inr named ↦ rw named (add_loaded-get name t (lookup t.name r.topics) r refl)
  ]

module _ {Db : Type 0} ⦃b : Badger Db⦄ (open_dir : Bytes → Option Db) where
  -- The topic with a name in the first directory that holds one.
  unfoldable pub first_named : Bytes → List DirEntry → Option (Topic Db)
  first_named name [] = none
  first_named name (e ∷ entries) =
      let rest = first_named name entries in
      if e.is_dir
      then or_else (if_named name (Topic.load_from_dir (open_dir e.name))) rest
      else rest

  -- After `Load` the registry has, under each name but the empty one, the topic that it had, and else
  -- the topic of the first directory that holds one with this name, whatever the other directories
  -- hold, and also if they cannot be read.
  pub load_entries-get :
      (name : Bytes) (entries : List DirEntry) (r : Registry Db)
      → name ≢ []
      → get (load_entries open_dir entries r) name ≡ or_else (get r name) (first_named name entries)
  unfolding load_entries first_named
  load_entries-get name [] r set = sym (or_else-none (get r name))
  load_entries-get name (e ∷ entries) r set = elim (Bool-cases e.is_dir) [
    | inl dir ↦
        let loaded = Topic.load_from_dir (open_dir e.name) in
        rw
          (
            dir,
            load_entries-get name entries (keep_loaded loaded r) set,
            keep_loaded-get name loaded r set,
          )
          (or_else_assoc (get r name) (if_named name loaded) (first_named name entries))
    | inr file ↦ rw file (load_entries-get name entries r set)
  ]
