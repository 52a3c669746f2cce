-- ===== src/Topic/Purging.antt =====
-- core/topic/topic.go, `Purge`: it empties the list of the messages that the topic stands for.
use broker_message.Base.{
  ◌≡◌, refl, sym, ap, ◌∙◌, Bool, true, false, Option, none, List, [], ◌∷◌, ◌++◌, map, if◌then◌else◌,
  append-nil, append_assoc, Bytes, bytes_eq, Assoc, lookup, lookup-remove, bytes_key, Bool-cases,
  inl, inr,
}
use broker_message.Storage
use broker_message.Storage.{Badger, scan_loop, after_step}
use broker_message.Storage.Entries.{lookup-within}
use broker_message.Storage.Prefixes.{under, has_prefix-not-lt, under-none}
use broker_message.Topic.{Topic, Message, seq_key, collect_key, delete_keys, purge}
use broker_message.Topic.Keys.{msg_key_prefix}
use broker_message.Topic.Refinement.{Refines, CanIterate, set_uint64-other}
use broker_message.Topic.Log.{met}

abbrev key_of : Bytes × Bytes → Bytes
key_of e = e.0

-- The keys that the scan of `Purge` lists.
scan-keys :
    (es : Assoc Bytes Bytes) (keys : List Bytes)
    → scan_loop collect_key (map met es) keys ≡ (keys ++ map key_of es, true)
unfolding scan_loop collect_key after_step
scan-keys [] keys = rw (append-nil keys) refl
scan-keys ((k, v) ∷ es) keys =
    scan-keys es (keys ++ (k ∷ []))
    ∙ ap (λ (l : List Bytes). (l, true)) (append_assoc keys (k ∷ []) (map key_of es))

unless_key :
    (k j v : Bytes) (es : Assoc Bytes Bytes) (found : Option Bytes)
    → lookup j es ≡ none
    → (lookup j ((k, v) ∷ es) ≡ none → found ≡ none)
    → (if bytes_eq k j then none else found) ≡ none
unfolding lookup
unless_key k j v es found h others = elim (Bool-cases (bytes_eq k j)) [
  | inl same ↦ rw same refl
  | inr other ↦ rw other (others (rw other h))
]

module _ {Db : Type 0} ⦃b : Badger Db⦄ where
  -- The keys that are deleted are gone: no key is left that was among them or was not there.
  delete_keys-gone :
      (es : Assoc Bytes Bytes) (db db' : Db) (j : Bytes)
      → delete_keys (map key_of es) db ≡ (db', true)
      → (lookup j es ≡ none → lookup j (b.entries db) ≡ none)
      → lookup j (b.entries db') ≡ none
  delete_keys-gone [] db db' j h others =
      let none_left : delete_keys [] db ≡ (db, true) = unfold delete_keys in refl in
      let same : db ≡ db' = ap (λ (x : Db × Bool). x.0) (sym none_left ∙ h) in
      rw (← same) (others (unfold lookup in refl))
  delete_keys-gone ((k, v) ∷ es) db db' j h others = elim (Bool-cases (Storage.delete db k).1) [
    | inl done ↦
        let rest : delete_keys (map key_of es) (Storage.delete db k).0 ≡ (db', true) =
          rw (← h) (unfold delete_keys in rw done refl) in
        let removed : lookup j (b.entries (Storage.delete db k).0)
            ≡ (if bytes_eq k j then none else lookup j (b.entries db)) =
          rw (b.delete_commits db k done) (lookup-remove k j (b.entries db)) in
        delete_keys-gone es (Storage.delete db k).0 db' j rest
          (λ e. removed ∙ unless_key k j v es (lookup j (b.entries db)) e others)
    | inr lost ↦
        let failed : delete_keys ((k ∷ map key_of es)) db ≡ ((Storage.delete db k).0, false) =
          unfold delete_keys in rw lost refl in
        let both = sym failed ∙ h in absurd cc
  ]

  abbrev message_keys : Topic Db → List Bytes
  message_keys t = (Storage.scan t.db msg_key_prefix collect_key []).0

  -- The parts of a purge that succeeds.
  purge-eq-done :
      (t t' : Topic Db)
      → purge t ≡ (t', true)
      → (delete_keys (message_keys t) t.db ≡ ((delete_keys (message_keys t) t.db).0, true))
        × (t' ≡ record t {
          seq = 0;
          db = (Storage.set_uint64 (delete_keys (message_keys t) t.db).0 seq_key 0).0;
        })
  unfolding purge
  purge-eq-done t t' h = elim (Bool-cases (delete_keys (message_keys t) t.db).1) [
    | inl e ↦
        let done = rw e at h in
        (
          ap (λ (x : Bool). ((delete_keys (message_keys t) t.db).0, x)) e,
          ap (λ (x : Topic Db × Bool). x.0) (sym done),
        )
    | inr e ↦ let lost = rw e at h in absurd cc
  ]

  -- `Purge` leaves no message.
  pub purge-Refines :
      (t t' : Topic Db) (log : List Message)
      → purge t ≡ (t', true)
      → Refines t log
      → CanIterate t.db msg_key_prefix msg_key_prefix
      → Refines t' []
  purge-Refines t t' log h r readable =
      let (deleted, is_purged) = purge-eq-done t t' h in
      let keys : message_keys t ≡ map key_of (under msg_key_prefix (b.entries t.db)) =
        ap (λ (items : List (Bytes × Option Bytes)). (scan_loop collect_key items []).0)
          (b.iterate_reads t.db msg_key_prefix msg_key_prefix readable)
        ∙ (ap (λ (x : List Bytes × Bool). x.0)
            (scan-keys (under msg_key_prefix (b.entries t.db)) [])) in
      let emptied : under msg_key_prefix (b.entries (delete_keys (message_keys t) t.db).0) ≡ [] =
        under-none msg_key_prefix (b.entries (delete_keys (message_keys t) t.db).0) (λ k e.
          delete_keys-gone (under msg_key_prefix (b.entries t.db)) t.db
            (delete_keys (message_keys t) t.db).0 k
            (ap (λ (l : List Bytes). delete_keys l t.db) (sym keys) ∙ deleted)
            (λ gone.
              sym (
                rw (e, has_prefix-not-lt msg_key_prefix k e) at
                  (lookup-within msg_key_prefix msg_key_prefix k (b.entries t.db)))
              ∙ gone)) in
      record {
        held = rw is_purged (set_uint64-other (delete_keys (message_keys t) t.db).0 0 ∙ emptied);
        read_back = tt;
        up_to = tt;
      }
