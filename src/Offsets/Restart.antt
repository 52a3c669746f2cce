-- ===== src/Offsets/Restart.antt =====
-- core/offsets/offsets.go: what `LoadFromStorage` reads after a `Set` that was committed.
use broker_message.Base.{
  ℕ, ◌^◌, ◌<◌, ◌≡◌, ◌≢◌, refl, sym, ap, ◌∙◌, true, Option, some, none, List, [], ◌∷◌, map, arith,
  ltb, le→not_ltb, if◌then◌else◌, length, take, take_all, All, Bytes, bytes_eq, bytes_eq_iff,
  be_uint64, put_uint64, be-put_uint64, Assoc, lookup, bytes_key, lookup-insert, Bool-cases, inl,
  inr,
}
use broker_message.Storage
use broker_message.Storage.{Badger, Step, next, scan_loop, after_step}
use broker_message.Storage.Entries.{
  within, IsSorted, lookup-put, lookup-within, within-IsSorted, lookup-Above, has_prefix-append,
  bytes_lt-append,
}
use broker_message.Offsets.{
  Offsets, offset_key_prefix, build_key, get, load_entry, load_from_storage, set,
}

abbrev items : Assoc Bytes Bytes → List (Bytes × Option Bytes)
items m = map (λ e. (e.0, some e.1)) m

-- What the map has for a key after the scan, of what the database and the map had.
abbrev loaded : Option Bytes → Option ℕ → Option ℕ
loaded none old = old
loaded (some v) old = if ltb (length v) 8 then old else some (be_uint64 (take 8 v))

load_entry-next :
    (o : Offsets) (k v : Bytes) (rest : List (Bytes × Option Bytes))
    → scan_loop load_entry ((k, some v) ∷ rest) o ≡ scan_loop load_entry rest (load_entry o k v).0
unfolding scan_loop load_entry after_step
load_entry-next o k v rest = elim (Bool-cases (ltb (length v) 8)) [
  | inl e ↦ rw e refl
  | inr e ↦ rw e refl
]

lookup-load_entry :
    (o : Offsets) (k v j : Bytes)
    → lookup j (load_entry o k v).0
      ≡ (if bytes_eq k j then loaded (some v) (lookup j o) else lookup j o)
unfolding load_entry
lookup-load_entry o k v j = elim (Bool-cases (ltb (length v) 8)) [
  | inl e ↦ rw e (ground arith)
  | inr e ↦ rw e (lookup-insert k j (be_uint64 (take 8 v)) o)
]

lookup-scan :
    (m : Assoc Bytes Bytes) (o : Offsets) (j : Bytes)
    → IsSorted m
    → lookup j (scan_loop load_entry (items m) o).0 ≡ loaded (lookup j m) (lookup j o)
lookup-scan [] o j s = unfold scan_loop lookup in refl
lookup-scan ((k, v) ∷ m) o j s =
    let rest = lookup-scan m (load_entry o k v).0 j s.1 in
    let entry = lookup-load_entry o k v j in
    rw (load_entry-next o k v (items m)) (
      rest ∙ elim (Bool-cases (bytes_eq k j)) [
        | inl e ↦
            let gone : lookup j m ≡ none = rw (← (bytes_eq_iff k j).0 e) (lookup-Above k m s.0) in
            let whole : lookup j ((k, v) ∷ m) ≡ some v = unfold lookup in rw e refl in
            let read : lookup j (load_entry o k v).0 ≡ loaded (some v) (lookup j o) =
              entry ∙ rw e refl in
            rw (gone, whole) read
        | inr e ↦
            let whole : lookup j ((k, v) ∷ m) ≡ lookup j m = unfold lookup in rw e refl in
            let read : lookup j (load_entry o k v).0 ≡ lookup j o = entry ∙ rw e refl in
            rw (whole, read) refl
      ])

length-put_uint64 : (v : ℕ) → length (put_uint64 v) ≡ 8
unfolding put_uint64
length-put_uint64 v = refl

loaded-put_uint64 :
    (v : ℕ) (old : Option ℕ) → v < 2 ^ 64 → loaded (some (put_uint64 v)) old ≡ some v
loaded-put_uint64 v old h =
    rw
      (
        le→not_ltb (length (put_uint64 v)) 8 (omega (arith, length-put_uint64 v)),
        ← length-put_uint64 v,
        take_all,
      )
      (ap some (be-put_uint64 v h))

scan_succeeds : (m : Assoc Bytes Bytes) (o : Offsets) → (scan_loop load_entry (items m) o).1 ≡ true
scan_succeeds [] o = unfold scan_loop in refl
scan_succeeds ((k, v) ∷ m) o =
    rw (load_entry-next o k v (items m)) (scan_succeeds m (load_entry o k v).0)

build_key_eq : (g h : Bytes) → bytes_eq (build_key g) (build_key h) ≡ bytes_eq g h
unfolding bytes_eq
build_key_eq g h = refl

module _ {Db : Type 0} ⦃b : Badger Db⦄ where
  -- Every value that the scan of the offsets meets can be read.
  abbrev pub Readable : Db → Type 0
  Readable db = All (λ i. i.1 ≢ none) (b.iterate db offset_key_prefix offset_key_prefix)

  -- The offsets can be loaded, whatever is stored for them.
  pub load_from_storage-succeeds : (db : Db) → Readable db → (load_from_storage db).1 ≡ true
  unfolding load_from_storage
  load_from_storage-succeeds db readable =
      rw (b.iterate_reads db offset_key_prefix offset_key_prefix readable)
        (scan_succeeds (within offset_key_prefix offset_key_prefix (b.entries db)) [])

  lookup-load_from_storage :
      (db : Db) (group_id : Bytes)
      → Readable db
      → lookup (build_key group_id) (load_from_storage db).0
        ≡ loaded (lookup (build_key group_id) (b.entries db)) none
  unfolding load_from_storage lookup
  lookup-load_from_storage db group_id readable =
      let inside = within offset_key_prefix offset_key_prefix (b.entries db) in
      let key = build_key group_id in
      let met : lookup key inside ≡ lookup key (b.entries db) =
        lookup-within offset_key_prefix offset_key_prefix key (b.entries db)
        ∙ rw
            (
              has_prefix-append offset_key_prefix group_id,
              bytes_lt-append offset_key_prefix group_id,
            )
            refl in
      rw (b.iterate_reads db offset_key_prefix offset_key_prefix readable) (
        lookup-scan inside [] key
          (within-IsSorted offset_key_prefix offset_key_prefix (b.entries db) (b.entries_sorted db))
        ∙ ap (λ (o : Option Bytes). loaded o none) met)

  -- A restart finds the offset that was set: after a `Set` whose transaction was committed,
  -- `LoadFromStorage` from the database gives the client of that `Set` the offset, below 2 ^ 64, and
  -- every other client what it would have given before, if the iterator can read every value.
  pub load_from_storage-set :
      (o : Offsets) (db : Db) (group_id other : Bytes) (offset : ℕ)
      → (Storage.set db (build_key group_id) (put_uint64 offset)).1 ≡ true
      → offset < 2 ^ 64
      → Readable db
      → Readable (set o db group_id offset).1
      → get (load_from_storage (set o db group_id offset).1).0 other
        ≡ (if bytes_eq group_id other then offset else get (load_from_storage db).0 other)
  unfolding get set
  load_from_storage-set o db group_id other offset done fits before after =
      let db' = (Storage.set db (build_key group_id) (put_uint64 offset)).0 in
      let now = lookup-load_from_storage db' other after in
      let held : lookup (build_key other) (b.entries db') ≡ (
          if bytes_eq (build_key group_id) (build_key other)
          then some (put_uint64 offset)
          else lookup (build_key other) (b.entries db)) =
        rw (b.set_commits db (build_key group_id) (put_uint64 offset) done)
          (lookup-put (build_key group_id) (build_key other) (put_uint64 offset) (b.entries db)) in
      elim (Bool-cases (bytes_eq group_id other)) [
        | inl e ↦
            let found : lookup (build_key other) (load_from_storage db').0 ≡ some offset =
              now
              ∙ ap (λ (x : Option Bytes). loaded x none) {y = some (put_uint64 offset)}
                  (held ∙ rw (build_key_eq group_id other, e) refl)
              ∙ loaded-put_uint64 offset none fits in
            rw (found, e) refl
        | inr e ↦
            let found : lookup (build_key other) (load_from_storage db').0
                ≡ lookup (build_key other) (load_from_storage db).0 =
              now
              ∙ ap (λ (x : Option Bytes). loaded x none)
                  {y = lookup (build_key other) (b.entries db)}
                  (held ∙ rw (build_key_eq group_id other, e) refl)
              ∙ sym (lookup-load_from_storage db other before) in
            rw (found, e) refl
      ]
