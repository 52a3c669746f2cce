-- ===== src/Topic/Subscribers.antt =====
-- core/topic/topic.go: the subscribers of a topic, and which of them `Publish` reaches.
use broker_message.Base.{
  ltb, length, ℕ, ◌+◌, ◌<◌, ◌≡◌, refl, ap, ◌∙◌, true, false, Option, some, none, List, [], ◌∷◌,
  ◌++◌, arith, ◌==◌, ==_iff, Bytes, Assoc, lookup, nat_key, ok, Bool-cases, inl, inr, if◌then◌else◌,
  All, All-append, lookup-insert,
}
use broker_message.Envelope.{Envelope}
use broker_message.Storage.{Badger}
use broker_message.Topic.{
  Topic, Message, Chan, offer, offer_to, fan_out, remove_first, is_subscribed, close_chan, publish,
  subscribe, unsubscribe,
}
use broker_message.Topic.Publishing.{publish-eq-ok}

-- No number twice.
unfoldable pub IsDistinct : List ℕ → Type 0
IsDistinct [] = Unit {0}
IsDistinct (s ∷ subs) = (is_subscribed s subs ≡ false) × IsDistinct subs

-- The subscribers are different, and their numbers have been given out.
pub record IsValid {Db : Type 0} (t : Topic Db) : Type 0 where
  pub distinct : IsDistinct t.subs
  pub given : All (λ s. s < t.next_chan) t.subs

-- What a subscriber sees of a message: a channel takes it behind what it buffers, up to 256 messages.
abbrev pub offered : Message → Option Chan → Option Chan
offered m none = none
offered m (some c) =
    some
      (record c { buffer = if ltb (length c.buffer) 256 then c.buffer ++ (m ∷ []) else c.buffer })

offer-offered : (m : Message) (c : Chan) → some (offer m c) ≡ offered m (some c)
unfolding offer
offer-offered m c = elim (Bool-cases (ltb (length c.buffer) 256)) [
  | inl e ↦ rw e refl
  | inr e ↦ rw e refl
]

lookup-offer_to :
    (m : Message) (id j : ℕ) (o : Option Chan) (chans : Assoc ℕ Chan)
    → lookup id chans ≡ o
    → lookup j (offer_to m id o chans) ≡ (if id == j then offered m o else lookup j chans)
unfolding offer_to
lookup-offer_to m id j none chans h = elim (Bool-cases (id == j)) [
  | inl e ↦ rw (e, ← (==_iff id j).0 e) h
  | inr e ↦ rw e refl
]
lookup-offer_to m id j (some c) chans h =
    lookup-insert id j (offer m c) chans
    ∙ ap (λ (o : Option Chan). if id == j then o else lookup j chans) (offer-offered m c)

lookup-fan_out :
    (m : Message) (subs : List ℕ) (j : ℕ) (chans : Assoc ℕ Chan)
    → IsDistinct subs
    → lookup j (fan_out m subs chans)
      ≡ (if is_subscribed j subs then offered m (lookup j chans) else lookup j chans)
unfolding fan_out is_subscribed IsDistinct
lookup-fan_out m [] j chans d = refl
lookup-fan_out m (s ∷ subs) j chans d =
    let step = lookup-offer_to m s j (lookup s chans) chans refl in
    let rest = lookup-fan_out m subs j (offer_to m s (lookup s chans) chans) d.1 in
    elim (Bool-cases (s == j)) [
      | inl e ↦
          let same = (==_iff s j).0 e in
          let gone : is_subscribed j subs ≡ false = rw (← same) d.0 in
          let here : lookup j (offer_to m s (lookup s chans) chans) ≡ offered m (lookup j chans) =
            step ∙ rw e (ap (λ (x : ℕ). offered m (lookup x chans)) same) in
          rest ∙ rw (gone, here, e) refl
      | inr e ↦
          let other : lookup j (offer_to m s (lookup s chans) chans) ≡ lookup j chans =
            step ∙ rw e refl in
          rest ∙ rw (other, e) refl
    ]

==-refl : (n : ℕ) → (n == n) ≡ true
==-refl n = (==_iff n n).1 refl

is_subscribed-below : (j : ℕ) (subs : List ℕ) → All (λ s. s < j) subs → is_subscribed j subs ≡ false
unfolding is_subscribed
is_subscribed-below j [] a = refl
is_subscribed-below j (s ∷ subs) a = ground (arith, is_subscribed-below j subs a.1)

is_subscribed-append :
    (j k : ℕ) (subs : List ℕ)
    → is_subscribed j (subs ++ (k ∷ [])) ≡ (if is_subscribed j subs then true else k == j)
unfolding is_subscribed
is_subscribed-append j k [] = ground arith
is_subscribed-append j k (s ∷ subs) = ground (arith, is_subscribed-append j k subs)

append-IsDistinct :
    (k : ℕ) (subs : List ℕ)
    → IsDistinct subs
    → is_subscribed k subs ≡ false
    → IsDistinct (subs ++ (k ∷ []))
unfolding IsDistinct is_subscribed
append-IsDistinct k [] d h = (refl, tt)
append-IsDistinct k (s ∷ subs) d h =
    (ground (arith, is_subscribed-append s k subs), append-IsDistinct k subs d.1 (ground arith))

is_subscribed-remove_first :
    (j k : ℕ) (subs : List ℕ)
    → IsDistinct subs
    → is_subscribed j (remove_first k subs) ≡ (if k == j then false else is_subscribed j subs)
unfolding IsDistinct is_subscribed remove_first
is_subscribed-remove_first j k [] d = ground arith
is_subscribed-remove_first j k (s ∷ subs) d =
    ground (arith, is_subscribed-remove_first j k subs d.1)

remove_first-IsDistinct :
    (k : ℕ) (subs : List ℕ) → IsDistinct subs → IsDistinct (remove_first k subs)
unfolding IsDistinct remove_first
remove_first-IsDistinct k [] d = tt
remove_first-IsDistinct k (s ∷ subs) d = elim (Bool-cases (s == k)) [
  | inl e ↦ rw e d.1
  | inr e ↦
      rw e (
        ground (arith, is_subscribed-remove_first s k subs d.1),
        remove_first-IsDistinct k subs d.1,
      )
]

remove_first-All :
    (P : ℕ → Type 0) (k : ℕ) (subs : List ℕ) → All P subs → All P (remove_first k subs)
unfolding remove_first
remove_first-All P k [] a = tt
remove_first-All P k (s ∷ subs) a = elim (Bool-cases (s == k)) [
  | inl e ↦ rw e a.1
  | inr e ↦ rw e (a.0, remove_first-All P k subs a.1)
]

weaken : (n : ℕ) (subs : List ℕ) → All (λ s. s < n) subs → All (λ s. s < n + 1) subs
weaken n [] a = tt
weaken n (s ∷ subs) a = (omega arith, weaken n subs a.1)

module _ {Db : Type 0} ⦃b : Badger Db⦄ where
  -- A subscription is to a number that was not given out, and the topic stays valid.
  subscribe-IsValid :
      (t : Topic Db)
      → IsValid t
      → IsValid (subscribe t).0 × (is_subscribed (subscribe t).1 t.subs ≡ false)
  unfolding subscribe
  subscribe-IsValid t v =
      let new = is_subscribed-below t.next_chan t.subs v.given in
      (
        record {
          distinct = append-IsDistinct t.next_chan t.subs v.distinct new;
          given =
              All-append (λ s. s < t.next_chan + 1) t.subs (t.next_chan ∷ [])
                (weaken t.next_chan t.subs v.given) (omega arith, tt);
        },
        new,
      )

  unsubscribed : ℕ → Topic Db → Topic Db
  unsubscribed id t = record t {
    subs = remove_first id t.subs;
    chans = close_chan id (lookup id t.chans) t.chans;
  }

  unsubscribe-there :
      (id : ℕ) (t : Topic Db)
      → is_subscribed id t.subs ≡ true
      → unsubscribe id t ≡ unsubscribed id t
  unfolding unsubscribe unsubscribed
  unsubscribe-there id t h = rw (h, unsubscribe) refl

  unsubscribe-absent :
      (id : ℕ) (t : Topic Db) → is_subscribed id t.subs ≡ false → unsubscribe id t ≡ t
  unfolding unsubscribe
  unsubscribe-absent id t h = rw (h, unsubscribe) refl

  -- The end of a subscription takes that subscriber and no other off the list, keeps the topic valid,
  -- and done a second time changes nothing.
  unsubscribe-ends :
      (id j : ℕ) (t : Topic Db)
      → IsValid t
      → IsValid (unsubscribe id t)
        × (is_subscribed j (unsubscribe id t).subs
            ≡ (if id == j then false else is_subscribed j t.subs))
        × (unsubscribe id (unsubscribe id t) ≡ unsubscribe id t)
  unfolding unsubscribed
  unsubscribe-ends id j t v = elim (Bool-cases (is_subscribed id t.subs)) [
    | inl e ↦
        let gone : is_subscribed id (remove_first id t.subs) ≡ false =
          is_subscribed-remove_first id id t.subs v.distinct ∙ rw (==-refl id) refl in
        rw (unsubscribe-there id t e) (
          record {
            distinct = remove_first-IsDistinct id t.subs v.distinct;
            given = remove_first-All (λ s. s < t.next_chan) id t.subs v.given;
          },
          is_subscribed-remove_first j id t.subs v.distinct,
          unsubscribe-absent id (unsubscribed id t) gone,
        )
    | inr e ↦ rw (unsubscribe-absent id t e) (v, absent j e, unsubscribe-absent id t e)
  ]
    where
      absent :
          (j : ℕ)
          → is_subscribed id t.subs ≡ false
          → is_subscribed j t.subs ≡ (if id == j then false else is_subscribed j t.subs)
      absent j e = elim (Bool-cases (id == j)) [
        | inl same ↦ rw (same, ← (==_iff id j).0 same) e
        | inr other ↦ rw other refl
      ]

  -- A message that is published reaches every subscriber and no one else: a subscriber's channel gets
  -- it behind the messages that it buffers if these are fewer than 256, and is left as it is if not; a
  -- channel that is no subscriber's keeps what it holds. A topic that is valid stays valid.
  pub publish-reaches :
      (fresh : Bytes) (t t' : Topic Db) (env : Envelope) (m : Message) (j : ℕ)
      → IsValid t
      → publish fresh t env ≡ (t', ok m)
      → (lookup j t'.chans
          ≡ (if is_subscribed j t.subs then offered m (lookup j t.chans) else lookup j t.chans))
        × IsValid t'
  publish-reaches fresh t t' env m j v h =
      let (_, is_advanced, _) = publish-eq-ok fresh t t' env m h in
      rw is_advanced (
        lookup-fan_out m t.subs j t.chans v.distinct,
        record { distinct = v.distinct; given = v.given },
      )
