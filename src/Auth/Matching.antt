-- ===== src/Auth/Matching.antt =====
-- core/auth/auth.go: `matchTopic` decides MQTT's matching of topic filters, level by level.
use broker_message.Base.{
  ℕ, ◌+◌, ◌≡◌, ◌≢◌, ◌↔◌, refl, sym, ◌∙◌, Bool, true, false, not, ◌&&◌, List, [], ◌∷◌, ◌++◌, arith,
  length, get_or, get_or-append, length-append, append_assoc, append-nil, All, All-append, Bytes,
  bytes_eq, bytes_eq_iff, bytes_eq_refl, ◌==◌, if◌then◌else◌, Bool-cases, ==_iff, inl, inr,
}
use broker_message.Auth.{hash, plus, split, split_from, match_loop, match_topic}

-- The levels of a topic match the levels of a filter: `#` stands for any levels, `+` for one.
pub data Matches : List Bytes → List Bytes → Type 0 where
  nil : Matches [] []
  multi : {p : Bytes} {ps ts : List Bytes} → p ≡ hash → Matches (p ∷ ps) ts
  single : {p t : Bytes} {ps ts : List Bytes} → p ≡ plus → Matches ps ts → Matches (p ∷ ps) (t ∷ ts)
  same : {p t : Bytes} {ps ts : List Bytes} → p ≡ t → Matches ps ts → Matches (p ∷ ps) (t ∷ ts)

-- The loop over the parts of both, one after the other.
match_parts : List Bytes → List Bytes → Bool
match_parts [] [] = true
match_parts [] (t ∷ ts) = false
match_parts (p ∷ ps) [] = bytes_eq p hash
match_parts (p ∷ ps) (t ∷ ts) =
    if bytes_eq p hash
    then true
    else if not (bytes_eq p plus) && not (bytes_eq p t)
    then false
    else match_parts ps ts

-- The loop at index `i` looks at the levels from there on.
match_loop-parts :
    (ps front ts : List Bytes) (i n : ℕ)
    → i ≡ length front
    → n ≡ i + length ps
    → match_loop i ps (front ++ ts) n ≡ match_parts ps ts
unfolding match_loop match_parts
match_loop-parts [] front [] i n e f = ground (arith, length-append front [])
match_loop-parts [] front (t ∷ ts) i n e f = ground (arith, length-append front (t ∷ ts))
match_loop-parts (p ∷ ps) front [] i n e f = ground (arith, length-append front [])
match_loop-parts (p ∷ ps) front (t ∷ ts) i n e f =
    let next : match_loop (i + 1) ps (front ++ (t ∷ ts)) n ≡ match_parts ps ts =
      rw (← append_assoc front (t ∷ []) ts) (
        match_loop-parts ps (front ++ (t ∷ [])) ts (i + 1) n
          (omega (arith, length-append front (t ∷ []))) (omega arith)) in
    let level : get_or (front ++ (t ∷ ts)) i [] ≡ t = rw e (get_or-append front t ts []) in
    ground (arith, length-append front (t ∷ ts), next, level)

match_parts_sound : (ps ts : List Bytes) → match_parts ps ts ≡ true → Matches ps ts
unfolding match_parts
match_parts_sound [] [] h = nil
match_parts_sound [] (t ∷ ts) h = cc
match_parts_sound (p ∷ ps) [] h = multi ((bytes_eq_iff p hash).0 h)
match_parts_sound (p ∷ ps) (t ∷ ts) h = elim (Bool-cases (bytes_eq p hash)) [
  | inl a ↦ multi ((bytes_eq_iff p hash).0 a)
  | inr a ↦ elim (Bool-cases (bytes_eq p plus)) [
    | inl b ↦ single ((bytes_eq_iff p plus).0 b) (match_parts_sound ps ts (ground arith))
    | inr b ↦ elim (Bool-cases (bytes_eq p t)) [
      | inl c ↦ same ((bytes_eq_iff p t).0 c) (match_parts_sound ps ts (ground arith))
      | inr c ↦ absurd (ground arith)
    ]
  ]
]

match_parts_complete : {ps ts : List Bytes} → Matches ps ts → match_parts ps ts ≡ true
unfolding match_parts
match_parts_complete nil = refl
match_parts_complete (multi {p = p} {ts = []} e) = rw e (bytes_eq_refl hash)
match_parts_complete (multi {p = p} {ts = t ∷ ts} e) = ground (arith, (bytes_eq_iff p hash).1 e)
match_parts_complete (single {p = p} e m) =
    ground (arith, (bytes_eq_iff p plus).1 e, match_parts_complete m)
match_parts_complete (same {p = p} {t = t} e m) =
    ground (arith, (bytes_eq_iff p t).1 e, match_parts_complete m)

match_topic-parts :
    (filter topic : Bytes) → match_topic filter topic ≡ match_parts (split filter) (split topic)
unfolding match_topic
match_topic-parts filter topic = elim (Bool-cases (bytes_eq filter hash)) [
  | inl a ↦
      rw (a, (bytes_eq_iff filter hash).0 a)
        (sym (unfold split_from in match_parts_complete (multi {p = hash} {ps = []} refl)))
  | inr a ↦ rw a (match_loop-parts (split filter) [] (split topic) 0 _ refl (omega arith))
]

-- `matchTopic` accepts exactly the topics whose levels match those of the filter.
pub match_topic_iff :
    (filter topic : Bytes)
    → (match_topic filter topic ≡ true) ↔ Matches (split filter) (split topic)
match_topic_iff filter topic = (
  λ h. match_parts_sound _ _ (sym (match_topic-parts filter topic) ∙ h),
  λ m. match_topic-parts filter topic ∙ match_parts_complete m,
)

pub join : List Bytes → Bytes
join [] = []
join (p ∷ []) = p
join (p ∷ q ∷ ps) = p ++ (b'/' ∷ join (q ∷ ps))

abbrev pub NoSlash : Bytes → Type 0
NoSlash p = All (λ c. c ≢ b'/') p

split_from-ne-nil : (part s : Bytes) → split_from part s ≢ []
unfolding split_from
split_from-ne-nil part [] h = cc
split_from-ne-nil part (c ∷ s) h = ground (arith, split_from-ne-nil (part ++ (c ∷ [])) s)

join-cons : (p : Bytes) (qs : List Bytes) → qs ≢ [] → join (p ∷ qs) ≡ p ++ (b'/' ∷ join qs)
unfolding join
join-cons p [] h = absurd (h refl)
join-cons p (q ∷ qs) h = refl

split_from-shape :
    (part s : Bytes)
    → All (λ c. c ≢ b'/') part
    → All NoSlash (split_from part s) × (join (split_from part s) ≡ part ++ s)
split_from-shape part [] h = unfold split_from join in ((h, tt), sym (append-nil part))
split_from-shape part (c ∷ s) h = elim (Bool-cases (c == b'/')) [
  | inl a ↦
      let (all, joined) = split_from-shape [] s tt in
      let cut : split_from part (c ∷ s) ≡ part ∷ split_from [] s = unfold split_from in rw a in
      let same : c ≡ b'/' = (==_iff c b'/').0 a in
      rw cut
        ((h, all), rw (join-cons part (split_from [] s) (split_from-ne-nil [] s), joined, same))
  | inr a ↦
      let other : c ≢ b'/' = ground arith in
      let (all, joined) =
        split_from-shape (part ++ (c ∷ [])) s
          (All-append (λ x. x ≢ b'/') part (c ∷ []) h (other, tt)) in
      let kept : split_from part (c ∷ s) ≡ split_from (part ++ (c ∷ [])) s =
        unfold split_from in rw a in
      rw kept (all, joined ∙ append_assoc part (c ∷ []) s)
]

-- The levels of a name carry no `/`, and joined by `/` they give the name back.
pub split-shape : (s : Bytes) → All NoSlash (split s) × (join (split s) ≡ s)
split-shape s = split_from-shape [] s tt
