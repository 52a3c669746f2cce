-- ===== src/Auth.antt =====
-- core/auth/auth.go: users, passwords and topic permissions. The users come from a YAML file, whose
-- parser is not modelled; bcrypt's comparison is an argument.
pub mod Matching
pub mod Permissions
use broker_message.Base.{
  ℕ, suc, ◌+◌, Bool, true, false, not, ◌&&◌, Option, none, some, List, [], ◌∷◌, ltb, leb, ◌==◌,
  ◌++◌, if◌then◌else◌, length, get_or, Bytes, bytes_eq, Assoc, insert, lookup, bytes_key,
}

pub record User : Type 0 where
  pub name : Bytes
  pub password : Bytes
  pub bcrypt : Bytes
  pub publish : List Bytes
  pub subscribe : List Bytes
  pub admin : Bool

-- A map from names to users.
abbrev pub Store : Type 0
Store = Assoc Bytes User

-- The loop of `Load` over the users of the file: a later user replaces one of the same name.
unfoldable pub load_users : List User → Store → Store
load_users [] s = s
load_users (u ∷ us) s = load_users us (insert u.name u s)

-- `bcrypt_ok hash password` tells whether `bcrypt.CompareHashAndPassword` returns no error.
module _ (bcrypt_ok : Bytes → Bytes → Bool) where
  check_password : User → Bytes → Option User × Bool
  check_password u password =
      if not (bytes_eq u.bcrypt [])
      then (if not (bcrypt_ok u.bcrypt password) then (none, false) else (some u, true))
      else if not (bytes_eq u.password []) && bytes_eq u.password password
      then (some u, true)
      else (none, false)

  -- A store that is nil lets everybody in, as nobody.
  unfoldable pub authenticate : Option Store → Bytes → Bytes → Option User × Bool
  unfolding check_password
  authenticate none username password = (none, true)
  authenticate (some s) username password = elim (lookup username s) [
    | none ↦ (none, false)
    | some u ↦ check_password u password
  ]

-- `strings.Split(s, "/")`: `part` is the part that has been read so far.
unfoldable pub split_from : Bytes → Bytes → List Bytes
split_from part [] = part ∷ []
split_from part (c ∷ s) =
    let next = split_from [] s in
    let same = split_from (part ++ (c ∷ [])) s in if c == b'/' then part ∷ next else same

abbrev pub split : Bytes → List Bytes
split = split_from []

abbrev pub hash : Bytes
hash = b'#' ∷ []

abbrev pub plus : Bytes
plus = b'+' ∷ []

-- The loop of `matchTopic` from part `i` on; `n` is `len(pParts)`.
unfoldable pub match_loop : ℕ → List Bytes → List Bytes → ℕ → Bool
match_loop i [] t_parts n = length t_parts == n
match_loop i (p ∷ ps) t_parts n =
    let rest = match_loop (i + 1) ps t_parts n in
    if bytes_eq p hash
    then true
    else if leb (length t_parts) i
    then false
    else if not (bytes_eq p plus) && not (bytes_eq p (get_or t_parts i []))
    then false
    else rest

unfoldable pub match_topic : Bytes → Bytes → Bool
match_topic pattern_ topic =
    if bytes_eq pattern_ hash
    then true
    else match_loop 0 (split pattern_) (split topic) (length (split pattern_))

-- `for _, p := range patterns { if matchTopic(p, topic) { return true } }`
unfoldable pub any_match : List Bytes → Bytes → Bool
any_match [] topic = false
any_match (p ∷ ps) topic = if match_topic p topic then true else any_match ps topic

allowed : Bool → List Bytes → Bytes → Bool
allowed admin patterns topic =
    if admin then true else if any_match patterns topic then true else length patterns == 0

unfoldable pub can_publish : User → Bytes → Bool
unfolding allowed
can_publish u topic = allowed u.admin u.publish topic

unfoldable pub can_subscribe : User → Bytes → Bool
unfolding allowed
can_subscribe u filter = allowed u.admin u.subscribe filter
