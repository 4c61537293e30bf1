-- ===== src/Ip/V6/Spec.antt =====
-- The format specification of `formatter<address_v6>`: which characters it accepts, and together.
pub mod Letters
pub mod Flags
use iouxx.Base.{
  ℕ, Bool, true, false, not, ◌&&◌, ◌||◌, [], ◌∷◌, Option, none, some, ◌==◌, if◌then◌else◌, and_then,
  Bytes,
}

-- The fields of the formatter. An exception of `parse` is `none`.
pub record Spec : Type 0 where
  pub seen_r : Bool
  pub seen_f : Bool
  pub seen_z : Bool
  pub seen_m : Bool
  pub seen_n : Bool
  pub seen_u : Bool

abbrev pub unseen : Spec
unseen = record {
  seen_r = false;
  seen_f = false;
  seen_z = false;
  seen_m = false;
  seen_n = false;
  seen_u = false;
}

-- The default: the form that RFC 5952 recommends.
abbrev pub recommended : Spec
recommended = record unseen { seen_r = true }

abbrev either : ℕ → ℕ → ℕ → Bool
either c lower upper = c == lower || c == upper

-- A flag is set once.
abbrev once : Bool → Spec → Option Spec
once true s = none
once false s = some s

-- One round of the loop: the `switch`.
pub see : ℕ → Spec → Option Spec
see c s =
    if either c b'r' b'R'
    then once s.seen_r (record s { seen_r = true })
    else if either c b'f' b'F'
    then once s.seen_f (record s { seen_f = true })
    else if either c b'z' b'Z'
    then once s.seen_z (record s { seen_z = true })
    else if either c b'm' b'M'
    then once s.seen_m (record s { seen_m = true })
    else if either c b'n' b'N'
    then once s.seen_n (record s { seen_n = true })
    else if either c b'u' b'U'
    then once s.seen_u (record s { seen_u = true })
    else none

-- The loop, up to the end or to '}'; what is left of the text comes with the flags.
pub see_all : Bytes → Spec → Option (Spec × Bytes)
unfolding see
see_all [] s = some (s, [])
see_all (c ∷ text) s =
    let rest = and_then (see c s) (see_all text) in if c == b'}' then some (s, c ∷ text) else rest

-- The combinations that are refused behind the loop.
pub is_allowed : Spec → Bool
is_allowed s =
    if s.seen_r then not (s.seen_f || s.seen_z || s.seen_m) else not (s.seen_m && s.seen_n)

abbrev pub checked : Spec × Bytes → Option (Spec × Bytes)
unfolding is_allowed
checked (s, rest) = if is_allowed s then some (s, rest) else none

abbrev pub stops : Bytes → Bool
stops [] = true
stops (c ∷ text) = c == b'}'

-- `formatter<address_v6>::parse`
unfoldable pub parse : Bytes → Option (Spec × Bytes)
unfolding see_all is_allowed
parse text =
    let flags = and_then (see_all text unseen) checked in
    if stops text then some (recommended, text) else flags
