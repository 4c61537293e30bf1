-- ===== src/Ip/V6/Parse.antt =====
-- `address_v6::from_string`.
pub mod Fill
pub mod Sides
pub mod Forms
pub mod Uncheck
pub mod Sound
pub mod Sections
pub mod Shapes
pub mod Grammar
use iouxx.Base.{
  ℕ, suc, ◌+◌, ◌-◌, Bool, true, false, not, ◌||◌, List, [], ◌∷◌, ◌++◌, Option, none, some, ◌==◌,
  ltb, if◌then◌else◌, Bytes, length, get_or, set, take, drop, replicate,
}
use iouxx.Base.Result.{
  Expected, ok, unexpected, fail_invalid_argument, invalid_argument, ◌>>=◌, ◌>>◌, require,
}
use iouxx.Text.Split.{contains, split, split_pair}
use iouxx.Text.Number.{FromChars, parsed, from_chars}
use iouxx.Ip.Bytes.{Endian, hton_16, hton_words, halves}
use iouxx.Ip.V4.{AddressV4, is_empty, consumed}
use iouxx.Ip.V4
use iouxx.Ip.V6.{AddressV6}

-- The local variables of the parser.
pub record Progress : Type 0 where
  pub part_results : List ℕ
  pub part_count : ℕ
  pub seen_ipv4 : Bool

abbrev pub start : Progress
start = record { part_results = replicate 8 0; part_count = 0; seen_ipv4 = false }

-- The two writes of an embedded IPv4 address, in the order of the machine.
pub put_ipv4 : Endian → AddressV4 → Progress → Progress
put_ipv4 e v4 st =
    let v4_parts = halves e v4.addr in
    record {
      part_results =
          set (set st.part_results st.part_count (hton_16 e (get_or v4_parts 0 0)))
            (st.part_count + 1) (hton_16 e (get_or v4_parts 1 0));
      part_count = st.part_count + 2;
      seen_ipv4 = true;
    }

pub put_group : ℕ → Progress → Progress
put_group n st = record st {
  part_results = set st.part_results st.part_count n;
  part_count = st.part_count + 1;
}

-- Every error of the IPv4 parser becomes `std::errc::invalid_argument`.
pub or_invalid : Expected AddressV4 → Expected AddressV4
or_invalid (ok v4) = ok v4
or_invalid (unexpected ec) = fail_invalid_argument

pub parse_ipv4_section : Endian → Bytes → Progress → Expected Progress
parse_ipv4_section e sub st = do
  require (not (ltb 6 st.part_count)) invalid_argument
  v4 ← or_invalid (V4.from_string e sub)
  ok (put_ipv4 e v4 st)

pub parse_hex_section : Bytes → Progress → Expected Progress
parse_hex_section sub st = do
  require (ltb st.part_count 8) invalid_argument
  require (not (ltb 4 (length sub))) invalid_argument
  n ← consumed (from_chars 16 0xffff sub)
  ok (put_group n st)

-- The lambda `parse_one_section`.
pub parse_one_section : Endian → Bytes → Progress → Expected Progress
parse_one_section e sub st =
    if contains sub b'.' then parse_ipv4_section e sub st else parse_hex_section sub st

-- The inner loops, over the parts between single colons.
pub parse_sections : Endian → List Bytes → Progress → Expected Progress
parse_sections e [] st = ok st
parse_sections e (sub ∷ subs) st = do
  require (not st.seen_ipv4) invalid_argument
  require (not (is_empty sub)) invalid_argument
  st' ← parse_one_section e sub st
  parse_sections e subs st'

-- `std::ranges::rotate(begin + first, begin + middle, begin + 8)`
pub rotate : ℕ → ℕ → List ℕ → List ℕ
rotate first middle ws = take first ws ++ (drop middle ws ++ take (middle - first) (drop first ws))

-- The part before "::", or all of the text.
pub parse_first : Endian → Bytes → Progress → Expected Progress
parse_first e [] st = ok st
parse_first e (c ∷ sub) st = parse_sections e (split b':' (c ∷ sub)) st

-- Behind the groups that follow "::" stand those before it, and zeros between them.
pub spread : ℕ → Progress → Expected Progress
spread first_part_count st = do
  require (ltb st.part_count 8) invalid_argument
  ok (record st {
    part_results = rotate first_part_count st.part_count st.part_results;
    part_count = 8;
  })

-- The part behind "::".
pub parse_second : Endian → Bytes → Progress → Expected Progress
parse_second e [] st = do
  require (not st.seen_ipv4) invalid_argument
  ok (record st { part_count = 8 })
parse_second e (c ∷ sub) st = do
  require (not st.seen_ipv4) invalid_argument
  st' ← parse_sections e (split b':' (c ∷ sub)) st
  spread st.part_count st'

-- The outer loop, over the parts between "::". The number is `double_colon_count` before the round.
pub parse_sides : Endian → List Bytes → ℕ → Progress → Expected Progress
parse_sides e [] double_colon_count st = ok st
parse_sides e (sub ∷ subs) double_colon_count st = do
  st' ←
      if double_colon_count == 0
      then parse_first e sub st
      else if double_colon_count == 1
      then parse_second e sub st
      else fail_invalid_argument
  parse_sides e subs (suc double_colon_count) st'

pub finish : Endian → Progress → Expected AddressV6
finish e st = do
  require (st.part_count == 8) invalid_argument
  ok (record { addr = hton_words e st.part_results })

-- `address_v6::from_string`
unfoldable pub from_string : Endian → Bytes → Expected AddressV6
unfolding put_ipv4 put_group or_invalid parse_ipv4_section parse_hex_section parse_one_section
    parse_sections rotate spread parse_first parse_second parse_sides finish
from_string e ipv6_str = do
  require (not (is_empty ipv6_str || ltb 45 (length ipv6_str))) invalid_argument
  st ← parse_sides e (split_pair b':' b':' ipv6_str) 0 start
  finish e st
