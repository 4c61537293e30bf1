-- ===== src/Ip/V6/Parse/Uncheck.antt =====
-- `address_v6::from_string_uncheck`, and that it agrees with `address_v6::from_string`. Where the code
-- assumes what does not hold, or writes out of bounds, there is no result.
use iouxx.Base.{
  ℕ, suc, true, false, not, ◌||◌, List, [], ◌∷◌, Option, none, some, ◌≡◌, refl, ap, ◌∙◌, arith,
  ◌==◌, ltb, if◌then◌else◌, and_then, Bytes, length, Bool-cases, inl, inr,
}
use iouxx.Base.Result.{Expected, ok, unexpected, >>=-eq-ok, require_cases, invalid_argument}
use iouxx.Text.Split.{contains, split, split_pair}
use iouxx.Text.Number.{FromChars, parsed, from_chars}
use iouxx.Ip.Bytes.{Endian, hton_words}
use iouxx.Ip.V4.{AddressV4, is_empty, consumed}
use iouxx.Ip.V4
use iouxx.Ip.V4.Sound.{consumed_cases}
use iouxx.Ip.V4.Uncheck.{from_string_uncheck-agrees}
use iouxx.Ip.V6.{AddressV6}
use iouxx.Ip.V6.Parse.{
  Progress, start, put_ipv4, put_group, or_invalid, parse_ipv4_section, parse_hex_section,
  parse_one_section, parse_sections, parse_first, parse_second, parse_sides, spread, finish, rotate,
  from_string,
}

abbrev put_number : Progress → FromChars → Option Progress
put_number st (parsed n []) = some (put_group n st)
put_number st _ = none

-- The lambda `parse_one_section`.
pub assume_one_section : Endian → Bytes → Progress → Option Progress
assume_one_section e sub st =
    if not (ltb st.part_count 8)
    then none
    else if contains sub b'.'
    then (if ltb 6 st.part_count
        then none
        else and_then (V4.from_string_uncheck e sub) λ v4. some (put_ipv4 e v4 st))
    else put_number st (from_chars 16 0xffff sub)

-- The inner loops.
pub assume_sections : Endian → List Bytes → Progress → Option Progress
assume_sections e [] st = some st
assume_sections e (sub ∷ subs) st = and_then (assume_one_section e sub st) (assume_sections e subs)

pub assume_first : Endian → Bytes → Progress → Option Progress
assume_first e [] st = some st
assume_first e (c ∷ sub) st = assume_sections e (split b':' (c ∷ sub)) st

pub assume_second : Endian → Bytes → Progress → Option Progress
assume_second e [] st = some st
assume_second e (c ∷ sub) st =
    and_then (assume_sections e (split b':' (c ∷ sub)) st) λ st'.
      some (record st' { part_results = rotate st.part_count st'.part_count st'.part_results })

-- The outer loop; the number is `double_colon_count` before the round.
pub assume_sides : Endian → List Bytes → ℕ → Progress → Option Progress
assume_sides e [] double_colon_count st = some st
assume_sides e (sub ∷ subs) double_colon_count st =
    and_then
      (if double_colon_count == 0
        then assume_first e sub st
        else if double_colon_count == 1
        then assume_second e sub st
        else none)
      (assume_sides e subs (suc double_colon_count))

-- `address_v6::from_string_uncheck`
unfoldable pub from_string_uncheck : Endian → Bytes → Option AddressV6
unfolding put_ipv4 put_group rotate assume_one_section assume_sections assume_first assume_second
    assume_sides
from_string_uncheck e ipv6_str =
    and_then (assume_sides e (split_pair b':' b':' ipv6_str) 0 start)
      λ st. some (record { addr = hton_words e st.part_results })

ap_results : {p q : Progress} → ok p ≡ ok q → p.part_results ≡ q.part_results
ap_results h = cc

pub valid-v4 : (r : Expected AddressV4) {v : AddressV4} → or_invalid r ≡ ok v → r ≡ ok v
unfolding or_invalid
valid-v4 (ok v) h = h
valid-v4 (unexpected ec) h = cc

module _ (e : Endian) where
  ipv4_agrees :
      (sub : Bytes) (st st' : Progress)
      → contains sub b'.' ≡ true
      → parse_ipv4_section e sub st ≡ ok st'
      → assume_one_section e sub st ≡ some st'
  unfolding assume_one_section parse_ipv4_section
  ipv4_agrees sub st st' dotted h =
      let (room, h₁) = require_cases (not (ltb 6 st.part_count)) invalid_argument _ h in
      let (v4, read, h₂) = >>=-eq-ok (or_invalid (V4.from_string e sub)) _ h₁ in
      let same : put_ipv4 e v4 st ≡ st' = cc in
      let free : not (ltb st.part_count 8) ≡ false = ground arith in
      let fits : ltb 6 st.part_count ≡ false = ground arith in
      rw (free, dotted, fits, from_string_uncheck-agrees e sub (valid-v4 _ read)) (ap some same)

  hex_agrees :
      (sub : Bytes) (st st' : Progress)
      → contains sub b'.' ≡ false
      → parse_hex_section sub st ≡ ok st'
      → assume_one_section e sub st ≡ some st'
  unfolding assume_one_section parse_hex_section
  hex_agrees sub st st' plain h =
      let (room, h₁) = require_cases (ltb st.part_count 8) invalid_argument _ h in
      let (short, h₂) = require_cases (not (ltb 4 (length sub))) invalid_argument _ h₁ in
      let (n, read, h₃) = >>=-eq-ok (consumed (from_chars 16 0xffff sub)) _ h₂ in
      let same : put_group n st ≡ st' = cc in rw (room, plain, consumed_cases _ read) (ap some same)

  one_section_agrees :
      (sub : Bytes) (st st' : Progress)
      → parse_one_section e sub st ≡ ok st'
      → assume_one_section e sub st ≡ some st'
  unfolding parse_one_section
  one_section_agrees sub st st' h = elim (Bool-cases (contains sub b'.')) [
    | inl dotted ↦ ipv4_agrees sub st st' dotted (rw dotted at h)
    | inr plain ↦ hex_agrees sub st st' plain (rw plain at h)
  ]

  sections_agree :
      (subs : List Bytes) (st st' : Progress)
      → parse_sections e subs st ≡ ok st'
      → assume_sections e subs st ≡ some st'
  unfolding parse_sections assume_sections
  sections_agree [] st st' h = cc
  sections_agree (sub ∷ subs) st st' h =
      let (first, h₁) = require_cases (not st.seen_ipv4) invalid_argument _ h in
      let (some_text, h₂) = require_cases (not (is_empty sub)) invalid_argument _ h₁ in
      let (next, read, h₃) = >>=-eq-ok (parse_one_section e sub st) _ h₂ in
      rw (one_section_agrees sub st next read) (sections_agree subs next st' h₃)

  first_agrees :
      (sub : Bytes) (st st' : Progress)
      → parse_first e sub st ≡ ok st'
      → assume_first e sub st ≡ some st'
  unfolding parse_first assume_first
  first_agrees [] st st' h = cc
  first_agrees (c ∷ sub) st st' h = sections_agree _ st st' h

  -- The array of the two is the same; the counts need not be.
  second_agrees :
      (sub : Bytes) (st st' : Progress)
      → parse_second e sub st ≡ ok st'
      → (last : Progress) × (assume_second e sub st ≡ some last)
        × (last.part_results ≡ st'.part_results)
  unfolding parse_second assume_second spread
  second_agrees [] st st' h =
      let (first, h₁) = require_cases (not st.seen_ipv4) invalid_argument _ h in
      (st, refl, ap_results h₁)
  second_agrees (c ∷ sub) st st' h =
      let (first, h₁) = require_cases (not st.seen_ipv4) invalid_argument _ h in
      let (next, read, h₂) = >>=-eq-ok (parse_sections e (split b':' (c ∷ sub)) st) _ h₁ in
      let (room, h₃) = require_cases (ltb next.part_count 8) invalid_argument _ h₂ in
      let rotated = rotate st.part_count next.part_count next.part_results in
      (record next { part_results = rotated }, rw (sections_agree _ st next read), ap_results h₃)

  sides_agree :
      (subs : List Bytes) (st st' : Progress)
      → parse_sides e subs 0 st ≡ ok st'
      → (last : Progress) × (assume_sides e subs 0 st ≡ some last)
        × (last.part_results ≡ st'.part_results)
  unfolding parse_sides assume_sides
  sides_agree [] st st' h = (st, refl, ap_results h)
  sides_agree (sub ∷ []) st st' h =
      let (next, read, h₁) = >>=-eq-ok (parse_first e sub st) _ h in
      (next, rw (first_agrees sub st next read), ap_results h₁)
  sides_agree (sub ∷ more ∷ []) st st' h =
      let (next, read, h₁) = >>=-eq-ok (parse_first e sub st) _ h in
      let (next', read', h₂) = >>=-eq-ok (parse_second e more next) _ h₁ in
      let (last, run, same) = second_agrees more next next' read' in
      (last, rw (first_agrees sub st next read, run), same ∙ ap_results h₂)
  sides_agree (sub ∷ more ∷ third ∷ subs) st st' h =
      let (next, read, h₁) = >>=-eq-ok (parse_first e sub st) _ h in
      let (next', read', h₂) = >>=-eq-ok (parse_second e more next) _ h₁ in cc

-- On every text that address_v6::from_string reads as an address, no assumption of
-- address_v6::from_string_uncheck fails and it reads the same address.
pub from_string_uncheck-agrees_v6 :
    (e : Endian) (text : Bytes) (a : AddressV6)
    → from_string e text ≡ ok a
    → from_string_uncheck e text ≡ some a
unfolding from_string from_string_uncheck finish
from_string_uncheck-agrees_v6 e text a h =
    let (short, h₁) =
      require_cases (not (is_empty text || ltb 45 (length text))) invalid_argument _ h in
    let (st, read, h₂) = >>=-eq-ok (parse_sides e (split_pair b':' b':' text) 0 start) _ h₁ in
    let (whole, h₃) = require_cases (st.part_count == 8) invalid_argument _ h₂ in
    let (last, run, same) = sides_agree e (split_pair b':' b':' text) start st read in
    let named : AddressV6 = record { addr = hton_words e st.part_results } in
    let made : named ≡ a = cc in rw (run, same) (ap some made)
