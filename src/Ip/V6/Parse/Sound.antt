-- ===== src/Ip/V6/Parse/Sound.antt =====
-- What `address_v6::from_string` reads is eight 16-bit words.
use iouxx.Base.{
  ℕ, zero, suc, ◌+◌, ◌-◌, ◌≤◌, not, ◌||◌, List, [], ◌∷◌, ◌++◌, ◌==◌, ltb, Bytes, length, get_or,
  set, take, drop, ◌≡◌, refl, subst, ◌∙◌, arith, All, All-append, Bool-cases, inl, inr, length-set,
  length-append, length-take, length-drop,
}
use iouxx.Base.Result.{ok, invalid_argument, >>=-eq-ok, require_cases}
use iouxx.Text.Split.{contains, split, split_pair}
use iouxx.Text.Number.{from_chars, parsed}
use iouxx.Text.Number.Canonical.{from_chars_cases}
use iouxx.Ip.Bytes.{
  Endian, little, big, hton_16, hton_words, halves, IsWord, hton_16-IsWord, hton_words-IsWord,
  length-hton_words,
}
use iouxx.Ip.V4
use iouxx.Ip.V4.{AddressV4, is_empty, consumed}
use iouxx.Ip.V4.Sound.{consumed_cases}
use iouxx.Ip.V6.{AddressV6, IsAddressV6}
use iouxx.Ip.V6.Parse.{
  Progress, start, put_ipv4, put_group, or_invalid, parse_ipv4_section, parse_hex_section,
  parse_one_section, parse_sections, parse_first, spread, parse_second, parse_sides, finish, rotate,
  from_string,
}

module _ {ℓ κ} {A : Type ℓ} (P : A → Type κ) where
  All-set : (xs : List A) (i : ℕ) (v : A) → All P xs → P v → All P (set xs i v)
  All-set [] i v h p = h
  All-set (x ∷ xs) zero v h p = (p, h.1)
  All-set (x ∷ xs) (suc i) v h p = (h.0, All-set xs i v h.1 p)

  All-take : (n : ℕ) (xs : List A) → All P xs → All P (take n xs)
  All-take zero xs h = tt
  All-take (suc n) [] h = tt
  All-take (suc n) (x ∷ xs) h = (h.0, All-take n xs h.1)

  All-drop : (n : ℕ) (xs : List A) → All P xs → All P (drop n xs)
  All-drop zero xs h = h
  All-drop (suc n) [] h = tt
  All-drop (suc n) (x ∷ xs) h = All-drop n xs h.1

halves-IsWord :
    (e : Endian) (n : ℕ) → IsWord (get_or (halves e n) 0 0) × IsWord (get_or (halves e n) 1 0)
unfolding halves
halves-IsWord little n = (omega arith, omega arith)
halves-IsWord big n = (omega arith, omega arith)

from_chars-below : (max n : ℕ) (s : Bytes) → from_chars 16 max s ≡ parsed n [] → n ≤ max
from_chars-below max n [] h = absurd (unfold from_chars in cc)
from_chars-below max n (c ∷ s) h = let (d, digit, read, le) = from_chars_cases 16 max n c s h in le

-- The array of the parser, and how far it has come.
record IsFilled (from : ℕ) (st : Progress) : Type 0 where
  eight : length st.part_results ≡ 8
  words : All IsWord st.part_results
  further : from ≤ st.part_count

module _ (e : Endian) where
  put_ipv4-IsFilled :
      (v4 : AddressV4) (st : Progress) → IsFilled 0 st → IsFilled st.part_count (put_ipv4 e v4 st)
  unfolding put_ipv4
  put_ipv4-IsFilled v4 st f =
      let (first, second) = halves-IsWord e v4.addr in
      let once = set st.part_results st.part_count (hton_16 e (get_or (halves e v4.addr) 0 0)) in
      record {
        eight =
            length-set once (st.part_count + 1) (hton_16 e (get_or (halves e v4.addr) 1 0))
            ∙ length-set st.part_results st.part_count (hton_16 e (get_or (halves e v4.addr) 0 0))
            ∙ f.eight;
        words =
            All-set IsWord once (st.part_count + 1) (hton_16 e (get_or (halves e v4.addr) 1 0))
              (All-set IsWord st.part_results st.part_count
                (hton_16 e (get_or (halves e v4.addr) 0 0)) f.words
                (hton_16-IsWord e (get_or (halves e v4.addr) 0 0) first))
              (hton_16-IsWord e (get_or (halves e v4.addr) 1 0) second);
        further = omega arith;
      }

  put_group-IsFilled :
      (n : ℕ) (st : Progress) → IsWord n → IsFilled 0 st → IsFilled st.part_count (put_group n st)
  unfolding put_group
  put_group-IsFilled n st h f = record {
    eight = length-set st.part_results st.part_count n ∙ f.eight;
    words = All-set IsWord st.part_results st.part_count n f.words h;
    further = omega arith;
  }

  one_section-IsFilled :
      (sub : Bytes) (st st' : Progress)
      → IsFilled 0 st
      → parse_one_section e sub st ≡ ok st'
      → IsFilled st.part_count st'
  unfolding parse_one_section parse_ipv4_section parse_hex_section
  one_section-IsFilled sub st st' f h = elim (Bool-cases (contains sub b'.')) [
    | inl dotted ↦
        let (room, h₁) =
          require_cases (not (ltb 6 st.part_count)) invalid_argument _ (rw dotted at h) in
        let (v4, read, h₂) = >>=-eq-ok (or_invalid (V4.from_string e sub)) _ h₁ in
        let same : put_ipv4 e v4 st ≡ st' = cc in
        subst (IsFilled st.part_count) same (put_ipv4-IsFilled v4 st f)
    | inr plain ↦
        let (room, h₁) = require_cases (ltb st.part_count 8) invalid_argument _ (rw plain at h) in
        let (short, h₂) = require_cases (not (ltb 4 (length sub))) invalid_argument _ h₁ in
        let (n, read, h₃) = >>=-eq-ok (consumed (from_chars 16 0xffff sub)) _ h₂ in
        let le = from_chars-below 0xffff n sub (consumed_cases _ read) in
        let same : put_group n st ≡ st' = cc in
        subst (IsFilled st.part_count) same (put_group-IsFilled n st (omega arith) f)
  ]

  weaker : (m n : ℕ) (st : Progress) → m ≤ n → IsFilled n st → IsFilled m st
  weaker m n st h f = record {
    eight = f.eight;
    words = f.words;
    further = omega (arith, f.further);
  }

  sections-IsFilled :
      (subs : List Bytes) (st st' : Progress)
      → IsFilled 0 st
      → parse_sections e subs st ≡ ok st'
      → IsFilled st.part_count st'
  unfolding parse_sections
  sections-IsFilled [] st st' f h =
      let same : st ≡ st' = cc in
      subst (IsFilled st.part_count) same
        (record { eight = f.eight; words = f.words; further = omega arith })
  sections-IsFilled (sub ∷ subs) st st' f h =
      let (first, h₁) = require_cases (not st.seen_ipv4) invalid_argument _ h in
      let (some_text, h₂) = require_cases (not (is_empty sub)) invalid_argument _ h₁ in
      let (next, read, h₃) = >>=-eq-ok (parse_one_section e sub st) _ h₂ in
      let g = one_section-IsFilled sub st next f read in
      weaker st.part_count next.part_count st' g.further
        (sections-IsFilled subs next st' (weaker 0 st.part_count next (omega arith) g) h₃)

  first-IsFilled :
      (sub : Bytes) (st st' : Progress)
      → IsFilled 0 st
      → parse_first e sub st ≡ ok st'
      → IsFilled 0 st'
  unfolding parse_first
  first-IsFilled [] st st' f h = let same : st ≡ st' = cc in subst (IsFilled 0) same f
  first-IsFilled (c ∷ sub) st st' f h =
      weaker 0 st.part_count st' (omega arith) (sections-IsFilled (split b':' (c ∷ sub)) st st' f h)

  rotate-IsFilled :
      (first : ℕ) (st : Progress)
      → IsFilled first st
      → st.part_count ≤ 8
      → IsFilled 0
          (record st { part_results = rotate first st.part_count st.part_results; part_count = 8 })
  unfolding rotate
  rotate-IsFilled first st f h =
      let ws = st.part_results in
      let behind = take (st.part_count - first) (drop first ws) in
      record {
        eight =
            length-append (take first ws) (drop st.part_count ws ++ behind)
            ∙ omega (
              arith,
              length-append (drop st.part_count ws) behind,
              length-take first ws,
              length-drop st.part_count ws,
              length-take (st.part_count - first) (drop first ws),
              length-drop first ws,
              f.eight,
              f.further,
            );
        words =
            All-append IsWord (take first ws) (drop st.part_count ws ++ behind)
              (All-take IsWord first ws f.words)
              (All-append IsWord (drop st.part_count ws) behind
                (All-drop IsWord st.part_count ws f.words)
                (All-take IsWord (st.part_count - first) (drop first ws)
                  (All-drop IsWord first ws f.words)));
        further = omega arith;
      }

  second-IsFilled :
      (sub : Bytes) (st st' : Progress)
      → IsFilled 0 st
      → parse_second e sub st ≡ ok st'
      → IsFilled 0 st'
  unfolding parse_second spread
  second-IsFilled [] st st' f h =
      let (first, h₁) = require_cases (not st.seen_ipv4) invalid_argument _ h in
      let whole : Progress = record st { part_count = 8 } in
      let same : whole ≡ st' = cc in
      subst (IsFilled 0) same (record { eight = f.eight; words = f.words; further = omega arith })
  second-IsFilled (c ∷ sub) st st' f h =
      let (first, h₁) = require_cases (not st.seen_ipv4) invalid_argument _ h in
      let (next, read, h₂) = >>=-eq-ok (parse_sections e (split b':' (c ∷ sub)) st) _ h₁ in
      let (room, h₃) = require_cases (ltb next.part_count 8) invalid_argument _ h₂ in
      let g = sections-IsFilled (split b':' (c ∷ sub)) st next f read in
      let whole : Progress = record next {
        part_results = rotate st.part_count next.part_count next.part_results;
        part_count = 8;
      } in
      let same : whole ≡ st' = cc in
      subst (IsFilled 0) same (rotate-IsFilled st.part_count next g (ground arith))

  sides-IsFilled :
      (subs : List Bytes) (st st' : Progress)
      → IsFilled 0 st
      → parse_sides e subs 0 st ≡ ok st'
      → IsFilled 0 st'
  unfolding parse_sides
  sides-IsFilled [] st st' f h = let same : st ≡ st' = cc in subst (IsFilled 0) same f
  sides-IsFilled (sub ∷ []) st st' f h =
      let (next, read, h₁) = >>=-eq-ok (parse_first e sub st) _ h in
      let same : next ≡ st' = cc in subst (IsFilled 0) same (first-IsFilled sub st next f read)
  sides-IsFilled (sub ∷ more ∷ []) st st' f h =
      let (next, read, h₁) = >>=-eq-ok (parse_first e sub st) _ h in
      let (next', read', h₂) = >>=-eq-ok (parse_second e more next) _ h₁ in
      let same : next' ≡ st' = cc in
      subst (IsFilled 0) same
        (second-IsFilled more next next' (first-IsFilled sub st next f read) read')
  sides-IsFilled (sub ∷ more ∷ third ∷ subs) st st' f h =
      let (next, read, h₁) = >>=-eq-ok (parse_first e sub st) _ h in
      let (next', read', h₂) = >>=-eq-ok (parse_second e more next) _ h₁ in cc

-- What is read are eight 16-bit words.
pub from_string-IsAddressV6 :
    (e : Endian) (text : Bytes) (a : AddressV6) → from_string e text ≡ ok a → IsAddressV6 a
unfolding from_string finish
from_string-IsAddressV6 e text a h =
    let (short, h₁) =
      require_cases (not (is_empty text || ltb 45 (length text))) invalid_argument _ h in
    let (st, read, h₂) = >>=-eq-ok (parse_sides e (split_pair b':' b':' text) 0 start) _ h₁ in
    let (whole, h₃) = require_cases (st.part_count == 8) invalid_argument _ h₂ in
    let blank : IsFilled 0 start = record {
      eight = refl;
      words = (
        omega arith,
        (
          omega arith,
          (
            omega arith,
            (omega arith, (omega arith, (omega arith, (omega arith, (omega arith, tt))))),
          ),
        ),
      );
      further = omega arith;
    } in
    let f = sides-IsFilled e (split_pair b':' b':' text) start st blank read in
    let named : AddressV6 = record { addr = hton_words e st.part_results } in
    let made : named ≡ a = cc in
    subst IsAddressV6 made
      (length-hton_words e st.part_results ∙ f.eight, hton_words-IsWord e st.part_results f.words)
