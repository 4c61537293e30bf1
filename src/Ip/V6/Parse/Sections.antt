-- ===== src/Ip/V6/Parse/Sections.antt =====
-- What the parts between single colons are in a text that `address_v6::from_string` accepts.
use iouxx.Base.{
  ℕ, ◌+◌, ◌≤◌, true, false, not, List, [], ◌∷◌, ◌++◌, ltb, Bytes, length, ◌<◌, append-nil,
  append_assoc, ◌≡◌, refl, sym, ap, ap₂, subst, ◌∙◌, arith, All, Bool-cases, inl, inr,
  length-append,
}
use iouxx.Base.Result.{ok, invalid_argument, >>=-eq-ok, require_cases}
use iouxx.Text.Split.{contains}
use iouxx.Text.Number.{from_chars}
use iouxx.Text.Number.Numerals.{from_chars-IsNumeral}
use iouxx.Ip.Bytes.{Endian, IsByte, load_32, load_32-store_32, store_32-IsByte, store_32_parts}
use iouxx.Ip.V4
use iouxx.Ip.V4.{AddressV4, is_empty, consumed, format_parts, to_string}
use iouxx.Ip.V4.Sound.{consumed_cases, from_string_sound}
use iouxx.Ip.V4.Print.{to_string-parts}
use iouxx.Ip.V6.Parse.{
  Progress, put_ipv4, put_group, or_invalid, parse_ipv4_section, parse_hex_section,
  parse_one_section, parse_sections,
}
use iouxx.Ip.V6.Parse.Uncheck.{valid-v4}
use iouxx.Ip.V6.Parse.Fill.{
  filled, put_group-filled, put_ipv4-filled, IsGroup, AreGroups, Tail, no_tail, quad, IsTail,
  tail_words, tail_texts, tail_seen,
}

-- What one section is: a group, or an IPv4 address at the end.
data IsSection (sub : Bytes) (done : List ℕ) (st : Progress) : Type 0 where
  group :
      (w : ℕ)
      → IsGroup w sub
      → length done < 8
      → st ≡ filled (done ++ w ∷ []) false
      → IsSection sub done st
  address :
      (p q r s : ℕ)
      → IsTail (quad p q r s)
      → sub ≡ format_parts (p ∷ q ∷ r ∷ s ∷ [])
      → length done ≤ 6
      → st ≡ filled (done ++ tail_words (quad p q r s)) true
      → IsSection sub done st

module _ (e : Endian) where
  quad_of :
      (sub : Bytes) (v4 : AddressV4)
      → V4.from_string e sub ≡ ok v4
      → (p : ℕ) × (q : ℕ) × (r : ℕ) × (s : ℕ) × IsTail (quad p q r s)
        × (sub ≡ format_parts (p ∷ q ∷ r ∷ s ∷ []))
        × (v4 ≡ record { addr = load_32 e (p ∷ q ∷ r ∷ s ∷ []) })
  quad_of sub v4 h =
      let (text, fits) = from_string_sound e sub h in
      let (p, q, r, s, parts) = store_32_parts e v4.addr in
      (
        p,
        q,
        r,
        s,
        subst (All IsByte) parts (store_32-IsByte e v4.addr),
        text ∙ to_string-parts e v4 ∙ ap format_parts parts,
        ap (λ n. record { addr = n })
            (sym (load_32-store_32 e v4.addr fits) ∙ ap (load_32 e) parts),
      )

  one_section-IsSection :
      (sub : Bytes) (done : List ℕ) (st : Progress)
      → parse_one_section e sub (filled done false) ≡ ok st
      → IsSection sub done st
  unfolding parse_one_section parse_ipv4_section parse_hex_section
  one_section-IsSection sub done st h = elim (Bool-cases (contains sub b'.')) [
    | inl dotted ↦
        let (room, h₁) =
          require_cases (not (ltb 6 (length done))) invalid_argument _ (rw dotted at h) in
        let (v4, read, h₂) = >>=-eq-ok (or_invalid (V4.from_string e sub)) _ h₁ in
        let (p, q, r, s, bytes, text, made) = quad_of sub v4 (valid-v4 _ read) in
        let same : put_ipv4 e v4 (filled done false) ≡ st = cc in
        let fits : length done ≤ 6 = ground arith in
        address p q r s bytes text fits (
          sym same
          ∙ ap (λ v. put_ipv4 e v (filled done false)) made
          ∙ put_ipv4-filled e p q r s done bytes fits)
    | inr plain ↦
        let (room, h₁) = require_cases (ltb (length done) 8) invalid_argument _ (rw plain at h) in
        let (short, h₂) = require_cases (not (ltb 4 (length sub))) invalid_argument _ h₁ in
        let (n, read, h₃) = >>=-eq-ok (consumed (from_chars 16 0xffff sub)) _ h₂ in
        let (numeral, le) = from_chars-IsNumeral 16 0xffff n sub (consumed_cases _ read) in
        let same : put_group n (filled done false) ≡ st = cc in
        let fits : length done < 8 = ground arith in
        let four : length sub ≤ 4 = ground arith in
        group n (omega arith, numeral, four) fits (sym same ∙ put_group-filled done n fits)
  ]

  -- Behind an embedded IPv4 address stands nothing.
  sections_end :
      (subs : List Bytes) (st st' : Progress)
      → st.seen_ipv4 ≡ true
      → parse_sections e subs st ≡ ok st'
      → (subs ≡ []) × (st ≡ st')
  unfolding parse_sections
  sections_end [] st st' seen h = (refl, cc)
  sections_end (sub ∷ subs) st st' seen h = absurd (cc (rw seen at h))

  -- What the parts between single colons are: groups, and an IPv4 address at the end or none.
  pub record IsSequence (subs : List Bytes) (done : List ℕ) (st : Progress) : Type 0 where
    pub words : List ℕ
    pub texts : List Bytes
    pub last : Tail
    pub groups : AreGroups words texts
    pub bytes : IsTail last
    pub parts : subs ≡ texts ++ tail_texts last
    pub room : length done + length words + length (tail_words last) ≤ 8
    pub result : st ≡ filled (done ++ (words ++ tail_words last)) (tail_seen last)

  -- A group in front.
  IsSequence-cons :
      (sub : Bytes) (w : ℕ) (subs : List Bytes) (done : List ℕ) (st : Progress)
      → IsGroup w sub
      → IsSequence subs (done ++ w ∷ []) st
      → IsSequence (sub ∷ subs) done st
  IsSequence-cons sub w subs done st g rest = record {
    words = w ∷ rest.words;
    texts = sub ∷ rest.texts;
    last = rest.last;
    groups = (g, rest.groups);
    bytes = rest.bytes;
    parts = ap (◌∷◌ sub) rest.parts;
    room = omega (arith, length-append done (w ∷ []), rest.room);
    result =
        rest.result
        ∙ ap (λ ws. filled ws (tail_seen rest.last))
            (append_assoc done (w ∷ []) (rest.words ++ tail_words rest.last));
  }

  pub sections-IsSequence :
      (subs : List Bytes) (done : List ℕ) (st : Progress)
      → length done ≤ 8
      → parse_sections e subs (filled done false) ≡ ok st
      → IsSequence subs done st
  unfolding parse_sections
  sections-IsSequence [] done st le h = record {
    words = [];
    texts = [];
    last = no_tail;
    groups = tt;
    bytes = tt;
    parts = refl;
    room = omega arith;
    result =
        let same : filled done false ≡ st = cc in
        sym same ∙ ap (λ ws. filled ws false) (sym (append-nil done));
  }
  sections-IsSequence (sub ∷ subs) done st le h =
      let (some_text, h₁) = require_cases (not (is_empty sub)) invalid_argument _ h in
      let (next, read, h₂) = >>=-eq-ok (parse_one_section e sub (filled done false)) _ h₁ in
      elim (one_section-IsSection sub done next read) [
        | group w g less eq ↦ IsSequence-cons sub w subs done st g (
            sections-IsSequence subs (done ++ w ∷ []) st
              (omega (arith, length-append done (w ∷ [])))
              (ap (parse_sections e subs) (sym eq) ∙ h₂))
        | address p q r s bytes text fits eq ↦
            let (none_left, same) = sections_end subs next st (ap (λ n. n.seen_ipv4) eq) h₂ in
            record {
              words = [];
              texts = [];
              last = quad p q r s;
              groups = tt;
              bytes = bytes;
              parts = ap₂ ◌∷◌ text none_left;
              room = omega arith;
              result = sym same ∙ eq;
            }
      ]
