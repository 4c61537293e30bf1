-- ===== src/Ip/V6/Parse/Grammar.antt =====
-- Whatever `address_v6::from_string` accepts has one of the forms of Shapes.
use iouxx.Base.{
  ℕ, ◌+◌, ◌≤◌, true, false, not, ◌||◌, List, [], ◌∷◌, ◌++◌, ◌==◌, ltb, Bytes, length, append-nil,
  ◌≡◌, ◌↔◌, refl, sym, ap, ap₂, ◌∙◌, arith, length-append,
}
use iouxx.Base.Result.{ok, invalid_argument, >>=-eq-ok, require_cases}
use iouxx.Text.Split.{split, split_pair}
use iouxx.Ip.Bytes.{Endian}
use iouxx.Ip.V4.{is_empty}
use iouxx.Ip.V6.{AddressV6}
use iouxx.Ip.V6.Parse.{
  Progress, start, parse_sections, parse_first, spread, parse_second, parse_sides, finish,
  from_string,
}
use iouxx.Text.Split.Laws.{parts_by-IsSplit}
use iouxx.Text.Split.Whole.{paired, paired-split_pair}
use iouxx.Ip.V6.Parse.Sides.{side}
use iouxx.Ip.V6.Parse.Fill.{
  filled, AreGroups, Tail, no_tail, quad, tail_words, tail_texts, tail_seen,
}
use iouxx.Ip.V6.Parse.Sections.{IsSequence, sections-IsSequence}
use iouxx.Ip.V6.Parse.Shapes.{IsForm, full, compressed, trailing, from_string-IsForm}

side-split : (s : Bytes) → side (split b':' s) ≡ s
unfolding split
side-split [] = refl
side-split (c ∷ s) = let it = parts_by-IsSplit b':' (c ∷ s) in rw it.parts it.whole

module _ (e : Endian) where
  first-IsSequence :
      (sub : Bytes) (st : Progress)
      → parse_first e sub start ≡ ok st
      → IsSequence e (split b':' sub) [] st
  unfolding parse_first
  first-IsSequence [] st h =
      sections-IsSequence e (split b':' []) [] st (omega arith) (unfold split parse_sections in h)
  first-IsSequence (c ∷ sub) st h =
      sections-IsSequence e (split b':' (c ∷ sub)) [] st (omega arith) h

  same_address : {a b : AddressV6} → ok a ≡ ok b → a ≡ b
  same_address h = cc

  no_tail_of : (t : Tail) → not (tail_seen t) ≡ true → t ≡ no_tail
  no_tail_of no_tail h = refl
  no_tail_of (quad p q r s) h = absurd (cc)

  short_text :
      (text : Bytes) → not (is_empty text || ltb 45 (length text)) ≡ true → length text ≤ 45
  short_text [] h = omega arith
  short_text (c ∷ text) h = ground arith

  -- The part before "::", where a part behind it may stand: groups.
  record AreLeft (sub : Bytes) (st : Progress) : Type 0 where
    words : List ℕ
    texts : List Bytes
    groups : AreGroups words texts
    room : length words ≤ 8
    whole : sub ≡ side texts
    result : st ≡ filled words false

  left-AreLeft :
      (sub : Bytes) (st : Progress)
      → parse_first e sub start ≡ ok st
      → not st.seen_ipv4 ≡ true
      → AreLeft sub st
  left-AreLeft sub st first seen =
      let l = first-IsSequence sub st first in
      let quiet : not (tail_seen l.last) ≡ true = ap (λ n. not n.seen_ipv4) (sym l.result) ∙ seen in
      let none_last = no_tail_of l.last quiet in
      record {
        words = l.words;
        texts = l.texts;
        groups = l.groups;
        room = omega (arith, l.room);
        whole =
            sym (side-split sub)
            ∙ ap side (l.parts ∙ ap (λ t. l.texts ++ tail_texts t) none_last ∙ append-nil l.texts);
        result =
            l.result
            ∙ ap (λ t. filled (l.words ++ tail_words t) (tail_seen t)) none_last
            ∙ ap (λ ws. filled ws false) (append-nil l.words);
      }

  trailing-IsForm :
      (sub text : Bytes) (st st' : Progress) (a : AddressV6)
      → text ≡ sub ++ b':' ∷ b':' ∷ []
      → parse_first e sub start ≡ ok st
      → parse_second e [] st ≡ ok st'
      → from_string e text ≡ ok a
      → length text ≤ 45
      → IsForm e text a
  unfolding parse_second
  trailing-IsForm sub text st st' a whole first second h le =
      let (seen, h₁) = require_cases (not st.seen_ipv4) invalid_argument _ second in
      let l = left-AreLeft sub st first seen in
      let whole' = whole ∙ ap (λ s. s ++ b':' ∷ b':' ∷ []) l.whole in
      let read =
        from_string-IsForm e text _ (trailing l.words l.texts l.groups l.room whole' refl) le in
      trailing l.words l.texts l.groups l.room whole' (same_address (sym h ∙ read))

  compressed-IsForm :
      (sub more text : Bytes) (c : ℕ) (st st' : Progress) (a : AddressV6)
      → text ≡ sub ++ b':' ∷ b':' ∷ c ∷ more
      → parse_first e sub start ≡ ok st
      → parse_second e (c ∷ more) st ≡ ok st'
      → from_string e text ≡ ok a
      → length text ≤ 45
      → IsForm e text a
  unfolding parse_second spread
  compressed-IsForm sub more text c st st' a whole first second h le =
      let (seen, h₁) = require_cases (not st.seen_ipv4) invalid_argument _ second in
      let (next, read, h₂) = >>=-eq-ok (parse_sections e (split b':' (c ∷ more)) st) _ h₁ in
      let (below, h₃) = require_cases (ltb next.part_count 8) invalid_argument _ h₂ in
      let lower : next.part_count ≤ 7 = ground arith in
      let l = left-AreLeft sub st first seen in
      let r =
        sections-IsSequence e (split b':' (c ∷ more)) l.words next l.room
          (ap (parse_sections e (split b':' (c ∷ more))) (sym l.result) ∙ read) in
      let count : next.part_count ≡ length (l.words ++ (r.words ++ tail_words r.last)) =
        ap (λ n. n.part_count) r.result in
      let room : length l.words + length r.words + length (tail_words r.last) ≤ 7 = omega (
        arith,
        lower,
        count,
        length-append l.words (r.words ++ tail_words r.last),
        length-append r.words (tail_words r.last),
      ) in
      let right : c ∷ more ≡ side (r.texts ++ tail_texts r.last) =
        sym (side-split (c ∷ more)) ∙ ap side r.parts in
      let whole' = whole ∙ ap₂ (λ s t. s ++ b':' ∷ b':' ∷ t) l.whole right in
      let read =
        from_string-IsForm e text _
          (compressed l.words r.words l.texts r.texts r.last l.groups r.groups r.bytes room whole'
            refl)
          le in
      compressed l.words r.words l.texts r.texts r.last l.groups r.groups r.bytes room whole'
        (same_address (sym h ∙ read))

  full-IsForm :
      (text : Bytes) (st : Progress) (a : AddressV6)
      → parse_first e text start ≡ ok st
      → st.part_count ≡ 8
      → from_string e text ≡ ok a
      → length text ≤ 45
      → IsForm e text a
  full-IsForm text st a first eight h le =
      let l = first-IsSequence text st first in
      let words : length (l.words ++ tail_words l.last) ≡ 8 =
        ap (λ n. n.part_count) (sym l.result) ∙ eight in
      let whole = sym (side-split text) ∙ ap side l.parts in
      let read =
        from_string-IsForm e text _ (full l.words l.texts l.last l.groups l.bytes words whole refl)
          le in
      full l.words l.texts l.last l.groups l.bytes words whole (same_address (sym h ∙ read))

  sides-IsForm :
      (subs : List Bytes) (text : Bytes) (st : Progress) (a : AddressV6)
      → paired b':' b':' subs ≡ text
      → parse_sides e subs 0 start ≡ ok st
      → st.part_count ≡ 8
      → from_string e text ≡ ok a
      → length text ≤ 45
      → IsForm e text a
  unfolding parse_sides
  sides-IsForm [] text st a whole h eight read le =
      let same : start ≡ st = cc in absurd (omega (arith, ap (λ n. n.part_count) same, eight))
  sides-IsForm (sub ∷ []) text st a whole h eight read le =
      let (next, first, h₁) = >>=-eq-ok (parse_first e sub start) _ h in
      let same : next ≡ st = cc in
      full-IsForm text next a (ap (λ s. parse_first e s start) (sym whole) ∙ first)
        (ap (λ n. n.part_count) same ∙ eight) read le
  sides-IsForm (sub ∷ [] ∷ []) text st a whole h eight read le =
      let (next, first, h₁) = >>=-eq-ok (parse_first e sub start) _ h in
      let (next', second, h₂) = >>=-eq-ok (parse_second e [] next) _ h₁ in
      trailing-IsForm sub text next next' a (sym whole) first second read le
  sides-IsForm (sub ∷ (c ∷ more) ∷ []) text st a whole h eight read le =
      let (next, first, h₁) = >>=-eq-ok (parse_first e sub start) _ h in
      let (next', second, h₂) = >>=-eq-ok (parse_second e (c ∷ more) next) _ h₁ in
      compressed-IsForm sub more text c next next' a (sym whole) first second read le
  sides-IsForm (sub ∷ more ∷ third ∷ subs) text st a whole h eight read le =
      let (next, first, h₁) = >>=-eq-ok (parse_first e sub start) _ h in
      let (next', second, h₂) = >>=-eq-ok (parse_second e more next) _ h₁ in absurd (cc)

  accepted :
      (text : Bytes) (a : AddressV6)
      → from_string e text ≡ ok a
      → IsForm e text a × (length text ≤ 45)
  unfolding from_string finish
  accepted text a h =
      let (guarded, h₁) =
        require_cases (not (is_empty text || ltb 45 (length text))) invalid_argument _ h in
      let (st, read, h₂) = >>=-eq-ok (parse_sides e (split_pair b':' b':' text) 0 start) _ h₁ in
      let (whole, h₃) = require_cases (st.part_count == 8) invalid_argument _ h₂ in
      let short : length text ≤ 45 = short_text text guarded in
      let eight : st.part_count ≡ 8 = ground arith in
      (
        sides-IsForm (split_pair b':' b':' text) text st a (paired-split_pair b':' b':' text) read
            eight h short,
        short,
      )

  -- address_v6::from_string reads a text as an address exactly if the text has at most 45 bytes and
  -- one of three forms, with groups of up to four hexadecimal digits between single colons and an
  -- embedded IPv4 address of four decimal bytes at the end or none, and the address has the words
  -- of that form: eight words; at most seven words with "::" somewhere for the missing zeros, which
  -- are there in the address; or up to eight groups with "::" behind them.
  pub from_string_iff_v6 :
      (text : Bytes) (a : AddressV6)
      → (from_string e text ≡ ok a) ↔ (IsForm e text a × (length text ≤ 45))
  from_string_iff_v6 text a =
      (λ h. accepted text a h, λ form. from_string-IsForm e text a form.0 form.1)
