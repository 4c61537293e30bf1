-- ===== src/Ip/V6/Parse/Forms.antt =====
-- The forms of an IPv6 text that `address_v6::from_string` accepts, and the address of each.
use iouxx.Base.{
  ℕ, ◌+◌, ◌≤◌, false, List, [], ◌∷◌, ◌++◌, append-nil, ◌≡◌, ◌≢◌, refl, sym, ap, ◌∙◌, arith, Bytes,
  All, length, length-append,
}
use iouxx.Base.Result.{ok, ◌>>=◌}
use iouxx.Text.Split.{split_pair}
use iouxx.Text.Split.Laws.{joined-ne-nil}
use iouxx.Text.Split.Pairs.{IsPart, IsSeamless, split_pair-one, split_pair-two}
use iouxx.Ip.Bytes.{Endian, hton_words}
use iouxx.Ip.V4.RoundTrip.{length_guard}
use iouxx.Ip.V6.Parse.{Progress, start, parse_first, parse_second, parse_sides, finish, from_string}
use iouxx.Ip.V6.Parse.Fill.{
  filled, AreGroups, Tail, no_tail, quad, IsTail, tail_words, tail_texts, tail_seen,
}
use iouxx.Ip.V6.Parse.Sides.{
  side, parts-IsPart, groups-IsPart, side-IsSeamless, parse_first-filled, parse_second-filled,
  parse_second-nil, spread_out,
}

from_string-sides :
    (e : Endian) (text : Bytes)
    → text ≢ []
    → length text ≤ 45
    → from_string e text ≡ (parse_sides e (split_pair b':' b':' text) 0 start >>= finish e)
from_string-sides e text ne le = unfold from_string in rw (from_string, length_guard 45 text ne le)

split-one : (t : Bytes) → t ≢ [] → IsSeamless b':' b':' t → split_pair b':' b':' t ≡ t ∷ []
split-one [] ne h = absurd (ne refl)
split-one (c ∷ t) ne h = split_pair-one b':' b':' c t h

finish-filled :
    (e : Endian) (ws : List ℕ) (t : Tail)
    → length ws ≡ 8
    → finish e (filled ws (tail_seen t)) ≡ ok (record { addr = hton_words e ws })
unfolding finish
finish-filled e ws t h =
    rw (finish, h) (ap (λ r. ok (record { addr = hton_words e r })) (append-nil ws))

parse_sides-one :
    (e : Endian) (text : Bytes) {st : Progress}
    → parse_first e text start ≡ ok st
    → parse_sides e (text ∷ []) 0 start ≡ ok st
unfolding parse_sides
parse_sides-one e text h = rw h

parse_sides-two :
    (e : Endian) (text more : Bytes) {st st' : Progress}
    → parse_first e text start ≡ ok st
    → parse_second e more st ≡ ok st'
    → parse_sides e (text ∷ more ∷ []) 0 start ≡ ok st'
unfolding parse_sides
parse_sides-two e text more h h' = rw (h, h')

append_cons-ne-nil : (s : Bytes) (c : ℕ) (r : Bytes) → s ++ c ∷ r ≢ []
append_cons-ne-nil [] c r e = cc
append_cons-ne-nil (d ∷ s) c r e = cc

no_parts :
    (ws : List ℕ) (texts : List Bytes) (t : Tail)
    → AreGroups ws texts
    → texts ++ tail_texts t ≡ []
    → length (ws ++ tail_words t) ≡ 0
no_parts [] [] no_tail g e = refl
no_parts (w ∷ ws) [] no_tail g e = elim g [ ]
no_parts ws [] (quad p q r s) g e = cc
no_parts ws (s ∷ texts) t g e = cc

side-ne-nil : (ps : List Bytes) → All (IsPart b':') ps → ps ≢ [] → side ps ≢ []
side-ne-nil [] h ne = absurd (ne refl)
side-ne-nil (p ∷ ps) (h, hs) ne = joined-ne-nil b':' p ps h.1

-- For groups of up to four hexadecimal digits and an embedded IPv4 address of four bytes or none
-- behind them, where the words number eight and the text has at most 45 bytes,
-- address_v6::from_string reads these words.
pub from_string-full :
    (e : Endian) (ws : List ℕ) (texts : List Bytes) (t : Tail)
    → AreGroups ws texts
    → IsTail t
    → length (ws ++ tail_words t) ≡ 8
    → length (side (texts ++ tail_texts t)) ≤ 45
    → from_string e (side (texts ++ tail_texts t))
      ≡ ok (record { addr = hton_words e (ws ++ tail_words t) })
from_string-full e ws texts t g h eight le =
    let parts = parts-IsPart e ws texts t g h in
    let ne : texts ++ tail_texts t ≢ [] = λ z. omega (arith, no_parts ws texts t g z) in
    let text = side (texts ++ tail_texts t) in
    let nonempty = side-ne-nil _ parts ne in
    let room : length ws + length (tail_words t) ≤ 8 =
      omega (arith, length-append {0} ws (tail_words t)) in
    from_string-sides e text nonempty le
    ∙ rw
        (
          split-one text nonempty (side-IsSeamless _ parts),
          parse_sides-one e text (parse_first-filled e ws texts t g h room),
        )
        (finish-filled e (ws ++ tail_words t) t eight)

-- For groups of up to four hexadecimal digits on both sides of "::" and an embedded IPv4 address of
-- four bytes or none behind them, where the words number at most seven and the text at most 45
-- bytes, address_v6::from_string reads the words with the missing zeros between the two sides.
pub from_string-compressed :
    (e : Endian) (before after : List ℕ) (left right : List Bytes) (t : Tail)
    → AreGroups before left
    → AreGroups after right
    → IsTail t
    → length before + length after + length (tail_words t) ≤ 7
    → length (side left ++ b':' ∷ b':' ∷ side (right ++ tail_texts t)) ≤ 45
    → from_string e (side left ++ b':' ∷ b':' ∷ side (right ++ tail_texts t))
      ≡ ok (record { addr = hton_words e (spread_out before (after ++ tail_words t)) })
from_string-compressed e before after left right t gl gr h room le =
    let parts = parts-IsPart e after right t gr h in
    let first : parse_first e (side left) start ≡ ok (filled before false) =
      ap (λ ps. parse_first e (side ps) start) (sym (append-nil left))
      ∙ parse_first-filled e before left no_tail gl tt (omega arith)
      ∙ ap (λ ws. ok (filled ws false)) (append-nil before) in
    let second = parse_second-filled e before after right t gr h (omega arith) in
    from_string-sides e _ (append_cons-ne-nil (side left) b':' _) le
    ∙ rw
        (
          split_pair-two b':' b':' (side left) (side (right ++ tail_texts t))
              (side-IsSeamless left (groups-IsPart before left gl)) (side-IsSeamless _ parts),
          parse_sides-two e (side left) (side (right ++ tail_texts t)) first second,
        )
        (unfold finish in refl)

-- For up to eight groups of up to four hexadecimal digits with "::" behind them, in at most 45
-- bytes, address_v6::from_string reads the words and zeros up to eight, also where there are eight
-- groups and "::" stands for none.
pub from_string-trailing :
    (e : Endian) (ws : List ℕ) (texts : List Bytes)
    → AreGroups ws texts
    → length ws ≤ 8
    → length (side texts ++ b':' ∷ b':' ∷ []) ≤ 45
    → from_string e (side texts ++ b':' ∷ b':' ∷ [])
      ≡ ok (record { addr = hton_words e (spread_out ws []) })
from_string-trailing e ws texts g le short =
    let first : parse_first e (side texts) start ≡ ok (filled ws false) =
      ap (λ ps. parse_first e (side ps) start) (sym (append-nil texts))
      ∙ parse_first-filled e ws texts no_tail g tt (omega arith)
      ∙ ap (λ l. ok (filled l false)) (append-nil ws) in
    from_string-sides e _ (append_cons-ne-nil (side texts) b':' _) short
    ∙ rw
        (
          split_pair-two b':' b':' (side texts) []
              (side-IsSeamless texts (groups-IsPart ws texts g)) (λ s. refl),
          parse_sides-two e (side texts) [] first (parse_second-nil e ws),
        )
        (unfold finish in refl)
