-- ===== src/Ip/V6/Parse/Fill.antt =====
-- The inner loops of `address_v6::from_string` fill the array from the left, a word for each group and
-- two for an embedded IPv4 address.
use iouxx.Base.{
  ℕ, suc, ◌+◌, ◌-◌, ◌*◌, ◌≤◌, ◌<◌, Bool, true, false, List, [], ◌∷◌, ◌++◌, append-nil, append_assoc,
  ◌≡◌, refl, sym, ap, ◌∙◌, arith, lt→ltb, ltb-false, Bytes, All, Lacks, length, length-append, set,
  replicate,
}
use iouxx.Base.Result.{ok}
use iouxx.Text.Split.{contains}
use iouxx.Text.Split.Laws.{joined, contains-Lacks, contains-append_cons}
use iouxx.Text.Number.{digit_value, format_decimal}
use iouxx.Text.Number.Digits.{Lacks-of_IsDigit}
use iouxx.Text.Number.RoundTrip.{IsNumeral}
use iouxx.Ip.Bytes.{Endian, IsByte, IsWord, load_32, hton_16-halves}
use iouxx.Ip.V4.{consumed, format_parts}
use iouxx.Ip.V4.Print.{format_parts-joined}
use iouxx.Ip.V4.RoundTrip.{is_empty-false, format_parts-ne-nil, from_string-format_parts}
use iouxx.Ip.V6.Parse.{
  Progress, put_ipv4, put_group, or_invalid, parse_ipv4_section, parse_hex_section,
  parse_one_section, parse_sections,
}

abbrev pub progress : List ℕ → ℕ → Bool → Progress
progress results count seen = record {
  part_results = results;
  part_count = count;
  seen_ipv4 = seen;
}

-- The words read so far, and zeros behind them.
abbrev pub filled : List ℕ → Bool → Progress
filled ws seen = progress (ws ++ replicate (8 - length ws) 0) (length ws) seen

set-append : (ws zs : List ℕ) (z w : ℕ) → set (ws ++ z ∷ zs) (length ws) w ≡ ws ++ w ∷ zs
set-append [] zs z w = refl
set-append (x ∷ ws) zs z w = ap (◌∷◌ x) (set-append ws zs z w)

zeros_room : (k : ℕ) → k < 8 → replicate {A = ℕ} (8 - k) 0 ≡ 0 ∷ replicate (8 - (k + 1)) 0
zeros_room k h = let e : 8 - k ≡ suc (8 - (k + 1)) = omega arith in rw e

length-snoc : (ws : List ℕ) (w : ℕ) → length (ws ++ w ∷ []) ≡ length ws + 1
length-snoc ws w = length-append ws (w ∷ [])

write_filled :
    (ws : List ℕ) (w : ℕ)
    → length ws < 8
    → set (ws ++ replicate (8 - length ws) 0) (length ws) w
      ≡ (ws ++ w ∷ []) ++ replicate (8 - length (ws ++ w ∷ [])) 0
write_filled ws w h = rw (zeros_room (length ws) h, set-append, append_assoc, length-snoc)

pub put_group-filled :
    (ws : List ℕ) (w : ℕ)
    → length ws < 8
    → put_group w (filled ws false) ≡ filled (ws ++ w ∷ []) false
unfolding put_group
put_group-filled ws w h = λ i. progress (write_filled ws w h i) (sym (length-snoc ws w) i) false

write_filled_twice :
    (ws : List ℕ) (v w : ℕ)
    → length ws ≤ 6
    → set (set (ws ++ replicate (8 - length ws) 0) (length ws) v) (length ws + 1) w
      ≡ (ws ++ v ∷ w ∷ []) ++ replicate (8 - length (ws ++ v ∷ w ∷ [])) 0
write_filled_twice ws v w h =
    let snoc = ws ++ v ∷ [] in
    let next = length-snoc ws v in
    ap (λ r. set r (length ws + 1) w) (write_filled ws v (omega arith))
    ∙ ap (λ n. set (snoc ++ replicate (8 - length snoc) 0) n w) (sym next)
    ∙ write_filled snoc w (omega arith)
    ∙ ap (λ t. t ++ replicate (8 - length t) 0) (append_assoc ws (v ∷ []) (w ∷ []))

pub put_ipv4-filled :
    (e : Endian) (p q r s : ℕ) (ws : List ℕ)
    → All IsByte (p ∷ q ∷ r ∷ s ∷ [])
    → length ws ≤ 6
    → put_ipv4 e (record { addr = load_32 e (p ∷ q ∷ r ∷ s ∷ []) }) (filled ws false)
      ≡ filled (ws ++ (256 * p + q) ∷ (256 * r + s) ∷ []) true
unfolding put_ipv4
put_ipv4-filled e p q r s ws h le =
    let (high, low) = hton_16-halves e p q r s h in
    let pair = (256 * p + q) ∷ (256 * r + s) ∷ [] in
    rw (high, low)
      λ i.
        progress (write_filled_twice ws (256 * p + q) (256 * r + s) le i)
          (sym (length-append ws pair) i) true

-- A group: up to four hexadecimal digits that spell a word.
abbrev pub IsGroup : ℕ → Bytes → Type 0
IsGroup w s = IsWord w × IsNumeral 16 w s × (length s ≤ 4)

abbrev pub AreGroups : List ℕ → List Bytes → Type 0
AreGroups [] [] = Unit
AreGroups (w ∷ ws) (s ∷ ss) = IsGroup w s × AreGroups ws ss
AreGroups _ _ = ⊥

pub group-Lacks : (b w : ℕ) (s : Bytes) → 16 ≤ digit_value b → IsGroup w s → Lacks b s
group-Lacks b w s h g = Lacks-of_IsDigit 16 b s h g.1.digits

dot : 16 ≤ digit_value b'.'
unfolding digit_value
dot = omega arith

pub colon : 16 ≤ digit_value b':'
unfolding digit_value
colon = omega arith

parse_hex_section-filled :
    (ws : List ℕ) (w : ℕ) (s : Bytes)
    → IsGroup w s
    → length ws < 8
    → parse_hex_section s (filled ws false) ≡ ok (filled (ws ++ w ∷ []) false)
unfolding parse_hex_section consumed
parse_hex_section-filled ws w s (word, numeral, short) h =
    rw (lt→ltb (length ws) 8 h, ltb-false 4 (length s) short, numeral.value 0xffff (omega arith))
      (ap ok (put_group-filled ws w h))

parse_ipv4_section-filled :
    (e : Endian) (p q r s : ℕ) (ws : List ℕ)
    → All IsByte (p ∷ q ∷ r ∷ s ∷ [])
    → length ws ≤ 6
    → parse_ipv4_section e (format_parts (p ∷ q ∷ r ∷ s ∷ [])) (filled ws false)
      ≡ ok (filled (ws ++ (256 * p + q) ∷ (256 * r + s) ∷ []) true)
parse_ipv4_section-filled e p q r s ws h le =
    unfold parse_ipv4_section or_invalid in
    rw
      (
        parse_ipv4_section,
        ltb-false 6 (length ws) le,
        from_string-format_parts p q r s h e,
        or_invalid,
      )
      (ap ok (put_ipv4-filled e p q r s ws h le))

parse_one_section-group :
    (e : Endian) (ws : List ℕ) (w : ℕ) (s : Bytes)
    → IsGroup w s
    → length ws < 8
    → parse_one_section e s (filled ws false) ≡ ok (filled (ws ++ w ∷ []) false)
unfolding parse_one_section
parse_one_section-group e ws w s g h =
    rw (parse_one_section, contains-Lacks b'.' s (group-Lacks b'.' w s dot g))
      (parse_hex_section-filled ws w s g h)

-- An embedded IPv4 address at the end, or none.
pub data Tail : Type 0 where
  no_tail : Tail
  quad : ℕ → ℕ → ℕ → ℕ → Tail

abbrev pub IsTail : Tail → Type 0
IsTail no_tail = Unit
IsTail (quad p q r s) = All IsByte (p ∷ q ∷ r ∷ s ∷ [])

abbrev pub tail_words : Tail → List ℕ
tail_words no_tail = []
tail_words (quad p q r s) = (256 * p + q) ∷ (256 * r + s) ∷ []

abbrev pub tail_texts : Tail → List Bytes
tail_texts no_tail = []
tail_texts (quad p q r s) = format_parts (p ∷ q ∷ r ∷ s ∷ []) ∷ []

abbrev pub tail_seen : Tail → Bool
tail_seen no_tail = false
tail_seen (quad p q r s) = true

format_parts-dot : (p q r s : ℕ) → contains (format_parts (p ∷ q ∷ r ∷ s ∷ [])) b'.' ≡ true
format_parts-dot p q r s = rw (format_parts-joined p q r s) (
    contains-append_cons b'.' (format_decimal p)
      (joined b'.' (format_decimal q) (format_decimal r ∷ format_decimal s ∷ [])))

parse_one_section-quad :
    (e : Endian) (ws : List ℕ) (p q r s : ℕ)
    → All IsByte (p ∷ q ∷ r ∷ s ∷ [])
    → length ws ≤ 6
    → parse_one_section e (format_parts (p ∷ q ∷ r ∷ s ∷ [])) (filled ws false)
      ≡ ok (filled (ws ++ (256 * p + q) ∷ (256 * r + s) ∷ []) true)
unfolding parse_one_section
parse_one_section-quad e ws p q r s h le =
    rw (parse_one_section, format_parts-dot p q r s) (parse_ipv4_section-filled e p q r s ws h le)

parse_sections-tail :
    (e : Endian) (ws : List ℕ) (t : Tail)
    → IsTail t
    → length ws + length (tail_words t) ≤ 8
    → parse_sections e (tail_texts t) (filled ws false)
      ≡ ok (filled (ws ++ tail_words t) (tail_seen t))
unfolding parse_sections
parse_sections-tail e ws no_tail h le = rw append-nil
parse_sections-tail e ws (quad p q r s) h le = rw (
  is_empty-false _ (format_parts-ne-nil p q r s h),
  parse_one_section-quad e ws p q r s h (omega arith),
)

-- Groups and a tail, with room for them, fill the array.
pub parse_sections-filled :
    (e : Endian) (done ws : List ℕ) (texts : List Bytes) (t : Tail)
    → AreGroups ws texts
    → IsTail t
    → length done + length ws + length (tail_words t) ≤ 8
    → parse_sections e (texts ++ tail_texts t) (filled done false)
      ≡ ok (filled (done ++ (ws ++ tail_words t)) (tail_seen t))
unfolding parse_sections
parse_sections-filled e done [] [] t g h le = parse_sections-tail e done t h (omega arith)
parse_sections-filled e done (w ∷ ws) (s ∷ texts) t (g, gs) h le =
    rw (is_empty-false s g.1.ne_nil, parse_one_section-group e done w s g (omega arith))
      (parse_sections-filled e (done ++ w ∷ []) ws texts t gs h
          (omega (arith, length-append {0} done (w ∷ [])))
        ∙ ap (λ ws'. ok (filled ws' (tail_seen t)))
            (append_assoc done (w ∷ []) (ws ++ tail_words t)))
parse_sections-filled e done [] (s ∷ texts) t g h le = elim g [ ]
parse_sections-filled e done (w ∷ ws) [] t g h le = elim g [ ]
