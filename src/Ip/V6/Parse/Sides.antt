-- ===== src/Ip/V6/Parse/Sides.antt =====
-- `address_v6::from_string` on the full form and on the compressed form, each with or without an
-- embedded IPv4 address.
use iouxx.Base.{
  ℕ, ◌+◌, ◌-◌, ◌≤◌, ◌<◌, Bool, false, List, [], ◌∷◌, ◌++◌, append-nil, append_assoc, ◌≡◌, ◌≢◌, refl,
  sym, ap, ap₂, ◌∙◌, arith, lt→ltb, Bytes, All, All-append, Lacks, length, length-append, take,
  drop, take-append, drop-append, replicate,
}
use iouxx.Base.Result.{ok, ◌>>=◌}
use iouxx.Text.Split.{split}
use iouxx.Text.Split.Laws.{joined, joined-ne-nil, split-joined}
use iouxx.Text.Split.Pairs.{IsPart, IsSeamless, joined-IsSeamless}
use iouxx.Ip.Bytes.{Endian}
use iouxx.Ip.V4.RoundTrip.{format_parts-ne-nil}
use iouxx.Ip.V4.Print.{format_parts-Lacks}
use iouxx.Ip.V6.Parse.{Progress, start, parse_sections, rotate, parse_first, spread, parse_second}
use iouxx.Ip.V6.Parse.Fill.{
  progress, filled, AreGroups, colon, Tail, no_tail, quad, IsTail, tail_words, tail_texts,
  tail_seen, parse_sections-filled, group-Lacks,
}

-- One side of "::", or all of the text.
abbrev pub side : List Bytes → Bytes
side [] = []
side (p ∷ ps) = joined b':' p ps

tail-IsPart : (t : Tail) → IsTail t → All (IsPart b':') (tail_texts t)
tail-IsPart no_tail h = tt
tail-IsPart (quad p q r s) h = (
  (
    format_parts-Lacks p q r s b':' (omega (arith, colon)) (omega arith),
    format_parts-ne-nil p q r s h,
  ),
  tt,
)

pub groups-IsPart :
    (ws : List ℕ) (texts : List Bytes) → AreGroups ws texts → All (IsPart b':') texts
groups-IsPart [] [] g = tt
groups-IsPart (w ∷ ws) (s ∷ ss) (g, gs) =
    ((group-Lacks b':' w s colon g, g.1.ne_nil), groups-IsPart ws ss gs)
groups-IsPart [] (s ∷ ss) g = elim g [ ]
groups-IsPart (w ∷ ws) [] g = elim g [ ]

parts_lack : (ps : List Bytes) → All (IsPart b':') ps → All (Lacks b':') ps
parts_lack [] h = tt
parts_lack (p ∷ ps) (h, hs) = (h.0, parts_lack ps hs)

pub side-IsSeamless : (ps : List Bytes) → All (IsPart b':') ps → IsSeamless b':' b':' (side ps)
side-IsSeamless [] h = λ s. refl
side-IsSeamless (p ∷ ps) (h, hs) = joined-IsSeamless b':' p ps h hs

split-side :
    (p : Bytes) (ps : List Bytes) → All (IsPart b':') (p ∷ ps) → split b':' (side (p ∷ ps)) ≡ p ∷ ps
split-side p ps (h, hs) = split-joined b':' p ps h.1 h.0 (parts_lack ps hs)

parse_first_sections :
    (e : Endian) (s : Bytes) (st : Progress)
    → s ≢ []
    → parse_first e s st ≡ parse_sections e (split b':' s) st
unfolding parse_first
parse_first_sections e [] st ne = absurd (ne refl)
parse_first_sections e (c ∷ s) st ne = refl

parse_first-parts :
    (e : Endian) (ps : List Bytes) (st : Progress)
    → All (IsPart b':') ps
    → parse_first e (side ps) st ≡ parse_sections e ps st
unfolding parse_first parse_sections
parse_first-parts e [] st h = refl
parse_first-parts e (p ∷ ps) st (h, hs) =
    parse_first_sections e (joined b':' p ps) st (joined-ne-nil b':' p ps h.1)
    ∙ ap (λ parts. parse_sections e parts st) (split-side p ps (h, hs))

rotate-append :
    (before after zs : List ℕ)
    → rotate (length before) (length before + length after) ((before ++ after) ++ zs)
      ≡ before ++ (zs ++ after)
unfolding rotate
rotate-append before after zs =
    let all = (before ++ after) ++ zs in
    let regroup = append_assoc before after zs in
    let beyond : length before + length after - length before ≡ length after = omega arith in
    ap₂ ◌++◌ (ap (take (length before)) regroup ∙ take-append before (after ++ zs)) (
      ap₂ ◌++◌
        (ap (λ n. drop n all) (sym (length-append before after)) ∙ drop-append (before ++ after) zs)
        (ap₂ take beyond (ap (drop (length before)) regroup ∙ drop-append before (after ++ zs))
          ∙ take-append after zs))

module _ (e : Endian) (ws : List ℕ) (texts : List Bytes) (t : Tail) (g : AreGroups ws texts)
    (h : IsTail t) where
  pub parts-IsPart : All (IsPart b':') (texts ++ tail_texts t)
  parts-IsPart =
      All-append (IsPart b':') texts (tail_texts t) (groups-IsPart ws texts g) (tail-IsPart t h)

  pub parse_first-filled :
      length ws + length (tail_words t) ≤ 8
      → parse_first e (side (texts ++ tail_texts t)) start
        ≡ ok (filled (ws ++ tail_words t) (tail_seen t))
  parse_first-filled le =
      parse_first-parts e (texts ++ tail_texts t) start parts-IsPart
      ∙ parse_sections-filled e [] ws texts t g h (omega arith)

-- What `parse_second` leaves: the groups behind "::" stand at the end.
abbrev pub spread_out : List ℕ → List ℕ → List ℕ
spread_out before after = before ++ (replicate (8 - length (before ++ after)) 0 ++ after)

spread-filled :
    (before after : List ℕ) (seen : Bool)
    → length (before ++ after) < 8
    → spread (length before) (filled (before ++ after) seen)
      ≡ ok (progress (spread_out before after) 8 seen)
unfolding spread
spread-filled before after seen h =
    let zeros = replicate (8 - length (before ++ after)) 0 in
    rw (spread, lt→ltb _ _ h)
      (ap (λ r. ok (progress r 8 seen))
        (ap (λ n. rotate (length before) n ((before ++ after) ++ zeros))
            (length-append before after)
          ∙ rotate-append before after zeros))

parse_second_sections :
    (e : Endian) (s : Bytes) (st : Progress)
    → s ≢ []
    → st.seen_ipv4 ≡ false
    → parse_second e s st ≡ (parse_sections e (split b':' s) st >>= spread st.part_count)
unfolding parse_second
parse_second_sections e [] st ne h = absurd (ne refl)
parse_second_sections e (c ∷ s) st ne h = rw (parse_second, h)

nil_groups : (ws : List ℕ) → AreGroups ws [] → ws ≡ []
nil_groups [] g = refl
nil_groups (w ∷ ws) g = elim g [ ]

-- With nothing behind "::" the zeros that the array holds stay.
pub parse_second-nil :
    (e : Endian) (before : List ℕ)
    → parse_second e [] (filled before false) ≡ ok (progress (spread_out before []) 8 false)
unfolding parse_second
parse_second-nil e before =
    ap (λ r. ok (progress r 8 false))
      (ap₂ ◌++◌ refl
        (ap (λ ws. replicate (8 - length ws) 0) (sym (append-nil before)) ∙ sym (append-nil _)))

module _ (e : Endian) (before ws : List ℕ) where
  parse_second-parts :
      (p : Bytes) (ps texts : List Bytes) (t : Tail)
      → texts ++ tail_texts t ≡ p ∷ ps
      → AreGroups ws texts
      → IsTail t
      → length before + length ws + length (tail_words t) ≤ 7
      → parse_second e (side (texts ++ tail_texts t)) (filled before false)
        ≡ ok (progress (spread_out before (ws ++ tail_words t)) 8 (tail_seen t))
  parse_second-parts p ps texts t same g h le =
      let parts = rw same at (parts-IsPart e ws texts t g h) in
      let fill = parse_sections-filled e before ws texts t g h (omega arith) in
      let room : length (before ++ (ws ++ tail_words t)) < 8 = omega (
        arith,
        length-append {0} before (ws ++ tail_words t),
        length-append {0} ws (tail_words t),
      ) in
      rw same (
        parse_second_sections e (joined b':' p ps) (filled before false)
          (joined-ne-nil b':' p ps parts.0.1) refl
        ∙ rw (split-side p ps parts, ← same, fill)
            (spread-filled before (ws ++ tail_words t) (tail_seen t) room))

  pub parse_second-filled :
      (texts : List Bytes) (t : Tail)
      → AreGroups ws texts
      → IsTail t
      → length before + length ws + length (tail_words t) ≤ 7
      → parse_second e (side (texts ++ tail_texts t)) (filled before false)
        ≡ ok (progress (spread_out before (ws ++ tail_words t)) 8 (tail_seen t))
  parse_second-filled [] no_tail g h le =
      let none_left : ws ++ [] ≡ [] = append-nil ws ∙ nil_groups ws g in
      parse_second-nil e before
      ∙ ap (λ after. ok (progress (spread_out before after) 8 false)) (sym none_left)
  parse_second-filled [] (quad p q r s) g h le =
      parse_second-parts _ _ [] (quad p q r s) refl g h le
  parse_second-filled (s ∷ texts) t g h le = parse_second-parts _ _ (s ∷ texts) t refl g h le
