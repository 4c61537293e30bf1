-- ===== src/Ip/V6/Format/Shape.antt =====
-- The texts of the IPv6 formatter in the parser's terms: groups on one or on both sides of "::", and an
-- embedded IPv4 address at the end.
use iouxx.Base.{
  ℕ, suc, ◌+◌, ◌*◌, ◌≤◌, ◌<◌, Bool, true, false, ◌||◌, List, [], ◌∷◌, ◌++◌, append-nil,
  append_assoc, ◌≡◌, refl, sym, ap, ◌∙◌, arith, ◌==◌, ==_false, Bytes, All, length, length-append,
}
use iouxx.Text.Number.RoundTrip.{format_hex-IsNumeral, length-format_hex}
use iouxx.Ip.Bytes.{IsWord}
use iouxx.Ip.V4.{format_parts}
use iouxx.Ip.V4.Print.{length-format_parts}
use iouxx.Ip.V6.Format.{between_colons, colons_behind, colons_before, groups, colon_if}
use iouxx.Ip.V6.Parse.Fill.{AreGroups, Tail, no_tail, quad, IsTail, tail_texts, tail_seen}
use iouxx.Ip.V6.Parse.Sides.{side}

pub groups-AreGroups :
    (removed uppercase : Bool) (ws : List ℕ)
    → All IsWord ws
    → AreGroups ws (groups removed uppercase ws)
groups-AreGroups removed uppercase [] h = tt
groups-AreGroups removed uppercase (w ∷ ws) (h, hs) = (
  (h, format_hex-IsNumeral removed uppercase w, length-format_hex removed uppercase w h),
  groups-AreGroups removed uppercase ws hs,
)

pub between_colons-side : (ps : List Bytes) → between_colons ps ≡ side ps
unfolding between_colons
between_colons-side [] = refl
between_colons-side (p ∷ []) = refl
between_colons-side (p ∷ q ∷ ps) = ap (λ t. p ++ b':' ∷ t) (between_colons-side (q ∷ ps))

-- A colon behind each group joins them to what follows.
pub colons_behind-side : (ps : List Bytes) (t : Bytes) → colons_behind ps ++ t ≡ side (ps ++ t ∷ [])
unfolding colons_behind
colons_behind-side [] t = refl
colons_behind-side (p ∷ []) t = append_assoc p (b':' ∷ []) t
colons_behind-side (p ∷ q ∷ ps) t =
    append_assoc p (b':' ∷ colons_behind (q ∷ ps)) t
    ∙ ap (λ s. p ++ b':' ∷ s) (colons_behind-side (q ∷ ps) t)

pub colons_behind_end :
    (p : Bytes) (ps : List Bytes) → colons_behind (p ∷ ps) ≡ side (p ∷ ps) ++ b':' ∷ []
unfolding colons_behind
colons_behind_end p [] = refl
colons_behind_end p (q ∷ ps) =
    ap (λ s. p ++ b':' ∷ s) (colons_behind_end q ps)
    ∙ sym (append_assoc p (b':' ∷ side (q ∷ ps)) (b':' ∷ []))

pub colons_before_cons :
    (p : Bytes) (ps : List Bytes) → colons_before (p ∷ ps) ≡ b':' ∷ side (p ∷ ps)
unfolding colons_before
colons_before_cons p [] = ap (◌∷◌ b':') (append-nil p)
colons_before_cons p (q ∷ ps) = ap (λ s. b':' ∷ (p ++ s)) (colons_before_cons q ps)

-- The left of "::".
pub left_side :
    (ps : List Bytes) (start : ℕ)
    → length ps ≡ start
    → colons_behind ps ++ colon_if (start == 0) ≡ side ps ++ b':' ∷ []
unfolding colons_behind
left_side [] start e = rw (← e)
left_side (p ∷ ps) start e =
    rw (← e, ==_false (suc (length ps)) 0 (λ z. omega (arith, z)))
      (append-nil _ ∙ colons_behind_end p ps)

abbrev pub tail_text : Tail → Bytes
tail_text no_tail = []
tail_text (quad p q r s) = format_parts (p ∷ q ∷ r ∷ s ∷ [])

-- The right of "::", with the colon that an embedded address or the end wants.
pub right_side :
    (ps : List Bytes) (t : Tail) (last : Bool)
    → (length ps ≡ 0 → last ≡ true)
    → (0 < length ps → last ≡ false)
    → (colons_before ps ++ colon_if (last || tail_seen t)) ++ tail_text t
      ≡ b':' ∷ side (ps ++ tail_texts t)
unfolding colons_before
right_side [] no_tail last none_left some_left = rw (none_left refl)
right_side [] (quad a b c d) last none_left some_left = rw (none_left refl)
right_side (p ∷ ps) no_tail last none_left some_left = rw (some_left (omega arith)) (
    append-nil _
    ∙ append-nil _
    ∙ colons_before_cons p ps
    ∙ ap (λ l. b':' ∷ side l) (sym (append-nil (p ∷ ps))))
right_side (p ∷ ps) (quad a b c d) last none_left some_left =
    let v4 = format_parts (a ∷ b ∷ c ∷ d ∷ []) in
    rw (some_left (omega arith)) (
      ap (λ s. (s ++ b':' ∷ []) ++ v4) (colons_before_cons p ps)
      ∙ ap (λ s. b':' ∷ (s ++ v4)) (sym (colons_behind_end p ps))
      ∙ ap (◌∷◌ b':') (colons_behind-side (p ∷ ps) v4))

-- The widths.
abbrev pub tail_width : Tail → ℕ
tail_width no_tail = 0
tail_width (quad p q r s) = 15

length-side_cons :
    (p : Bytes) (ps : List Bytes) → length (side (p ∷ ps)) ≤ length p + 1 + length (side ps)
length-side_cons p [] = omega arith
length-side_cons p (q ∷ qs) = omega (arith, length-append {0} p (b':' ∷ side (q ∷ qs)))

pub length-side :
    (ws : List ℕ) (texts : List Bytes) (t : Tail)
    → AreGroups ws texts
    → IsTail t
    → length (side (texts ++ tail_texts t)) ≤ 5 * length ws + tail_width t
length-side [] [] no_tail g h = omega arith
length-side [] [] (quad p q r s) g h = omega (arith, length-format_parts p q r s h)
length-side (w ∷ ws) (s ∷ texts) t (g, gs) h =
    omega (arith, length-side_cons s (texts ++ tail_texts t), length-side ws texts t gs h, g.2)
length-side [] (s ∷ texts) t g h = elim g [ ]
length-side (w ∷ ws) [] t g h = elim g [ ]
