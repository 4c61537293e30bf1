-- ===== src/Ip/V6/Shown.antt =====
-- `address_v6::from_string` reads back the full form and the compressed form of eight words, each with
-- the last two words as groups or as an IPv4 address.
use iouxx.Base.{
  ℕ, ◌+◌, ◌-◌, ◌*◌, ◌≤◌, ◌<◌, Bool, true, false, ◌&&◌, ◌||◌, List, [], ◌∷◌, ◌++◌, append-nil,
  append_assoc, ◌≡◌, refl, sym, ap, ap₂, ◌∙◌, arith, inl, inr, Bool-cases, ltb, ◌==◌, Bytes, All,
  All-parts, length, length-append, length-map, length-nil, ==_refl, ==_false, length-replicate,
  take, drop, replicate, take-append, drop-append,
}
use iouxx.Base.Result.{ok}
use iouxx.Ip.Bytes.{Endian, IsWord, hton_words}
use iouxx.Text.Number.{format_hex}
use iouxx.Ip.V6.Format.{
  no_run, scan, limit, colon_if, colons_before, colons_behind, groups, around, compressed_ipv6,
}
use iouxx.Ip.V6.Format.Runs.{scan-IsZeroRun}
use iouxx.Ip.V6.Format.Shape.{
  groups-AreGroups, left_side, right_side, tail_text, tail_width, length-side,
}
use iouxx.Ip.V6.View.{IsView, plain_side}
use iouxx.Ip.V6.Parse.{from_string}
use iouxx.Ip.V6.Parse.Fill.{Tail, no_tail, quad, tail_words, tail_texts, tail_seen}
use iouxx.Ip.V6.Parse.Sides.{side, spread_out}
use iouxx.Ip.V6.Parse.Forms.{from_string-full, from_string-compressed}

-- The 45 bytes that the parser reads hold the full form.
width_bound : (mixed : Bool) (t : Tail) → tail_seen t ≡ mixed → 5 * limit mixed + tail_width t ≤ 45
width_bound true (quad p q r s) seen = omega arith
width_bound false no_tail seen = omega arith
width_bound true no_tail seen = cc
width_bound false (quad p q r s) seen = cc

word_count :
    (mixed : Bool) (t : Tail) → tail_seen t ≡ mixed → limit mixed + length (tail_words t) ≡ 8
word_count true (quad p q r s) seen = refl
word_count false no_tail seen = refl
word_count true no_tail seen = cc
word_count false (quad p q r s) seen = cc

side-tail : (t : Tail) → side (tail_texts t) ≡ tail_text t
side-tail no_tail = refl
side-tail (quad p q r s) = refl

module _ (e : Endian) (local : List ℕ) (removed uppercase mixed : Bool)
    (v : IsView e local mixed) where
  abbrev shown : List ℕ
  shown = take (limit mixed) local

  abbrev fields : List ℕ → List Bytes
  fields = groups removed uppercase

  pub read_full :
      from_string e (side (fields shown ++ tail_texts v.tail))
      ≡ ok (record { addr = hton_words e local })
  read_full =
      from_string-full e shown (fields shown) v.tail
        (groups-AreGroups removed uppercase shown v.fits) v.tail_valid
        (omega (
          arith,
          length-append {0} shown (tail_words v.tail),
          v.width,
          word_count mixed v.tail v.seen,
        ))
        (omega (
          arith,
          length-side shown (fields shown) v.tail (groups-AreGroups removed uppercase shown v.fits)
              v.tail_valid,
          v.width,
          width_bound mixed v.tail v.seen,
        ))
      ∙ ap (λ ws. ok (record { addr = hton_words e ws })) (sym v.words)

  module _ (before after : List ℕ) (len : ℕ) (splits : shown ≡ before ++ (replicate len 0 ++ after))
      (long : 2 ≤ len) where
    split_length : length before + (len + length after) ≡ limit mixed
    split_length = omega (
      arith,
      ap length splits,
      v.width,
      length-append {0} before (replicate len 0 ++ after),
      length-append {0} (replicate {A = ℕ} len 0) after,
      length-replicate {0} {A = ℕ} len 0,
    )

    split_fits : All IsWord before × All IsWord after
    split_fits =
        let (hb, hr) = All-parts IsWord before (replicate len 0 ++ after) (rw splits at v.fits) in
        (hb, (All-parts IsWord (replicate len 0) after hr).1)

    spread_out-local : spread_out before (after ++ tail_words v.tail) ≡ local
    spread_out-local =
        let tail = tail_words v.tail in
        let missing : 8 - length (before ++ (after ++ tail)) ≡ len = omega (
          arith,
          split_length,
          word_count mixed v.tail v.seen,
          length-append {0} before (after ++ tail),
          length-append {0} after tail,
        ) in
        ap (λ n. before ++ (replicate n 0 ++ (after ++ tail))) missing
        ∙ ap (◌++◌ before) (sym (append_assoc (replicate len 0) after tail))
        ∙ sym (append_assoc before (replicate len 0 ++ after) tail)
        ∙ ap (λ ws. ws ++ tail) (sym splits)
        ∙ sym v.words

    read_compressed :
        from_string e
          (side (fields before) ++ b':' ∷ b':' ∷ side (fields after ++ tail_texts v.tail))
        ≡ ok (record { addr = hton_words e local })
    read_compressed =
        let (hb, ha) = split_fits in
        let left = groups-AreGroups removed uppercase before hb in
        let right = groups-AreGroups removed uppercase after ha in
        let tail = side (fields after ++ tail_texts v.tail) in
        let left_bound : length (side (fields before)) ≤ 5 * length before + 0 =
          rw (append-nil (fields before)) at (length-side before (fields before) no_tail left tt) in
        from_string-compressed e before after (fields before) (fields after) v.tail left right
          v.tail_valid (omega (arith, split_length, word_count mixed v.tail v.seen))
          (omega (
            arith,
            split_length,
            width_bound mixed v.tail v.seen,
            left_bound,
            length-append {0} (side (fields before)) (b':' ∷ b':' ∷ tail),
            length-side after (fields after) v.tail right v.tail_valid,
          ))
        ∙ ap (λ ws. ok (record { addr = hton_words e ws })) spread_out-local

    around-text :
        around local removed uppercase mixed (length before) len ++ tail_text v.tail
        ≡ side (fields before) ++ b':' ∷ b':' ∷ side (fields after ++ tail_texts v.tail)
    unfolding around
    around-text =
        let last = length before + len == limit mixed in
        let close = colon_if (last || mixed) in
        let left = colons_behind (fields before) in
        let mark = colon_if (length before == 0) in
        let right = colons_before (fields after) in
        let tail = tail_text v.tail in
        let more = b':' ∷ side (fields after ++ tail_texts v.tail) in
        ap₂
          (λ l r.
            (colons_behind (fields l) ++ (mark ++ (colons_before (fields r) ++ close))) ++ tail)
          first_part last_part
        ∙ append_assoc left (mark ++ (right ++ close)) tail
        ∙ ap (◌++◌ left) (append_assoc mark (right ++ close) tail)
        ∙ sym (append_assoc left mark ((right ++ close) ++ tail))
        ∙ ap₂ ◌++◌
            (left_side (fields before) (length before)
              (length-map before (format_hex removed uppercase)))
            (ap (λ m. (right ++ colon_if (last || m)) ++ tail) (sym v.seen)
              ∙ right_side (fields after) v.tail last
                  (λ z. at_end (omega (arith, z, length-map after (format_hex removed uppercase))))
                  (λ z.
                    not_at_end (omega (arith, z, length-map after (format_hex removed uppercase)))))
        ∙ append_assoc (side (fields before)) (b':' ∷ []) more
      where
        first_part : take (length before) shown ≡ before
        first_part = rw splits (take-append before (replicate len 0 ++ after))

        last_part : drop (length before + len) shown ≡ after
        last_part =
            ap₂ drop
              (omega (
                arith,
                length-append {0} before (replicate len 0),
                length-replicate {0} {A = ℕ} len 0,
              ))
              (splits ∙ sym (append_assoc before (replicate len 0) after))
            ∙ drop-append (before ++ replicate len 0) after

        at_end : length after ≡ 0 → (length before + len == limit mixed) ≡ true
        at_end z =
            let e : length before + len ≡ limit mixed = omega (arith, z, split_length) in
            rw e (==_refl (limit mixed))

        not_at_end : 0 < length after → (length before + len == limit mixed) ≡ false
        not_at_end z = ==_false _ _ (λ e. omega (arith, e, z, split_length))

    around_read :
        from_string e (around local removed uppercase mixed (length before) len ++ tail_text v.tail)
        ≡ ok (record { addr = hton_words e local })
    around_read = ap (from_string e) around-text ∙ read_compressed

    all_zeros_read :
        length before ≡ 0
        → len ≡ limit mixed
        → from_string e (b':' ∷ b':' ∷ tail_text v.tail) ≡ ok (record { addr = hton_words e local })
    all_zeros_read none_before all_of_it =
        ap (from_string e) (
          ap (λ t. b':' ∷ b':' ∷ t) (sym (side-tail v.tail))
          ∙ ap₂ (λ b a. side (fields b) ++ b':' ∷ b':' ∷ side (fields a ++ tail_texts v.tail))
              (sym (length-nil before none_before))
              (sym (length-nil after (omega (arith, split_length)))))
        ∙ read_compressed

  pub compressed_read :
      from_string e (compressed_ipv6 local removed mixed uppercase ++ tail_text v.tail)
      ≡ ok (record { addr = hton_words e local })
  unfolding compressed_ipv6
  compressed_read =
      let r = scan shown 0 no_run in
      let run = scan-IsZeroRun shown in
      elim (Bool-cases (ltb r.best_len 2)) [
        | inl short ↦
            rw (short)
              (ap (from_string e) (plain_side e local removed uppercase mixed v) ∙ read_full)
        | inr long ↦
            let at_least : 2 ≤ r.best_len = ground arith in
            elim (Bool-cases (r.best_start == 0 && r.best_len == limit mixed)) [
              | inl zeros ↦
                  let first : r.best_start ≡ 0 = ground arith in
                  let whole : r.best_len ≡ limit mixed = ground arith in
                  rw (long, zeros)
                    (all_zeros_read run.before run.after r.best_len run.splits at_least
                      (run.starts ∙ first) whole)
              | inr some_left ↦
                  rw (long, some_left)
                    (ap
                        (λ n.
                          from_string e
                            (around local removed uppercase mixed n r.best_len ++ tail_text v.tail))
                        (sym run.starts)
                      ∙ around_read run.before run.after r.best_len run.splits at_least)
            ]
      ]
