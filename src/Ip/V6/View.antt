-- ===== src/Ip/V6/View.antt =====
-- The words of an address as the formatter shows them: all as groups, or the last two as an IPv4
-- address.
use iouxx.Base.{
  ℕ, ◌+◌, ◌*◌, ◌/◌, ◌%◌, Bool, true, false, List, [], ◌∷◌, ◌++◌, append-nil, ◌≡◌, refl, sym, ap,
  ap₂, ◌∙◌, arith, if◌then◌else◌, Bytes, All, length, take, get_or,
}
use iouxx.Ip.Bytes.{
  Endian, IsWord, hton_16, hton_words, hton_words-get_or, store_32-load_32, from_halves-hton_16,
}
use iouxx.Ip.V4.{format_parts}
use iouxx.Ip.V4.Print.{to_string-parts}
use iouxx.Ip.V6.Format.{limit, groups, ipv4_part, full_ipv6, mixed_full_ipv6}
use iouxx.Ip.V6.Format.Shape.{tail_text, between_colons-side, colons_behind-side}
use iouxx.Ip.V6.Parse.Fill.{Tail, no_tail, quad, IsTail, tail_words, tail_texts, tail_seen}
use iouxx.Ip.V6.Parse.Sides.{side}

pub record IsView (e : Endian) (local : List ℕ) (mixed : Bool) : Type 0 where
  pub tail : Tail
  pub tail_valid : IsTail tail
  pub seen : tail_seen tail ≡ mixed
  pub words : local ≡ take (limit mixed) local ++ tail_words tail
  pub width : length (take (limit mixed) local) ≡ limit mixed
  pub fits : All IsWord (take (limit mixed) local)
  pub text :
      (if mixed then ipv4_part e (record { addr = hton_words e local }) else []) ≡ tail_text tail

halves_word : (w : ℕ) → w ≡ 256 * (w / 256) + w % 256
halves_word w = omega arith

-- The IPv4 text of the last two words.
ipv4_part-format_parts :
    (e : Endian) (local : List ℕ) (v w : ℕ)
    → IsWord v
    → IsWord w
    → get_or (hton_words e local) 6 0 ≡ hton_16 e v
    → get_or (hton_words e local) 7 0 ≡ hton_16 e w
    → ipv4_part e (record { addr = hton_words e local })
      ≡ format_parts (v / 256 ∷ v % 256 ∷ w / 256 ∷ w % 256 ∷ [])
unfolding ipv4_part
ipv4_part-format_parts e local v w hv hw ev ew =
    rw (ev, ew, from_halves-hton_16 e v w hv hw)
      (to_string-parts e _
        ∙ ap format_parts
            (store_32-load_32 e (v / 256) (v % 256) (w / 256) (w % 256) (omega arith)))

-- Eight words can be shown in both ways.
pub view :
    (e : Endian) (local : List ℕ) (mixed : Bool)
    → length local ≡ 8
    → All IsWord local
    → IsView e local mixed
view e (a ∷ b ∷ c ∷ d ∷ f ∷ g ∷ v ∷ w ∷ []) false eight fits = record {
  tail = no_tail;
  tail_valid = tt;
  seen = refl;
  words = refl;
  width = refl;
  fits = fits;
  text = refl;
}
view e (a ∷ b ∷ c ∷ d ∷ f ∷ g ∷ v ∷ w ∷ []) true eight
      (ha, (hb, (hc, (hd, (hf, (hg, (hv, (hw, _)))))))) =
    record {
      tail = quad (v / 256) (v % 256) (w / 256) (w % 256);
      tail_valid = omega arith;
      seen = refl;
      words = ap₂ (λ x y. a ∷ b ∷ c ∷ d ∷ f ∷ g ∷ x ∷ y ∷ []) (halves_word v) (halves_word w);
      width = refl;
      fits = (ha, (hb, (hc, (hd, (hf, (hg, tt))))));
      text =
          ipv4_part-format_parts e (a ∷ b ∷ c ∷ d ∷ f ∷ g ∷ v ∷ w ∷ []) v w hv hw
            (hton_words-get_or e _ 6 (omega arith)) (hton_words-get_or e _ 7 (omega arith));
    }
view e local mixed eight fits = absurd (omega arith)

plain_text :
    (local : List ℕ) (removed uppercase mixed : Bool) (t : Tail)
    → tail_seen t ≡ mixed
    → local ≡ take (limit mixed) local ++ tail_words t
    → (if mixed then mixed_full_ipv6 local removed uppercase else full_ipv6 local removed uppercase)
        ++ tail_text t
      ≡ side (groups removed uppercase (take (limit mixed) local) ++ tail_texts t)
unfolding full_ipv6 mixed_full_ipv6
plain_text local removed uppercase false no_tail seen words =
    let texts : List ℕ → List Bytes = groups removed uppercase in
    append-nil _
    ∙ between_colons-side (texts local)
    ∙ ap (λ ws. side (texts ws)) (words ∙ append-nil (take 8 local))
    ∙ ap side (sym (append-nil (texts (take 8 local))))
plain_text local removed uppercase true (quad p q r s) seen words =
    colons_behind-side (groups removed uppercase (take 6 local)) (format_parts (p ∷ q ∷ r ∷ s ∷ []))
plain_text local removed uppercase true no_tail seen words = cc
plain_text local removed uppercase false (quad p q r s) seen words = cc

-- With no run of zeros left out, the text is one side.
pub plain_side :
    (e : Endian) (local : List ℕ) (removed uppercase mixed : Bool) (view : IsView e local mixed)
    → (if mixed then mixed_full_ipv6 local removed uppercase else full_ipv6 local removed uppercase)
        ++ tail_text view.tail
      ≡ side (groups removed uppercase (take (limit mixed) local) ++ tail_texts view.tail)
plain_side e local removed uppercase mixed view =
    plain_text local removed uppercase mixed view.tail view.seen view.words
