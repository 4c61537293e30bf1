-- ===== src/Ip/V6/Parse/Shapes.antt =====
-- The three forms of an IPv6 text together, and that `address_v6::from_string` accepts them.
use iouxx.Base.{ℕ, ◌+◌, ◌≤◌, List, [], ◌∷◌, ◌++◌, Bytes, length, ◌≡◌, sym, ap, subst, ◌∙◌}
use iouxx.Base.Result.{ok}
use iouxx.Ip.Bytes.{Endian, hton_words}
use iouxx.Ip.V6.{AddressV6}
use iouxx.Ip.V6.Parse.{from_string}
use iouxx.Ip.V6.Parse.Sides.{side, spread_out}
use iouxx.Ip.V6.Parse.Forms.{from_string-full, from_string-compressed, from_string-trailing}
use iouxx.Ip.V6.Parse.Fill.{AreGroups, Tail, IsTail, tail_words, tail_texts}

-- The texts that address_v6::from_string accepts, with the address of each: eight words; less than eight,
-- and "::" for the missing zeros; and groups with "::" behind them, eight too.
pub data IsForm (e : Endian) (text : Bytes) (a : AddressV6) : Type 0 where
  full :
      (ws : List ℕ) (texts : List Bytes) (t : Tail)
      → AreGroups ws texts
      → IsTail t
      → length (ws ++ tail_words t) ≡ 8
      → text ≡ side (texts ++ tail_texts t)
      → a ≡ record { addr = hton_words e (ws ++ tail_words t) }
      → IsForm e text a
  compressed :
      (before after : List ℕ) (left right : List Bytes) (t : Tail)
      → AreGroups before left
      → AreGroups after right
      → IsTail t
      → length before + length after + length (tail_words t) ≤ 7
      → text ≡ side left ++ b':' ∷ b':' ∷ side (right ++ tail_texts t)
      → a ≡ record { addr = hton_words e (spread_out before (after ++ tail_words t)) }
      → IsForm e text a
  trailing :
      (ws : List ℕ) (texts : List Bytes)
      → AreGroups ws texts
      → length ws ≤ 8
      → text ≡ side texts ++ b':' ∷ b':' ∷ []
      → a ≡ record { addr = hton_words e (spread_out ws []) }
      → IsForm e text a

module _ (e : Endian) where
  pub from_string-IsForm :
      (text : Bytes) (a : AddressV6)
      → IsForm e text a
      → length text ≤ 45
      → from_string e text ≡ ok a
  from_string-IsForm text a (full ws texts t g h eight whole made) le =
      ap (from_string e) whole
      ∙ from_string-full e ws texts t g h eight (subst (λ s. length s ≤ 45) whole le)
      ∙ ap ok (sym made)
  from_string-IsForm text a (compressed before after left right t gl gr h room whole made) le =
      ap (from_string e) whole
      ∙ from_string-compressed e before after left right t gl gr h room
          (subst (λ s. length s ≤ 45) whole le)
      ∙ ap ok (sym made)
  from_string-IsForm text a (trailing ws texts g room whole made) le =
      ap (from_string e) whole
      ∙ from_string-trailing e ws texts g room (subst (λ s. length s ≤ 45) whole le)
      ∙ ap ok (sym made)
