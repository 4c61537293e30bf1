-- ===== src/Tests/V6.antt =====
-- Runs of the IPv6 code.
use iouxx.Base.{
  ℕ, ◌↔◌, length, ◌≤◌, ◌<◌, List, ◌++◌, Bytes, arith, true, false, [], ◌∷◌, some, ◌≡◌, refl, codes,
}
use iouxx.Base.Result.{ok}
use iouxx.Text.Number.{format_decimal, format_hex, from_chars}
use iouxx.Text.Split.{split, split_pair, contains}
use iouxx.Ip.Bytes.{little, big, load_32, store_32, halves, from_halves, hton_16, hton_words}
use iouxx.Ip.V4
use iouxx.Ip.V4.{consumed}
use iouxx.Ip.V4.Print.{length-format_parts}
use iouxx.Ip.V6.{AddressV6, IsAddressV6}
use iouxx.Ip.V6.Parse.{from_string}
use iouxx.Ip.V6.Format.{format, to_string, scan, no_run, groups}
use iouxx.Ip.V6.Format.Longest.{AreZeros, scan-longest}
use iouxx.Ip.V6.Format.Shape.{groups-AreGroups}
use iouxx.Ip.V6.RoundTrip.{from_string-format_v6}
use iouxx.Ip.V6.Parse.Uncheck.{from_string_uncheck, from_string_uncheck-agrees_v6}
use iouxx.Ip.V6.Parse.Fill.{AreGroups, Tail, quad, tail_texts, tail_words}
use iouxx.Ip.V6.Parse.Sides.{side, spread_out}
use iouxx.Ip.V6.Parse.Forms.{from_string-trailing, from_string-compressed}
use iouxx.Ip.V6.Parse.Shapes.{IsForm}
use iouxx.Ip.V6.Parse.Grammar.{from_string_iff_v6}
use iouxx.Ip.V6.Spec.{Spec, unseen, parse, stops}
use iouxx.Ip.V6.Spec.Letters.{Letter, spelled, set_all, AreNew, GoTogether}
use iouxx.Ip.V6.Spec.Flags.{parse_iff}
use iouxx.Ip.V6.Normal.{from_string-format-from_string}

abbrev documentation : AddressV6
documentation = record { addr = 0x0120 ∷ 0xb80d ∷ 0 ∷ 0 ∷ 0 ∷ 0 ∷ 0 ∷ 0x100 ∷ [] }

reads_documentation : from_string little (codes "2001:db8::1") ≡ ok documentation
unfolding from_string split split_pair contains from_chars hton_words consumed
reads_documentation = refl

writes_documentation : to_string little documentation ≡ codes "2001:db8::1"
unfolding to_string hton_words format_hex
writes_documentation = refl

reads_mapped :
    from_string big (codes "::ffff:192.168.0.1")
    ≡ ok (record { addr = 0 ∷ 0 ∷ 0 ∷ 0 ∷ 0 ∷ 0xffff ∷ 0xc0a8 ∷ 1 ∷ [] })
unfolding from_string split split_pair contains from_chars hton_words hton_16 V4.from_string load_32
    halves
reads_mapped = refl

writes_mapped :
    to_string big (record { addr = 0 ∷ 0 ∷ 0 ∷ 0 ∷ 0 ∷ 0xffff ∷ 0xc0a8 ∷ 1 ∷ [] })
    ≡ codes "::ffff:192.168.0.1"
unfolding to_string hton_words format_hex V4.to_string store_32 from_halves format_decimal
writes_mapped = refl

reads_too_long :
    from_string big (codes "1:2:3:4:5:6:7:8::")
    ≡ ok (record { addr = 1 ∷ 2 ∷ 3 ∷ 4 ∷ 5 ∷ 6 ∷ 7 ∷ 8 ∷ [] })
unfolding from_string split split_pair contains from_chars hton_words consumed
reads_too_long = refl

spec_fzmu :
    parse (codes "fzm}")
    ≡ some (record unseen { seen_f = true; seen_z = true; seen_m = true }, codes "}")
unfolding parse
spec_fzmu = refl

abbrev shouting : Spec
shouting = record unseen { seen_z = true; seen_m = true; seen_u = true }

from_string-format_v6_example :
    from_string little (format little shouting documentation) ≡ ok documentation
from_string-format_v6_example =
    from_string-format_v6 little shouting documentation (refl, omega arith)

shouts : format little shouting documentation ≡ codes "2001:0DB8::0.0.0.1"
unfolding format hton_words format_hex V4.to_string store_32 from_halves format_decimal
shouts = refl

from_string_uncheck-agrees_v6_example :
    from_string_uncheck little (codes "2001:db8::1") ≡ some documentation
from_string_uncheck-agrees_v6_example =
    from_string_uncheck-agrees_v6 little (codes "2001:db8::1") documentation reads_documentation

-- Two runs of zeros, the second one longer.
abbrev words : List ℕ
words = 1 ∷ 0 ∷ 0 ∷ 1 ∷ 0 ∷ 0 ∷ 0 ∷ 1 ∷ []

finds_longest : to_string big (record { addr = words }) ≡ codes "1:0:0:1::1"
unfolding to_string hton_words format_hex
finds_longest = refl

scan-longest_example :
    AreZeros words (scan words 0 no_run).best_start (scan words 0 no_run).best_len
    × ((start len : ℕ)
        → AreZeros words start len
        → (len ≤ (scan words 0 no_run).best_len)
          × (0 < len
              → len ≡ (scan words 0 no_run).best_len
              → (scan words 0 no_run).best_start ≤ start))
scan-longest_example = scan-longest words

-- The groups of the text 1:2:3:4:5:6:7:8.
abbrev eight : List ℕ
eight = 1 ∷ 2 ∷ 3 ∷ 4 ∷ 5 ∷ 6 ∷ 7 ∷ 8 ∷ []

abbrev eight_texts : List Bytes
eight_texts = groups true false eight

eight-AreGroups : AreGroups eight eight_texts
eight-AreGroups = groups-AreGroups true false eight (omega arith)

-- ::ffff:192.168.0.1
abbrev router : Tail
router = quad 192 168 0 1

abbrev mapped_prefix : List ℕ
mapped_prefix = 0xffff ∷ []

from_string-format-from_string_example :
    IsAddressV6 documentation
    × (from_string little (format little unseen documentation) ≡ ok documentation)
from_string-format-from_string_example =
    from_string-format-from_string little unseen (codes "2001:db8::1") documentation
      reads_documentation

reads_eight_groups :
    from_string big (side eight_texts ++ b':' ∷ b':' ∷ [])
    ≡ ok (record { addr = hton_words big (spread_out eight []) })
reads_eight_groups =
    from_string-trailing big eight eight_texts eight-AreGroups (omega arith)
      (unfold format_hex in omega arith)

reads_router :
    from_string big (b':' ∷ b':' ∷ side (groups true false mapped_prefix ++ tail_texts router))
    ≡ ok (record { addr = hton_words big (spread_out [] (mapped_prefix ++ tail_words router)) })
reads_router =
    from_string-compressed big [] mapped_prefix [] (groups true false mapped_prefix) router tt
      (groups-AreGroups true false mapped_prefix (omega arith)) (omega arith) (omega arith)
      (unfold format_hex in omega (arith, length-format_parts 192 168 0 1 (omega arith)))

from_string_iff_v6_example :
    (from_string little (codes "2001:db8::1") ≡ ok documentation)
    ↔ (IsForm little (codes "2001:db8::1") documentation × (length (codes "2001:db8::1") ≤ 45))
from_string_iff_v6_example = from_string_iff_v6 little (codes "2001:db8::1") documentation

parse_iff_example :
    (parse (codes "zM}") ≡ some (record unseen { seen_z = true; seen_m = true }, codes "}")) ↔ (
      (xs : List Letter) × (codes "zM}" ≡ spelled xs ++ codes "}")
      × (stops (codes "}") ≡ true)
      × AreNew xs unseen
      × (record unseen { seen_z = true; seen_m = true } ≡ set_all xs unseen)
      × GoTogether (record unseen { seen_z = true; seen_m = true }))
parse_iff_example =
    parse_iff (codes "zM}") (codes "}") (record unseen { seen_z = true; seen_m = true }) refl
