-- ===== src/Ip/V6/RoundTrip.antt =====
-- `address_v6::from_string` reads back what the formatter prints, whatever the format specification.
use iouxx.Base.{ℕ, Bool, true, false, not, List, ◌++◌, append-nil, ◌≡◌, sym, ap, subst, ◌∙◌}
use iouxx.Base.Result.{ok}
use iouxx.Ip.Bytes.{Endian, hton_words, hton_words-hton_words, hton_words-IsWord, length-hton_words}
use iouxx.Ip.V6.{AddressV6, IsAddressV6}
use iouxx.Ip.V6.Spec.{Spec, recommended}
use iouxx.Ip.V6.Format.{
  compressed_ipv6, full_ipv6, mixed_full_ipv6, do_format, shows_mixed, format, to_string,
}
use iouxx.Ip.V6.Shown.{read_full, compressed_read}
use iouxx.Ip.V6.View.{IsView, view, plain_side}
use iouxx.Ip.V6.Parse.{from_string}

do_format_read :
    (e : Endian) (local : List ℕ) (full removed uppercase mixed : Bool)
    → IsView e local mixed
    → from_string e
        (do_format e (record { addr = hton_words e local }) local full removed mixed uppercase)
      ≡ ok (record { addr = hton_words e local })
unfolding do_format
do_format_read e local true removed uppercase false v =
    ap (from_string e) (
      sym (append-nil _)
      ∙ ap (◌++◌ (full_ipv6 local removed uppercase)) v.text
      ∙ plain_side e local removed uppercase false v)
    ∙ read_full e local removed uppercase false v
do_format_read e local true removed uppercase true v =
    ap (from_string e) (
      ap (◌++◌ (mixed_full_ipv6 local removed uppercase)) v.text
      ∙ plain_side e local removed uppercase true v)
    ∙ read_full e local removed uppercase true v
do_format_read e local false removed uppercase mixed v =
    ap (λ t. from_string e (compressed_ipv6 local removed mixed uppercase ++ t)) v.text
    ∙ compressed_read e local removed uppercase mixed v

-- For either byte order of the machine, every format specification and every address of eight
-- 16-bit words, address_v6::from_string reads what formatter<address_v6>::format prints as that
-- address.
pub from_string-format_v6 :
    (e : Endian) (spec : Spec) (a : AddressV6)
    → IsAddressV6 a
    → from_string e (format e spec a) ≡ ok a
unfolding format
from_string-format_v6 e spec a (eight, words) =
    let local = hton_words e a.addr in
    let mixed = shows_mixed spec local in
    subst
      (λ ws.
        from_string e
          (do_format e (record { addr = ws }) local spec.seen_f (not spec.seen_z) mixed spec.seen_u)
        ≡ ok (record { addr = ws }))
      (hton_words-hton_words e a.addr words)
      (do_format_read e local spec.seen_f (not spec.seen_z) spec.seen_u mixed (
        view e local mixed (length-hton_words e a.addr ∙ eight) (hton_words-IsWord e a.addr words)))

pub from_string-to_string_v6 :
    (e : Endian) (a : AddressV6) → IsAddressV6 a → from_string e (to_string e a) ≡ ok a
unfolding to_string
from_string-to_string_v6 e a h = from_string-format_v6 e recommended a h
