-- ===== src/Ip/V4/Uncheck.antt =====
-- `address_v4::from_string_uncheck` on the texts that `address_v4::from_string` accepts.
use iouxx.Base.{ℕ, [], ◌∷◌, some, ◌≡◌, ◌∙◌, ap, arith, Bytes, All}
use iouxx.Base.Result.{ok}
use iouxx.Text.Number.{parsed, from_chars, format_decimal}
use iouxx.Text.Number.RoundTrip.{format_decimal-IsNumeral}
use iouxx.Ip.Bytes.{Endian, IsByte, load_32, store_32_parts, store_32-IsByte, load_32-store_32}
use iouxx.Ip.V4.{
  AddressV4, IsAddressV4, zeros, assume_parts, from_string, from_string_uncheck, format_parts,
  to_string,
}
use iouxx.Ip.V4.Print.{numerals, to_string-parts}
use iouxx.Ip.V4.RoundTrip.{split-format_parts}
use iouxx.Ip.V4.Sound.{from_string_sound}

from_chars-format_decimal : (n : ℕ) → IsByte n → from_chars 10 255 (format_decimal n) ≡ parsed n []
from_chars-format_decimal n h = (format_decimal-IsNumeral n).value 255 (omega arith)

module _ (p q r s : ℕ) (h : All IsByte (p ∷ q ∷ r ∷ s ∷ [])) where
  assume_parts-numerals :
      assume_parts (format_decimal p ∷ numerals p q r s) zeros 0 ≡ some (p ∷ q ∷ r ∷ s ∷ [])
  unfolding assume_parts
  assume_parts-numerals = rw (
    from_chars-format_decimal p h.0,
    from_chars-format_decimal q h.1.0,
    from_chars-format_decimal r h.1.1.0,
    from_chars-format_decimal s h.1.1.1.0,
  )

  from_string_uncheck-format_parts :
      (e : Endian)
      → from_string_uncheck e (format_parts (p ∷ q ∷ r ∷ s ∷ []))
        ≡ some (record { addr = load_32 e (p ∷ q ∷ r ∷ s ∷ []) })
  unfolding from_string_uncheck
  from_string_uncheck-format_parts e =
      rw (from_string_uncheck, split-format_parts p q r s h, assume_parts-numerals)

-- No assumption of the unchecked parser fails on the text of an address, which it reads back.
pub from_string_uncheck-to_string :
    (e : Endian) (a : AddressV4) → IsAddressV4 a → from_string_uncheck e (to_string e a) ≡ some a
from_string_uncheck-to_string e a h =
    let (p, q, r, s, parts) = store_32_parts e a.addr in
    let whole : load_32 e (p ∷ q ∷ r ∷ s ∷ []) ≡ a.addr =
      rw parts at (load_32-store_32 e a.addr h) in
    rw (to_string-parts e a, parts)
      (from_string_uncheck-format_parts p q r s (rw parts at (store_32-IsByte e a.addr)) e
        ∙ ap (λ n. some (record { addr = n })) whole)

-- On every text that address_v4::from_string reads as an address, no assumption of
-- address_v4::from_string_uncheck fails and it reads the same address.
pub from_string_uncheck-agrees :
    (e : Endian) (text : Bytes) {a : AddressV4}
    → from_string e text ≡ ok a
    → from_string_uncheck e text ≡ some a
from_string_uncheck-agrees e text {a} h =
    let (same, fits) = from_string_sound e text h in
    ap (from_string_uncheck e) same ∙ from_string_uncheck-to_string e a fits
