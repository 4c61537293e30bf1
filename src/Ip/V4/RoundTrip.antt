-- ===== src/Ip/V4/RoundTrip.antt =====
-- `address_v4::from_string` reads back what `address_v4::to_string` wrote.
use iouxx.Base.{
  ℕ, ◌≤◌, true, false, not, ◌||◌, [], ◌∷◌, ◌≡◌, ◌≢◌, refl, sym, ◌∙◌, ap, arith, ltb, Bytes, All,
  Lacks, length,
}
use iouxx.Base.Result.{ok}
use iouxx.Text.Number.{digit_value, format_decimal}
use iouxx.Text.Number.RoundTrip.{
  format_decimal-IsNumeral, length-format_decimal, format_decimal_leads,
}
use iouxx.Text.Split.{split}
use iouxx.Text.Split.Laws.{split-joined, joined-ne-nil}
use iouxx.Ip.Bytes.{Endian, IsByte, load_32, store_32_parts, store_32-IsByte, load_32-store_32}
use iouxx.Ip.V4.{
  AddressV4, IsAddressV4, is_empty, parse_part, parse_parts, finish, from_string, format_parts,
  to_string, zeros,
}
use iouxx.Ip.V4.Print.{
  format_decimal-Lacks, to_string-parts, numerals, format_parts-joined, format_parts-Lacks,
  numerals-Lacks, length-format_parts,
}

-- What the loop needs of a part: it is the text of a byte.
parse_part-text : (n : ℕ) (s : Bytes) → s ≡ format_decimal n → IsByte n → parse_part s ≡ ok n
unfolding parse_part
parse_part-text n [] e h = absurd ((format_decimal-IsNumeral n).ne_nil (sym e))
parse_part-text n (c ∷ []) e h =
    ground (arith, rw (← e) at ((format_decimal-IsNumeral n).value 255 (omega arith)))
parse_part-text n (c ∷ d ∷ s) e h = ground (
  arith,
  rw (← e) at ((format_decimal-IsNumeral n).value 255 (omega arith)),
  rw (← e) at (length-format_decimal n h),
  format_decimal_leads n c (d ∷ s) (sym e) (λ z. cc),
)

parse_part-format_decimal : (n : ℕ) → IsByte n → parse_part (format_decimal n) ≡ ok n
parse_part-format_decimal n = parse_part-text n (format_decimal n) refl

not_digit : 10 ≤ digit_value b'.'
unfolding digit_value
not_digit = omega arith

pub is_empty-false : (s : Bytes) → s ≢ [] → is_empty s ≡ false
is_empty-false [] ne = absurd (ne refl)
is_empty-false (c ∷ s) ne = refl

-- The guard on the length lets a text through that is not empty and not too long.
pub length_guard :
    (limit : ℕ) (s : Bytes)
    → s ≢ []
    → length s ≤ limit
    → not (is_empty s || ltb limit (length s)) ≡ true
length_guard limit [] ne h = absurd (ne refl)
length_guard limit (c ∷ s) ne h = ground arith

module _ (p q r s : ℕ) (h : All IsByte (p ∷ q ∷ r ∷ s ∷ [])) where
  parse_parts-numerals :
      parse_parts (format_decimal p ∷ numerals p q r s) zeros 0 ≡ ok (p ∷ q ∷ r ∷ s ∷ [], 4)
  unfolding parse_parts
  parse_parts-numerals =
      let (hp, hr) = h in
      rw (
        parse_part-format_decimal p h.0,
        parse_part-format_decimal q h.1.0,
        parse_part-format_decimal r h.1.1.0,
        parse_part-format_decimal s h.1.1.1.0,
      )

  pub split-format_parts :
      split b'.' (format_parts (p ∷ q ∷ r ∷ s ∷ [])) ≡ format_decimal p ∷ numerals p q r s
  split-format_parts = rw (format_parts-joined p q r s) (
      split-joined b'.' (format_decimal p) (numerals p q r s) (format_decimal-IsNumeral p).ne_nil
        (format_decimal-Lacks b'.' p not_digit) (numerals-Lacks p q r s b'.' not_digit))

  pub format_parts-ne-nil : format_parts (p ∷ q ∷ r ∷ s ∷ []) ≢ []
  format_parts-ne-nil =
      rw (format_parts-joined p q r s) (
        joined-ne-nil b'.' (format_decimal p) (numerals p q r s)
          (format_decimal-IsNumeral p).ne_nil)

  pub from_string-format_parts :
      (e : Endian)
      → from_string e (format_parts (p ∷ q ∷ r ∷ s ∷ []))
        ≡ ok (record { addr = load_32 e (p ∷ q ∷ r ∷ s ∷ []) })
  unfolding from_string
  from_string-format_parts e = rw (
    from_string,
    length_guard 15 _ format_parts-ne-nil (length-format_parts p q r s h),
    split-format_parts,
    parse_parts-numerals,
    finish,
  )

-- The checked parser reads back the text of every address.
pub from_string-to_string :
    (e : Endian) (a : AddressV4) → IsAddressV4 a → from_string e (to_string e a) ≡ ok a
from_string-to_string e a h =
    let (p, q, r, s, parts) = store_32_parts e a.addr in
    let bytes = rw parts at (store_32-IsByte e a.addr) in
    let whole : load_32 e (p ∷ q ∷ r ∷ s ∷ []) ≡ a.addr =
      rw parts at (load_32-store_32 e a.addr h) in
    rw (to_string-parts e a, parts)
      (from_string-format_parts p q r s bytes e ∙ ap (λ n. ok (record { addr = n })) whole)

-- The text of an address holds digits and dots only.
pub to_string-Lacks :
    (e : Endian) (a : AddressV4) (b : ℕ) → 10 ≤ digit_value b → b'.' ≢ b → Lacks b (to_string e a)
to_string-Lacks e a b h ne =
    let (p, q, r, s, parts) = store_32_parts e a.addr in
    rw (to_string-parts e a, parts) (format_parts-Lacks p q r s b h ne)

pub to_string-ne-nil : (e : Endian) (a : AddressV4) → to_string e a ≢ []
to_string-ne-nil e a =
    let (p, q, r, s, parts) = store_32_parts e a.addr in
    rw (to_string-parts e a, parts)
      (format_parts-ne-nil p q r s (rw parts at (store_32-IsByte e a.addr)))
