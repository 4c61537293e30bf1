-- ===== src/Ip/V4/Print.antt =====
-- The text of an IPv4 address: four numerals between dots.
use iouxx.Base.{
  ℕ, ◌≤◌, List, [], ◌∷◌, ◌≡◌, ◌≢◌, refl, arith, Bytes, All, Lacks, length, length-append,
}
use iouxx.Text.Number.{digit_value, format_decimal}
use iouxx.Text.Number.Digits.{Lacks-of_IsDigit}
use iouxx.Text.Number.RoundTrip.{format_decimal-IsNumeral, length-format_decimal}
use iouxx.Text.Split.Laws.{joined, joined-Lacks}
use iouxx.Ip.Bytes.{Endian, IsByte, store_32}
use iouxx.Ip.V4.{AddressV4, format_parts, to_string}

-- The text of a byte lacks every byte that is no decimal digit.
pub format_decimal-Lacks : (b n : ℕ) → 10 ≤ digit_value b → Lacks b (format_decimal n)
format_decimal-Lacks b n h =
    Lacks-of_IsDigit 10 b (format_decimal n) h (format_decimal-IsNumeral n).digits

pub to_string-parts :
    (e : Endian) (a : AddressV4) → to_string e a ≡ format_parts (store_32 e a.addr)
unfolding to_string
to_string-parts e a = refl

module _ (p q r s : ℕ) where
  abbrev pub numerals : List Bytes
  numerals = format_decimal q ∷ format_decimal r ∷ format_decimal s ∷ []

  pub format_parts-joined :
      format_parts (p ∷ q ∷ r ∷ s ∷ []) ≡ joined b'.' (format_decimal p) numerals
  unfolding format_parts
  format_parts-joined = refl

  pub numerals-Lacks : (b : ℕ) → 10 ≤ digit_value b → All (Lacks b) numerals
  numerals-Lacks b h =
      let lacks = λ (n : ℕ). format_decimal-Lacks b n h in (lacks q, (lacks r, (lacks s, tt)))

  pub format_parts-Lacks :
      (b : ℕ) → 10 ≤ digit_value b → b'.' ≢ b → Lacks b (format_parts (p ∷ q ∷ r ∷ s ∷ []))
  format_parts-Lacks b h ne = rw format_parts-joined (
      joined-Lacks b'.' b (format_decimal p) numerals ne (format_decimal-Lacks b p h)
        (numerals-Lacks b h))

  -- No more than 15 bytes.
  pub length-format_parts :
      All IsByte (p ∷ q ∷ r ∷ s ∷ []) → length (format_parts (p ∷ q ∷ r ∷ s ∷ [])) ≤ 15
  unfolding format_parts
  length-format_parts (hp, (hq, (hr, (hs, _)))) = omega (
    arith,
    length-append {0} {A = ℕ} (format_decimal p),
    length-append {0} {A = ℕ} (format_decimal q),
    length-append {0} {A = ℕ} (format_decimal r),
    length-format_decimal p hp,
    length-format_decimal q hq,
    length-format_decimal r hr,
    length-format_decimal s hs,
  )
