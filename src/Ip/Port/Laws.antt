-- ===== src/Ip/Port/Laws.antt =====
-- The parsers of `port` and its formatter are inverse to each other.
use iouxx.Base.{
  ℕ, ◌≤◌, true, not, ◌&&◌, [], ◌∷◌, some, ◌≡◌, ◌↔◌, refl, sym, ap, ◌∙◌, arith, ◌==◌, ltb, Bytes,
  length, Lacks,
}
use iouxx.Base.Result.{ok, require_cases, invalid_argument, >>=-eq-ok}
use iouxx.Text.Number.{parsed, digit_value, from_chars, format_decimal}
use iouxx.Text.Number.RoundTrip.{format_decimal-IsNumeral, format_decimal_leads}
use iouxx.Text.Number.Canonical.{from_chars_canonical}
use iouxx.Ip.Bytes.{Endian, hton_16, hton_16-hton_16, hton_16-IsWord}
use iouxx.Ip.V4.{consumed, front}
use iouxx.Ip.V4.Sound.{consumed_cases}
use iouxx.Ip.V4.Print.{format_decimal-Lacks}
use iouxx.Ip.Port.{Port, IsPort, from_string, from_string_uncheck, to_string}

no_leading_zero :
    (n : ℕ) (s : Bytes) → s ≡ format_decimal n → not (ltb 1 (length s) && front s == b'0') ≡ true
no_leading_zero n [] e = refl
no_leading_zero n (c ∷ []) e = refl
no_leading_zero n (c ∷ d ∷ s) e = ground (arith, format_decimal_leads n c (d ∷ s) (sym e) (λ z. cc))

read-to_string :
    (e : Endian) (a : Port)
    → IsPort a
    → from_chars 10 65535 (to_string e a) ≡ parsed (hton_16 e a.p) []
unfolding to_string
read-to_string e a h =
    (format_decimal-IsNumeral (hton_16 e a.p)).value 65535 (omega (arith, hton_16-IsWord e a.p h))

pub from_string-to_string_port :
    (e : Endian) (a : Port) → IsPort a → from_string e (to_string e a) ≡ ok a
unfolding from_string consumed
from_string-to_string_port e a h = rw (
  no_leading_zero (hton_16 e a.p) (to_string e a) (unfold to_string in refl),
  read-to_string e a h,
  hton_16-hton_16 e a.p h,
)

pub from_string_uncheck-to_string_port :
    (e : Endian) (a : Port) → IsPort a → from_string_uncheck e (to_string e a) ≡ some a
unfolding from_string_uncheck
from_string_uncheck-to_string_port e a h = rw (read-to_string e a h, hton_16-hton_16 e a.p h)

pub port-Lacks : (e : Endian) (a : Port) (b : ℕ) → 10 ≤ digit_value b → Lacks b (to_string e a)
unfolding to_string
port-Lacks e a b h = format_decimal-Lacks b (hton_16 e a.p) h

only_zero :
    (c : ℕ) (s : Bytes) → not (ltb 1 (length (c ∷ s)) && c == b'0') ≡ true → c ≡ b'0' → s ≡ []
only_zero c [] h e = refl
only_zero c (d ∷ s) h e = absurd (ground arith)

from_string_sound :
    (e : Endian) (text : Bytes) (a : Port)
    → from_string e text ≡ ok a
    → IsPort a × (text ≡ to_string e a)
unfolding from_string to_string from_chars consumed
from_string_sound e [] a h = cc
from_string_sound e (c ∷ s) a h =
    let (starts, more) = require_cases _ invalid_argument _ h in
    let (n, number, made) = >>=-eq-ok (consumed (from_chars 10 65535 (c ∷ s))) _ more in
    let (same, fits) =
      from_chars_canonical 65535 n c s (consumed_cases _ number) (only_zero c s starts) in
    let named : hton_16 e n ≡ a.p = cc in
    (
      rw (← named) (hton_16-IsWord e n (omega arith)),
      same ∙ ap format_decimal (sym (hton_16-hton_16 e n (omega arith)) ∙ ap (hton_16 e) named),
    )

-- port::from_string reads a text as a port exactly if the port is a 16-bit number and the text is
-- what port::to_string prints for it.
pub from_string_iff_port :
    (e : Endian) (text : Bytes) (a : Port)
    → (from_string e text ≡ ok a) ↔ (IsPort a × (text ≡ to_string e a))
from_string_iff_port e text a = (
  λ h. from_string_sound e text a h,
  λ h. ap (from_string e) h.1 ∙ from_string-to_string_port e a h.0,
)

-- On every text that port::from_string reads as a port, no assumption of port::from_string_uncheck
-- fails and it reads the same port.
pub from_string_uncheck-agrees_port :
    (e : Endian) (text : Bytes) (a : Port)
    → from_string e text ≡ ok a
    → from_string_uncheck e text ≡ some a
from_string_uncheck-agrees_port e text a h =
    let (fits, same) = from_string_sound e text a h in
    ap (from_string_uncheck e) same ∙ from_string_uncheck-to_string_port e a fits
