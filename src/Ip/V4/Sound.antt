-- ===== src/Ip/V4/Sound.antt =====
-- What `address_v4::from_string` accepts: the text of an address and nothing else.
use iouxx.Base.{
  ℕ, suc, ◌<◌, true, not, ◌&&◌, ◌||◌, ◌==◌, List, [], ◌∷◌, ◌≡◌, ◌↔◌, refl, sym, ◌∙◌, ap, arith, ltb,
  Bytes, All, length, set, ap₂,
}
use iouxx.Base.Result.{ok, invalid_argument, ◌>>=◌, ◌>>◌, require, >>=-eq-ok, require_cases}
use iouxx.Text.Number.{FromChars, parsed, failed, from_chars, format_decimal}
use iouxx.Text.Number.Canonical.{from_chars_canonical}
use iouxx.Text.Split.{split}
use iouxx.Text.Split.Laws.{joined, joined-split}
use iouxx.Ip.Bytes.{Endian, IsByte, load_32, store_32-load_32, load_32-lt}
use iouxx.Ip.V4.{
  AddressV4, IsAddressV4, is_empty, consumed, parse_part, parse_parts, finish, from_string,
  format_parts, to_string, zeros,
}
use iouxx.Ip.V4.RoundTrip.{from_string-to_string}
use iouxx.Ip.V4.Print.{to_string-parts, numerals, format_parts-joined}

pub consumed_cases : (r : FromChars) {n : ℕ} → consumed r ≡ ok n → r ≡ parsed n []
unfolding consumed
consumed_cases (parsed m []) h = ground arith
consumed_cases (parsed m (c ∷ rest)) h = cc
consumed_cases (failed ec) h = cc

parse_part_canonical : (s : Bytes) (n : ℕ) → parse_part s ≡ ok n → (s ≡ format_decimal n) × IsByte n
unfolding parse_part
parse_part_canonical [] n h = cc
parse_part_canonical (c ∷ []) n h =
    let (text, le) = from_chars_canonical 255 n c [] (consumed_cases _ h) (λ _. refl) in
    (text, omega arith)
parse_part_canonical (c ∷ d ∷ s) n h =
    let text = c ∷ d ∷ s in
    let (short, h₁) =
      require_cases (not (ltb 3 (length text))) invalid_argument
        (require (not (ltb 1 (length text) && c == b'0')) invalid_argument
          >> consumed (from_chars 10 255 text))
        h in
    let (leading, h₂) =
      require_cases (not (ltb 1 (length text) && c == b'0')) invalid_argument
        (consumed (from_chars 10 255 text)) h₁ in
    let (canonical, le) =
      from_chars_canonical 255 n c (d ∷ s) (consumed_cases _ h₂) (λ z. absurd (ground arith)) in
    (canonical, omega arith)

-- One round of the loop, of a run that succeeds.
record IsRound (e : Endian) (part : Bytes) (parts : List Bytes) (results : List ℕ) (count : ℕ)
    (a : AddressV4) : Type 0 where
  room : count < 4
  byte : ℕ
  text : part ≡ format_decimal byte
  fits : IsByte byte
  rest : (parse_parts parts (set results count byte) (suc count) >>= finish e) ≡ ok a

parse_parts_guard :
    (part : Bytes) (parts : List Bytes) (results : List ℕ) (count : ℕ) {r : List ℕ × ℕ}
    → parse_parts (part ∷ parts) results count ≡ ok r
    → (ltb count 4 ≡ true)
      × ((parse_part part >>= λ n. parse_parts parts (set results count n) (suc count)) ≡ ok r)
unfolding parse_parts
parse_parts_guard part parts results count h =
    require_cases (ltb count 4) invalid_argument
      (parse_part part >>= λ n. parse_parts parts (set results count n) (suc count)) h

parse_parts-IsRound :
    (e : Endian) (part : Bytes) (parts : List Bytes) (results : List ℕ) (count : ℕ) {a : AddressV4}
    → (parse_parts (part ∷ parts) results count >>= finish e) ≡ ok a
    → IsRound e part parts results count a
parse_parts-IsRound e part parts results count h =
    let (r, h₁, h₂) = >>=-eq-ok (parse_parts (part ∷ parts) results count) (finish e) h in
    let (room, h₃) = parse_parts_guard part parts results count h₁ in
    let (n, h₄, h₅) =
      >>=-eq-ok (parse_part part) (λ n. parse_parts parts (set results count n) (suc count)) h₃ in
    let (text, fits) = parse_part_canonical part n h₄ in
    record { room = ground arith; byte = n; text = text; fits = fits; rest = rw h₅ h₂ }

-- Four parts, each the text of a byte.
record IsQuad (e : Endian) (parts : List Bytes) (a : AddressV4) : Type 0 where
  p : ℕ
  q : ℕ
  r : ℕ
  s : ℕ
  texts : parts ≡ format_decimal p ∷ numerals p q r s
  fits : All IsByte (p ∷ q ∷ r ∷ s ∷ [])
  address : a ≡ record { addr = load_32 e (p ∷ q ∷ r ∷ s ∷ []) }

finish_count :
    (e : Endian) (results : List ℕ) (count : ℕ) {a : AddressV4}
    → finish e (results, count) ≡ ok a
    → (count ≡ 4) × (a ≡ record { addr = load_32 e results })
unfolding finish
finish_count e results count h = ground arith

parse_parts-nil :
    (e : Endian) (results : List ℕ) (count : ℕ) {a : AddressV4}
    → (parse_parts [] results count >>= finish e) ≡ ok a
    → (count ≡ 4) × (a ≡ record { addr = load_32 e results })
parse_parts-nil e results count h = finish_count e results count (unfold parse_parts in h)

parse_parts-IsQuad :
    (e : Endian) (parts : List Bytes) (a : AddressV4)
    → (parse_parts parts zeros 0 >>= finish e) ≡ ok a
    → IsQuad e parts a
parse_parts-IsQuad e [] a h = absurd (omega (arith, (parse_parts-nil e zeros 0 h).0))
parse_parts-IsQuad e (p ∷ []) a h =
    let one = parse_parts-IsRound e p [] zeros 0 h in
    absurd (omega (arith, (parse_parts-nil e _ 1 one.rest).0))
parse_parts-IsQuad e (p ∷ q ∷ []) a h =
    let one = parse_parts-IsRound e p (q ∷ []) zeros 0 h in
    let two = parse_parts-IsRound e q [] _ 1 one.rest in
    absurd (omega (arith, (parse_parts-nil e _ 2 two.rest).0))
parse_parts-IsQuad e (p ∷ q ∷ r ∷ []) a h =
    let one = parse_parts-IsRound e p (q ∷ r ∷ []) zeros 0 h in
    let two = parse_parts-IsRound e q (r ∷ []) _ 1 one.rest in
    let three = parse_parts-IsRound e r [] _ 2 two.rest in
    absurd (omega (arith, (parse_parts-nil e _ 3 three.rest).0))
parse_parts-IsQuad e (p ∷ q ∷ r ∷ s ∷ []) a h =
    let one = parse_parts-IsRound e p (q ∷ r ∷ s ∷ []) zeros 0 h in
    let two = parse_parts-IsRound e q (r ∷ s ∷ []) _ 1 one.rest in
    let three = parse_parts-IsRound e r (s ∷ []) _ 2 two.rest in
    let four = parse_parts-IsRound e s [] _ 3 three.rest in
    record {
      p = one.byte;
      q = two.byte;
      r = three.byte;
      s = four.byte;
      texts = ap₂ ◌∷◌ one.text (ap₂ ◌∷◌ two.text (ap₂ ◌∷◌ three.text (ap (λ t. t ∷ []) four.text)));
      fits = (one.fits, (two.fits, (three.fits, (four.fits, tt))));
      address = (parse_parts-nil e _ 4 four.rest).1;
    }
parse_parts-IsQuad e (p ∷ q ∷ r ∷ s ∷ t ∷ ts) a h =
    let one = parse_parts-IsRound e p (q ∷ r ∷ s ∷ t ∷ ts) zeros 0 h in
    let two = parse_parts-IsRound e q (r ∷ s ∷ t ∷ ts) _ 1 one.rest in
    let three = parse_parts-IsRound e r (s ∷ t ∷ ts) _ 2 two.rest in
    let four = parse_parts-IsRound e s (t ∷ ts) _ 3 three.rest in
    let five = parse_parts-IsRound e t ts _ 4 four.rest in absurd (omega (arith, five.room))

-- The text of four bytes is the text of the address that they make.
to_string-load_32 :
    (e : Endian) (p q r s : ℕ)
    → All IsByte (p ∷ q ∷ r ∷ s ∷ [])
    → to_string e (record { addr = load_32 e (p ∷ q ∷ r ∷ s ∷ []) })
      ≡ joined b'.' (format_decimal p) (numerals p q r s)
to_string-load_32 e p q r s h =
    to_string-parts e _
    ∙ ap format_parts (store_32-load_32 e p q r s h)
    ∙ format_parts-joined p q r s

-- An accepted text is the one that the formatter writes for the address, which is a 32-bit number.
pub from_string_sound :
    (e : Endian) (text : Bytes) {a : AddressV4}
    → from_string e text ≡ ok a
    → (text ≡ to_string e a) × IsAddressV4 a
unfolding from_string
from_string_sound e text {a} h =
    let (guarded, h₁) =
      require_cases (not (is_empty text || ltb 15 (length text))) invalid_argument
        (parse_parts (split b'.' text) zeros 0 >>= finish e) h in
    let quad = parse_parts-IsQuad e (split b'.' text) a h₁ in
    let whole = joined-split b'.' text _ _ quad.texts in
    let named = quad.address in
    (
      sym whole ∙ sym (to_string-load_32 e _ _ _ _ quad.fits) ∙ ap (to_string e) (sym named),
      rw named (load_32-lt e _ _ _ _ quad.fits),
    )

-- address_v4::from_string reads a text as an address exactly if the address is a 32-bit number and
-- the text is what address_v4::to_string prints for it.
pub from_string_iff :
    (e : Endian) (text : Bytes) (a : AddressV4)
    → (from_string e text ≡ ok a) ↔ (IsAddressV4 a × (text ≡ to_string e a))
from_string_iff e text a = (
  λ h. let (same, fits) = from_string_sound e text h in (fits, same),
  λ h. ap (from_string e) h.1 ∙ from_string-to_string e a h.0,
)
