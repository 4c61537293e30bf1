-- ===== src/Ring/Version/Laws.antt =====
-- `version_info::from_string` reads back what the formatter prints, and an invalid text stands above
-- every version.
use Prim.Native.Nat.{Ordering}
use iouxx.Base.{
  ℕ, ◌≤◌, ◌<◌, true, false, List, [], ◌∷◌, Option, none, some, ◌≡◌, ◌≢◌, ◌⊎◌, inl, inr, refl, ap,
  arith, ◌==◌, ==_false, if◌then◌else◌, Bytes, ℤ, pos, negsuc, is_negative, int_max, IsInt,
  Bool-cases, Option-cases, Lacks,
}
use iouxx.Text.Number.{digit_value, format_decimal}
use iouxx.Text.Number.RoundTrip.{IsNumeral, format_decimal-IsNumeral}
use iouxx.Text.Split.{split}
use iouxx.Text.Split.Laws.{split-joined}
use iouxx.Ip.V4.Print.{format_decimal-Lacks}
use iouxx.Ring.Version.{
  VersionInfo, invalid, is_unset, read_int, read_part, read_parts, checked, from_string, compare,
  compare_text, format,
}

abbrev pub version : ℕ → ℕ → VersionInfo
version major minor = record { major = pos major; minor = pos minor }

dot : 10 ≤ digit_value b'.'
unfolding digit_value
dot = omega arith

minus : 10 ≤ digit_value b'-'
unfolding digit_value
minus = omega arith

read_numeral :
    (n : ℕ) (s : Bytes) → IsNumeral 10 n s → Lacks b'-' s → n ≤ int_max → read_part s ≡ some (pos n)
unfolding read_part read_int
read_numeral n [] numeral lacks h = absurd (numeral.ne_nil refl)
read_numeral n (c ∷ s) numeral (ne, _) h = rw (==_false c b'-' ne, numeral.value int_max h)

-- For members from 0 to the largest int, version_info::from_string reads what the formatter prints
-- with the separator "." as that version.
pub from_string-format-version :
    (major minor : ℕ)
    → major ≤ int_max
    → minor ≤ int_max
    → from_string (format b'.' (version major minor)) ≡ version major minor
unfolding from_string format
from_string-format-version major minor hm hn = rw (
  split-joined b'.' (format_decimal major) (format_decimal minor ∷ [])
      (format_decimal-IsNumeral major).ne_nil (format_decimal-Lacks b'.' major dot)
      (format_decimal-Lacks b'.' minor dot, tt),
  read_numeral major (format_decimal major) (format_decimal-IsNumeral major)
      (format_decimal-Lacks b'-' major minus) hm,
  read_numeral minor (format_decimal minor) (format_decimal-IsNumeral minor)
      (format_decimal-Lacks b'-' minor minus) hn,
)

-- A member before it is read, or what was read into it.
abbrev IsMember : ℤ → Type 0
IsMember n = (is_unset n ≡ true) ⊎ (is_negative n ≡ false)

read_part-IsMember : (s : Bytes) → (n : ℤ) → read_part s ≡ some n → IsMember n
unfolding read_part
read_part-IsMember s n h = elim (Option-cases (read_int s)) [
  | inl nothing ↦ let z : none ≡ some n = rw nothing at h in absurd cc
  | inr (m, e) ↦ inr (kept m (rw e at h))
]
  where
    kept : (m : ℤ) → (if is_negative m then none else some m) ≡ some n → is_negative n ≡ false
    kept (pos m) h = let same : pos m ≡ n = cc in rw (← same) refl
    kept (negsuc m) h = cc

read_parts-IsMember :
    (parts : List Bytes) (v w : VersionInfo)
    → IsMember v.major
    → IsMember v.minor
    → read_parts parts v ≡ some w
    → IsMember w.major × IsMember w.minor
unfolding read_parts
read_parts-IsMember [] v w hm hn h = let same : v ≡ w = cc in (rw same at hm, rw same at hn)
read_parts-IsMember (num ∷ parts) v w hm hn h = elim (Option-cases (read_part num)) [
  | inl nothing ↦ absurd (ground (arith, nothing))
  | inr (m, e) ↦
      let member = read_part-IsMember num m e in
      elim (Bool-cases (is_unset v.major)) [
        | inl unset ↦ read_parts-IsMember parts _ w member hn (rw (unset, e) at h)
        | inr set ↦ elim (Bool-cases (is_unset v.minor)) [
          | inl unset ↦ read_parts-IsMember parts _ w hm member (rw (set, unset, e) at h)
          | inr full ↦ let z : none ≡ some w = rw (set, full) at h in absurd cc
        ]
      ]
]

IsMember-positive : (n : ℤ) → IsMember n → is_unset n ≡ false → is_negative n ≡ false
IsMember-positive n (inl unset) h = cc
IsMember-positive n (inr positive) h = positive

checked-positive :
    (o : Option VersionInfo)
    → ((w : VersionInfo) → o ≡ some w → IsMember w.major × IsMember w.minor)
    → (is_negative (checked o).major ≡ false) × (is_negative (checked o).minor ≡ false)
unfolding checked
checked-positive none h = (refl, refl)
checked-positive (some w) h =
    let (hm, hn) = h w refl in
    elim (Bool-cases (is_unset w.major)) [
      | inl unset ↦ rw unset (refl, refl)
      | inr set ↦ elim (Bool-cases (is_unset w.minor)) [
        | inl unset ↦ rw (set, unset) (refl, refl)
        | inr set' ↦
            rw (set, set') (IsMember-positive w.major hm set, IsMember-positive w.minor hn set')
      ]
    ]

-- No member of the version that version_info::from_string returns is negative, whatever the text.
pub from_string-positive :
    (text : Bytes)
    → (is_negative (from_string text).major ≡ false)
      × (is_negative (from_string text).minor ≡ false)
unfolding from_string
from_string-positive text =
    checked-positive _ (λ w h. read_parts-IsMember (split b'.' text) _ w (inl refl) (inl refl) h)

below_invalid :
    (major minor : ℤ)
    → IsInt major
    → IsInt minor
    → ¬ ((major ≡ pos int_max) × (minor ≡ pos int_max))
    → compare (record { major = major; minor = minor }) invalid ≡ Ordering.lt
unfolding compare
below_invalid (negsuc a) n hm hn ne = refl
below_invalid (pos a) (negsuc b) hm hn ne = ground arith
below_invalid (pos a) (pos b) hm hn ne = elim (Bool-cases (a == int_max)) [
  | inl largest ↦
      let same : a ≡ int_max = ground arith in
      let smaller : b < int_max = ground (arith, λ (e : b ≡ int_max). ne (ap pos same, ap pos e)) in
      ground arith
  | inr smaller ↦ ground arith
]

-- A version of two int members that is not the invalid one compares less than every text that
-- version_info::from_string reads as invalid.
pub compare_text-invalid :
    (ver : VersionInfo) (text : Bytes)
    → from_string text ≡ invalid
    → IsInt ver.major
    → IsInt ver.minor
    → ver ≢ invalid
    → compare_text ver text ≡ Ordering.lt
unfolding compare_text
compare_text-invalid ver text h major minor ne = rw h (
    below_invalid ver.major ver.minor major minor
      (λ (em, en). ne (λ i. record { major = em i; minor = en i })))
