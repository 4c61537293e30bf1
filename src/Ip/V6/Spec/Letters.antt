-- ===== src/Ip/V6/Spec/Letters.antt =====
-- The letters of a format specification of an IPv6 address.
use iouxx.Base.{
  ℕ, Bool, true, false, List, [], ◌∷◌, ◌≡◌, ◌⊎◌, inl, inr, refl, Bytes, Bool-cases, if◌then◌else◌,
}
use iouxx.Ip.V6.Spec.{Spec, is_allowed}

-- The letters of a specification, which stand for the fields.
pub data Flag : Type 0 where
  flag_r flag_f flag_z flag_m flag_n flag_u : Flag

-- A letter, and whether it is in upper case.
abbrev pub Letter : Type 0
Letter = Flag × Bool

abbrev pub code_of : Letter → ℕ
code_of (flag_r, upper) = if upper then b'R' else b'r'
code_of (flag_f, upper) = if upper then b'F' else b'f'
code_of (flag_z, upper) = if upper then b'Z' else b'z'
code_of (flag_m, upper) = if upper then b'M' else b'm'
code_of (flag_n, upper) = if upper then b'N' else b'n'
code_of (flag_u, upper) = if upper then b'U' else b'u'

abbrev pub seen : Flag → Spec → Bool
seen flag_r s = s.seen_r
seen flag_f s = s.seen_f
seen flag_z s = s.seen_z
seen flag_m s = s.seen_m
seen flag_n s = s.seen_n
seen flag_u s = s.seen_u

abbrev pub with_flag : Flag → Spec → Spec
with_flag flag_r s = record s { seen_r = true }
with_flag flag_f s = record s { seen_f = true }
with_flag flag_z s = record s { seen_z = true }
with_flag flag_m s = record s { seen_m = true }
with_flag flag_n s = record s { seen_n = true }
with_flag flag_u s = record s { seen_u = true }

-- The text of letters, what they set, and that each is new.
abbrev pub spelled : List Letter → Bytes
spelled [] = []
spelled (x ∷ xs) = code_of x ∷ spelled xs

abbrev pub set_all : List Letter → Spec → Spec
set_all [] s = s
set_all (x ∷ xs) s = set_all xs (with_flag x.0 s)

abbrev pub AreNew : List Letter → Spec → Type 0
AreNew [] s = Unit
AreNew (x ∷ xs) s = (seen x.0 s ≡ false) × AreNew xs (with_flag x.0 s)

-- The letters that go together: n and u with r; no r, and not both m and n.
abbrev pub GoTogether : Spec → Type 0
GoTogether s =
    ((s.seen_r ≡ true) × (s.seen_f ≡ false) × (s.seen_z ≡ false) × (s.seen_m ≡ false))
    ⊎ ((s.seen_r ≡ false) × ((s.seen_m ≡ false) ⊎ (s.seen_n ≡ false)))

pub is_allowed-GoTogether : (s : Spec) → is_allowed s ≡ true → GoTogether s
unfolding is_allowed
is_allowed-GoTogether s h = elim (Bool-cases s.seen_r) [
  | inl e ↦ elim (Bool-cases s.seen_f) [
    | inl e₁ ↦ absurd (cc (rw (e, e₁) at h))
    | inr e₁ ↦ elim (Bool-cases s.seen_z) [
      | inl e₂ ↦ absurd (cc (rw (e, e₁, e₂) at h))
      | inr e₂ ↦ elim (Bool-cases s.seen_m) [
        | inl e₃ ↦ absurd (cc (rw (e, e₁, e₂, e₃) at h))
        | inr e₃ ↦ inl (e, e₁, e₂, e₃)
      ]
    ]
  ]
  | inr e ↦ elim (Bool-cases s.seen_m) [
    | inl e₁ ↦ elim (Bool-cases s.seen_n) [
      | inl e₂ ↦ absurd (cc (rw (e, e₁, e₂) at h))
      | inr e₂ ↦ inr (e, inr e₂)
    ]
    | inr e₁ ↦ inr (e, inl e₁)
  ]
]

pub GoTogether-is_allowed : (s : Spec) → GoTogether s → is_allowed s ≡ true
unfolding is_allowed
GoTogether-is_allowed s (inl (e, e₁, e₂, e₃)) = rw (e, e₁, e₂, e₃) refl
GoTogether-is_allowed s (inr (e, inl e₁)) = rw (e, e₁) refl
GoTogether-is_allowed s (inr (e, inr e₁)) = elim (Bool-cases s.seen_m) [
  | inl e₂ ↦ rw (e, e₂, e₁) refl
  | inr e₂ ↦ rw (e, e₂) refl
]
