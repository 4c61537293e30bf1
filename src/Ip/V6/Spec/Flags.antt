-- ===== src/Ip/V6/Spec/Flags.antt =====
-- Which format specifications of an IPv6 address `formatter<address_v6>::parse` accepts.
use iouxx.Base.{
  ℕ, Bool, true, false, ◌==◌, List, [], ◌∷◌, ◌++◌, some, ◌≡◌, ◌↔◌, inl, inr, refl, sym, ap, ap₂,
  Option-cases, ◌∙◌, subst, arith, Bytes, Bool-cases, and_then,
}
use iouxx.Ip.V6.Spec.{Spec, unseen, either, once, see, see_all, is_allowed, checked, stops, parse}
use iouxx.Ip.V6.Spec.Letters.{
  Flag, flag_r, flag_f, flag_z, flag_m, flag_n, flag_u, Letter, code_of, seen, with_flag, spelled,
  set_all, AreNew, GoTogether, is_allowed-GoTogether, GoTogether-is_allowed,
}

see-letter : (x : Letter) (s : Spec) → see (code_of x) s ≡ once (seen x.0 s) (with_flag x.0 s)
unfolding see
see-letter (flag_r, true) s = refl
see-letter (flag_r, false) s = refl
see-letter (flag_f, true) s = refl
see-letter (flag_f, false) s = refl
see-letter (flag_z, true) s = refl
see-letter (flag_z, false) s = refl
see-letter (flag_m, true) s = refl
see-letter (flag_m, false) s = refl
see-letter (flag_n, true) s = refl
see-letter (flag_n, false) s = refl
see-letter (flag_u, true) s = refl
see-letter (flag_u, false) s = refl

once_cases : (b : Bool) (s s' : Spec) → once b s ≡ some s' → (b ≡ false) × (s' ≡ s)
once_cases true s s' h = absurd (cc)
once_cases false s s' h = (refl, cc)

-- A round that goes on has seen a letter that is new.
record IsSeen (c : ℕ) (s s' : Spec) : Type 0 where
  letter : Letter
  code : c ≡ code_of letter
  new : seen letter.0 s ≡ false
  next : s' ≡ with_flag letter.0 s

seen_as :
    (x : Flag) (c : ℕ) (s s' : Spec)
    → either c (code_of (x, false)) (code_of (x, true)) ≡ true
    → once (seen x s) (with_flag x s) ≡ some s'
    → IsSeen c s s'
seen_as x c s s' h o =
    let (new, next) = once_cases (seen x s) (with_flag x s) s' o in
    elim (Bool-cases (c == code_of (x, false))) [
      | inl lower ↦ record { letter = (x, false); code = ground arith; new = new; next = next }
      | inr other ↦ record { letter = (x, true); code = ground arith; new = new; next = next }
    ]

see-IsSeen : (c : ℕ) (s s' : Spec) → see c s ≡ some s' → IsSeen c s s'
unfolding see
see-IsSeen c s s' h = elim (Bool-cases (either c b'r' b'R')) [
  | inl e ↦ seen_as flag_r c s s' e (rw e at h)
  | inr e₁ ↦ elim (Bool-cases (either c b'f' b'F')) [
    | inl e ↦ seen_as flag_f c s s' e (rw (e₁, e) at h)
    | inr e₂ ↦ elim (Bool-cases (either c b'z' b'Z')) [
      | inl e ↦ seen_as flag_z c s s' e (rw (e₁, e₂, e) at h)
      | inr e₃ ↦ elim (Bool-cases (either c b'm' b'M')) [
        | inl e ↦ seen_as flag_m c s s' e (rw (e₁, e₂, e₃, e) at h)
        | inr e₄ ↦ elim (Bool-cases (either c b'n' b'N')) [
          | inl e ↦ seen_as flag_n c s s' e (rw (e₁, e₂, e₃, e₄, e) at h)
          | inr e₅ ↦ elim (Bool-cases (either c b'u' b'U')) [
            | inl e ↦ seen_as flag_u c s s' e (rw (e₁, e₂, e₃, e₄, e₅, e) at h)
            | inr e₆ ↦ absurd (cc (rw (e₁, e₂, e₃, e₄, e₅, e₆) at h))
          ]
        ]
      ]
    ]
  ]
]

letter-ne-brace : (x : Letter) → (code_of x == b'}') ≡ false
letter-ne-brace (flag_r, true) = refl
letter-ne-brace (flag_r, false) = refl
letter-ne-brace (flag_f, true) = refl
letter-ne-brace (flag_f, false) = refl
letter-ne-brace (flag_z, true) = refl
letter-ne-brace (flag_z, false) = refl
letter-ne-brace (flag_m, true) = refl
letter-ne-brace (flag_m, false) = refl
letter-ne-brace (flag_n, true) = refl
letter-ne-brace (flag_n, false) = refl
letter-ne-brace (flag_u, true) = refl
letter-ne-brace (flag_u, false) = refl

see_all-stops : (rest : Bytes) (s : Spec) → stops rest ≡ true → see_all rest s ≡ some (s, rest)
unfolding see_all
see_all-stops [] s h = refl
see_all-stops (c ∷ rest) s h = rw h refl

see_all-spelled :
    (xs : List Letter) (rest : Bytes) (s : Spec)
    → AreNew xs s
    → stops rest ≡ true
    → see_all (spelled xs ++ rest) s ≡ some (set_all xs s, rest)
unfolding see_all
see_all-spelled [] rest s new h = see_all-stops rest s h
see_all-spelled (x ∷ xs) rest s (new, others) h =
    rw (letter-ne-brace x, see-letter x s, new) (see_all-spelled xs rest (with_flag x.0 s) others h)

-- The loop has seen these letters and stands where it stops.
record IsSpelled (text : Bytes) (s : Spec) (o : Spec × Bytes) : Type 0 where
  letters : List Letter
  whole : text ≡ spelled letters ++ o.1
  ends : stops o.1 ≡ true
  new : AreNew letters s
  flags : o.0 ≡ set_all letters s

IsSpelled-cons :
    (c : ℕ) (text : Bytes) (s s' : Spec) (o : Spec × Bytes)
    → IsSeen c s s'
    → IsSpelled text s' o
    → IsSpelled (c ∷ text) s o
IsSpelled-cons c text s s' o one more = record {
  letters = one.letter ∷ more.letters;
  whole = ap₂ ◌∷◌ one.code more.whole;
  ends = more.ends;
  new = (one.new, subst (AreNew more.letters) one.next more.new);
  flags = more.flags ∙ ap (set_all more.letters) one.next;
}

see_all-IsSpelled :
    (text : Bytes) (s : Spec) (o : Spec × Bytes) → see_all text s ≡ some o → IsSpelled text s o
unfolding see_all
see_all-IsSpelled [] s o h =
    let same : (s, []) ≡ o = cc in
    subst (IsSpelled [] s) same
      (record { letters = []; whole = refl; ends = refl; new = tt; flags = refl })
see_all-IsSpelled (c ∷ text) s o h = elim (Bool-cases (c == b'}')) [
  | inl e ↦
      let same : (s, c ∷ text) ≡ o = cc (rw e at h) in
      subst (IsSpelled (c ∷ text) s) same
        (record { letters = []; whole = refl; ends = e; new = tt; flags = refl })
  | inr e ↦ elim (Option-cases (see c s)) [
    | inl stuck ↦ absurd (cc (rw (e, stuck) at h))
    | inr (s', next) ↦
        IsSpelled-cons c text s s' o (see-IsSeen c s s' next)
          (see_all-IsSpelled text s' o (rw (e, next) at h))
  ]
]

checked_cases : (o p : Spec × Bytes) → checked o ≡ some p → (is_allowed o.0 ≡ true) × (o ≡ p)
unfolding checked
checked_cases o p h = elim (Bool-cases (is_allowed o.0)) [
  | inl e ↦ (e, cc (rw e at h))
  | inr e ↦ absurd (cc (rw e at h))
]

parse-see_all :
    (text : Bytes) → stops text ≡ false → parse text ≡ and_then (see_all text unseen) checked
unfolding parse
parse-see_all text h = rw h refl

parse_cases :
    (text : Bytes) (p : Spec × Bytes)
    → stops text ≡ false
    → parse text ≡ some p
    → (see_all text unseen ≡ some p) × (is_allowed p.0 ≡ true)
parse_cases text p h e = elim (Option-cases (see_all text unseen)) [
  | inl e₁ ↦ absurd (cc (rw (parse-see_all text h, e₁) at e))
  | inr (o, e₁) ↦
      let (allowed, same) = checked_cases o p (rw (parse-see_all text h, e₁) at e) in
      (e₁ ∙ ap some same, ap (λ q. is_allowed q.0) (sym same) ∙ allowed)
]

-- For a text that is neither empty nor begins with "}" (for which the form is the recommended one),
-- formatter<address_v6>::parse gives fields and what is left exactly if the text is letters of r,
-- f, z, m, n and u in either case, each of which sets a field that no earlier one has set, with the
-- end of the text or "}" behind them, the fields are those that the letters set, and f, z and m do
-- not come with r, nor m with n.
pub parse_iff :
    (text rest : Bytes) (s : Spec)
    → stops text ≡ false
    → (parse text ≡ some (s, rest)) ↔ (
        (xs : List Letter) × (text ≡ spelled xs ++ rest)
        × (stops rest ≡ true)
        × AreNew xs unseen
        × (s ≡ set_all xs unseen)
        × GoTogether s)
unfolding checked
parse_iff text rest s h = (
  λ e.
      let (all, allowed) = parse_cases text (s, rest) h e in
      let it = see_all-IsSpelled text unseen (s, rest) all in
      (it.letters, it.whole, it.ends, it.new, it.flags, is_allowed-GoTogether s allowed),
  λ it.
      let (xs, whole, ends, new, flags, together) = it in
      let allowed = GoTogether-is_allowed s together in
      let all : see_all text unseen ≡ some (s, rest) =
        ap (λ t. see_all t unseen) whole
        ∙ see_all-spelled xs rest unseen new ends
        ∙ ap (λ f. some (f, rest)) (sym flags) in
      parse-see_all text h ∙ rw (all, allowed) refl,
)
