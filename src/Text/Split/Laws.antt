-- ===== src/Text/Split/Laws.antt =====
-- Splitting at one byte: the parts of a join are the parts that were joined.
use iouxx.Base.{
  ℕ, true, false, List, [], ◌∷◌, ◌++◌, append_assoc, ◌≡◌, ◌≢◌, refl, sym, ap, ap₂, ◌∙◌, arith, ◌==◌,
  Bool-cases, inl, inr, Bytes, All, All-append, Lacks,
}
use iouxx.Text.Split.{contains, contains_pair, parts_by, split}

-- The parts with a separator between them.
abbrev pub joined : ℕ → Bytes → List Bytes → Bytes
joined sep p [] = p
joined sep p (q ∷ qs) = p ++ sep ∷ joined sep q qs

pub joined-cons :
    (sep c : ℕ) (p : Bytes) (qs : List Bytes) → joined sep (c ∷ p) qs ≡ c ∷ joined sep p qs
joined-cons sep c p [] = refl
joined-cons sep c p (q ∷ qs) = refl

pub joined-append :
    (sep : ℕ) (p : Bytes) (ps : List Bytes) (q : Bytes) (qs : List Bytes)
    → joined sep p (ps ++ q ∷ qs) ≡ joined sep p ps ++ sep ∷ joined sep q qs
joined-append sep p [] q qs = refl
joined-append sep p (r ∷ rs) q qs = simp (joined-append sep r rs q qs, append_assoc)

pub contains-Lacks : (b : ℕ) (s : Bytes) → Lacks b s → contains s b ≡ false
unfolding contains
contains-Lacks b [] _ = refl
contains-Lacks b (c ∷ s) h = ground (arith, contains-Lacks b s h.1)

pub contains-append_cons : (b : ℕ) (p s : Bytes) → contains (p ++ b ∷ s) b ≡ true
unfolding contains
contains-append_cons b [] s = ground arith
contains-append_cons b (c ∷ p) s = ground (arith, contains-append_cons b p s)

pub contains_pair-Lacks : (a b : ℕ) (s : Bytes) → Lacks a s → contains_pair s a b ≡ false
unfolding contains_pair
contains_pair-Lacks a b [] _ = refl
contains_pair-Lacks a b (c ∷ []) _ = refl
contains_pair-Lacks a b (c ∷ d ∷ s) h = ground (arith, contains_pair-Lacks a b (d ∷ s) h.1)

pub contains_pair-append_cons : (a b : ℕ) (p s : Bytes) → contains_pair (p ++ a ∷ b ∷ s) a b ≡ true
unfolding contains_pair
contains_pair-append_cons a b [] s = ground arith
contains_pair-append_cons a b (c ∷ []) s = ground (arith, contains_pair-append_cons a b [] s)
contains_pair-append_cons a b (c ∷ d ∷ p) s =
    ground (arith, contains_pair-append_cons a b (d ∷ p) s)

module _ (sep : ℕ) where
  parts_by-Lacks : (p : Bytes) → Lacks sep p → parts_by sep p ≡ p ∷ []
  unfolding parts_by
  parts_by-Lacks [] _ = refl
  parts_by-Lacks (c ∷ p) (h, hs) = ground (arith, parts_by-Lacks p hs)

  parts_by-append : (p s : Bytes) → Lacks sep p → parts_by sep (p ++ sep ∷ s) ≡ p ∷ parts_by sep s
  unfolding parts_by
  parts_by-append [] s _ = ground arith
  parts_by-append (c ∷ p) s (h, hs) = ground (arith, parts_by-append p s hs)

  pub parts_by-joined :
      (p : Bytes) (ps : List Bytes)
      → Lacks sep p
      → All (Lacks sep) ps
      → parts_by sep (joined sep p ps) ≡ p ∷ ps
  parts_by-joined p [] h _ = parts_by-Lacks p h
  parts_by-joined p (q ∷ qs) h (hq, hqs) =
      parts_by-append p _ h ∙ ap (◌∷◌ p) (parts_by-joined q qs hq hqs)

  split-parts_by : (c : ℕ) (s : Bytes) → split sep (c ∷ s) ≡ parts_by sep (c ∷ s)
  unfolding split
  split-parts_by c s = refl

  -- The first part is not empty, so that the whole text is not.
  pub split-joined :
      (p : Bytes) (ps : List Bytes)
      → p ≢ []
      → Lacks sep p
      → All (Lacks sep) ps
      → split sep (joined sep p ps) ≡ p ∷ ps
  split-joined [] ps ne h hs = absurd (ne refl)
  split-joined (c ∷ p) ps ne h hs =
      rw (joined-cons sep c p ps, split-parts_by, ← joined-cons sep c p ps)
        (parts_by-joined (c ∷ p) ps h hs)

pub joined-ne-nil : (sep : ℕ) (p : Bytes) (ps : List Bytes) → p ≢ [] → joined sep p ps ≢ []
joined-ne-nil sep [] ps ne = absurd (ne refl)
joined-ne-nil sep (c ∷ p) ps ne =
    λ e. let z : c ∷ joined sep p ps ≡ [] = sym (joined-cons sep c p ps) ∙ e in cc

-- No other byte comes into a join.
pub joined-Lacks :
    (sep b : ℕ) (p : Bytes) (ps : List Bytes)
    → sep ≢ b
    → Lacks b p
    → All (Lacks b) ps
    → Lacks b (joined sep p ps)
joined-Lacks sep b p [] ne h _ = h
joined-Lacks sep b p (q ∷ qs) ne h (hq, hqs) =
    All-append _ p (sep ∷ joined sep q qs) h (ne, joined-Lacks sep b q qs ne hq hqs)

-- The parts of a text: joined they are the text, and none of them holds the separator.
pub record IsSplit (sep : ℕ) (s : Bytes) : Type 0 where
  pub first : Bytes
  pub others : List Bytes
  pub parts : parts_by sep s ≡ first ∷ others
  pub whole : joined sep first others ≡ s
  pub first_lacks : Lacks sep first
  pub others_lack : All (Lacks sep) others

pub parts_by-IsSplit : (sep : ℕ) (s : Bytes) → IsSplit sep s
unfolding parts_by
parts_by-IsSplit sep [] = record {
  first = [];
  others = [];
  parts = refl;
  whole = refl;
  first_lacks = tt;
  others_lack = tt;
}
parts_by-IsSplit sep (c ∷ s) =
    let rest = parts_by-IsSplit sep s in
    elim (Bool-cases (c == sep)) [
      | inl hit ↦ record {
        first = [];
        others = rest.first ∷ rest.others;
        parts = rw (hit, parts_by) (ap (◌∷◌ []) rest.parts);
        whole = ground (arith, rest.whole);
        first_lacks = tt;
        others_lack = (rest.first_lacks, rest.others_lack);
      }
      | inr miss ↦ record {
        first = c ∷ rest.first;
        others = rest.others;
        parts = rw (miss, parts_by, rest.parts);
        whole = joined-cons sep c rest.first rest.others ∙ ap (◌∷◌ c) rest.whole;
        first_lacks = (ground arith, rest.first_lacks);
        others_lack = rest.others_lack;
      }
    ]

-- A split text that has parts is their join.
pub joined-split :
    (sep : ℕ) (s p : Bytes) (ps : List Bytes) → split sep s ≡ p ∷ ps → joined sep p ps ≡ s
unfolding split
joined-split sep [] p ps e = cc
joined-split sep (c ∷ s) p ps e =
    let it = parts_by-IsSplit sep (c ∷ s) in
    let same : it.first ∷ it.others ≡ p ∷ ps = sym it.parts ∙ e in
    let first : it.first ≡ p = cc in
    let others : it.others ≡ ps = cc in ap₂ (joined sep) (sym first) (sym others) ∙ it.whole
