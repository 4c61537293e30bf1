-- ===== src/Text/Split/Pairs.antt =====
-- Splitting at a pair of bytes, for texts that hold the pair once or not at all.
use iouxx.Base.{
  ℕ, List, [], ◌∷◌, ◌++◌, append_assoc, append-nil, ◌≡◌, ◌≢◌, refl, sym, ap, ◌∙◌, subst, arith,
  Bytes, All, Lacks,
}
use iouxx.Text.Split.{push, parts_by_pair, split_pair}
use iouxx.Text.Split.Laws.{joined, joined-cons}

abbrev prepend : Bytes → List Bytes → List Bytes
prepend [] ps = ps
prepend (c ∷ p) ps = push c (prepend p ps)

prepend-append : (p q : Bytes) (ps : List Bytes) → prepend (p ++ q) ps ≡ prepend p (prepend q ps)
prepend-append [] q ps = refl
prepend-append (c ∷ p) q ps = ap (push c) (prepend-append p q ps)

prepend-cons : (p q : Bytes) (ps : List Bytes) → prepend p (q ∷ ps) ≡ (p ++ q) ∷ ps
prepend-cons [] q ps = refl
prepend-cons (c ∷ p) q ps = ap (push c) (prepend-cons p q ps)

module _ (a b : ℕ) where
  -- No separator begins in the text, whatever stands behind it.
  abbrev pub IsSeamless : Bytes → Type 0
  IsSeamless t = (s : Bytes) → parts_by_pair a b (t ++ s) ≡ prepend t (parts_by_pair a b s)

  parts-cons :
      (c : ℕ) (s : Bytes) → c ≢ a → parts_by_pair a b (c ∷ s) ≡ push c (parts_by_pair a b s)
  unfolding parts_by_pair
  parts-cons c [] h = refl
  parts-cons c (d ∷ s) h = ground arith

  parts-pair : (s : Bytes) → parts_by_pair a b (a ∷ b ∷ s) ≡ [] ∷ parts_by_pair a b s
  unfolding parts_by_pair
  parts-pair s = ground arith

  parts_single :
      (d : ℕ) (s : Bytes)
      → d ≢ b
      → parts_by_pair a b (a ∷ d ∷ s) ≡ push a (parts_by_pair a b (d ∷ s))
  unfolding parts_by_pair
  parts_single d s h = ground arith

  pub IsSeamless-of_Lacks : (p : Bytes) → Lacks a p → IsSeamless p
  IsSeamless-of_Lacks [] _ s = refl
  IsSeamless-of_Lacks (c ∷ p) (h, hs) s =
      parts-cons c (p ++ s) h ∙ ap (push c) (IsSeamless-of_Lacks p hs s)

  IsSeamless-append :
      (p : Bytes) (d : ℕ) (q : Bytes)
      → d ≢ b
      → IsSeamless p
      → IsSeamless (d ∷ q)
      → IsSeamless (p ++ a ∷ d ∷ q)
  IsSeamless-append p d q ne hp hq s = rw append_assoc (
      hp (a ∷ d ∷ (q ++ s))
      ∙ ap (prepend p) (parts_single d (q ++ s) ne ∙ ap (push a) (hq s))
      ∙ sym (prepend-append p (a ∷ d ∷ q) (parts_by_pair a b s)))

  split-parts : (c : ℕ) (s : Bytes) → split_pair a b (c ∷ s) ≡ parts_by_pair a b (c ∷ s)
  unfolding split_pair
  split-parts c s = refl

  parts-IsSeamless : (t : Bytes) → IsSeamless t → parts_by_pair a b t ≡ t ∷ []
  unfolding parts_by_pair
  parts-IsSeamless t h =
      ap (parts_by_pair a b) (sym (append-nil t))
      ∙ h []
      ∙ prepend-cons t [] []
      ∙ ap (λ p. p ∷ []) (append-nil t)

  parts-IsSeamless_pair :
      (t s : Bytes) → IsSeamless t → parts_by_pair a b (t ++ a ∷ b ∷ s) ≡ t ∷ parts_by_pair a b s
  parts-IsSeamless_pair t s h =
      h (a ∷ b ∷ s)
      ∙ ap (prepend t) (parts-pair s)
      ∙ prepend-cons t [] _
      ∙ ap (λ p. p ∷ parts_by_pair a b s) (append-nil t)

  -- A text with no separator is its own only part.
  pub split_pair-one :
      (c : ℕ) (t : Bytes) → IsSeamless (c ∷ t) → split_pair a b (c ∷ t) ≡ (c ∷ t) ∷ []
  split_pair-one c t h = split-parts c t ∙ parts-IsSeamless (c ∷ t) h

  split_pair-append : (t s : Bytes) → split_pair a b (t ++ a ∷ s) ≡ parts_by_pair a b (t ++ a ∷ s)
  split_pair-append [] s = split-parts a s
  split_pair-append (c ∷ t) s = split-parts c (t ++ a ∷ s)

  -- With one separator there are two parts.
  pub split_pair-two :
      (t u : Bytes) → IsSeamless t → IsSeamless u → split_pair a b (t ++ a ∷ b ∷ u) ≡ t ∷ u ∷ []
  split_pair-two t u ht hu =
      split_pair-append t (b ∷ u)
      ∙ parts-IsSeamless_pair t u ht
      ∙ ap (◌∷◌ t) (parts-IsSeamless u hu)

-- Parts that are not empty, joined by the byte that makes the separator when it is doubled.
abbrev pub IsPart : ℕ → Bytes → Type 0
IsPart sep p = Lacks sep p × (p ≢ [])

pub joined-IsSeamless :
    (sep : ℕ) (p : Bytes) (ps : List Bytes)
    → IsPart sep p
    → All (IsPart sep) ps
    → IsSeamless sep sep (joined sep p ps)
joined-IsSeamless sep p [] h _ = IsSeamless-of_Lacks sep sep p h.0
joined-IsSeamless sep p ([] ∷ qs) h (hq, hqs) = absurd (hq.1 refl)
joined-IsSeamless sep p ((d ∷ q) ∷ qs) h (hq, hqs) = rw (joined-cons sep d q qs) (
    IsSeamless-append sep sep p d (joined sep q qs) hq.0.0 (IsSeamless-of_Lacks sep sep p h.0) (
      subst (IsSeamless sep sep) (joined-cons sep d q qs)
        (joined-IsSeamless sep (d ∷ q) qs hq hqs)))
