-- ===== src/Text/Split/Whole.antt =====
-- A text split at a pair of bytes is the join of its parts.
use iouxx.Base.{
  ℕ, List, [], ◌∷◌, ◌++◌, ◌&&◌, ◌==◌, ◌≡◌, refl, sym, ap, ap₂, ◌∙◌, arith, Bytes, Bool-cases, inl,
  inr,
}
use iouxx.Text.Split.{parts_by_pair, push, split_pair}

-- The parts with the pair between them.
abbrev pub paired : ℕ → ℕ → List Bytes → Bytes
paired a b [] = []
paired a b (p ∷ []) = p
paired a b (p ∷ q ∷ qs) = p ++ a ∷ b ∷ paired a b (q ∷ qs)

paired-push : (a b c : ℕ) (ps : List Bytes) → paired a b (push c ps) ≡ c ∷ paired a b ps
paired-push a b c [] = refl
paired-push a b c (p ∷ []) = refl
paired-push a b c (p ∷ q ∷ qs) = refl

push-cons : (c : ℕ) (ps : List Bytes) → (q : Bytes) × (qs : List Bytes) × (push c ps ≡ q ∷ qs)
push-cons c [] = (c ∷ [], [], refl)
push-cons c (p ∷ ps) = (c ∷ p, ps, refl)

-- A text has at least one part.
parts-cons :
    (a b : ℕ) (s : Bytes) → (q : Bytes) × (qs : List Bytes) × (parts_by_pair a b s ≡ q ∷ qs)
unfolding parts_by_pair
parts-cons a b [] = ([], [], refl)
parts-cons a b (c ∷ []) = (c ∷ [], [], refl)
parts-cons a b (c ∷ d ∷ s) = elim (Bool-cases (c == a && d == b)) [
  | inl hit ↦ ([], parts_by_pair a b s, rw (hit, parts_by_pair) refl)
  | inr miss ↦
      let (q, qs, e) = push-cons c (parts_by_pair a b (d ∷ s)) in
      (q, qs, rw (miss, parts_by_pair) e)
]

paired-nil :
    (a b : ℕ) (s : Bytes)
    → paired a b ([] ∷ parts_by_pair a b s) ≡ a ∷ b ∷ paired a b (parts_by_pair a b s)
paired-nil a b s = let (q, qs, e) = parts-cons a b s in rw e refl

paired-parts : (a b : ℕ) (s : Bytes) → paired a b (parts_by_pair a b s) ≡ s
unfolding parts_by_pair
paired-parts a b [] = refl
paired-parts a b (c ∷ []) = refl
paired-parts a b (c ∷ d ∷ s) = elim (Bool-cases (c == a && d == b)) [
  | inl hit ↦
      let first : c ≡ a = ground arith in
      let second : d ≡ b = ground arith in
      rw (hit, parts_by_pair)
        (paired-nil a b s
          ∙ ap₂ (λ x y. x ∷ y ∷ paired a b (parts_by_pair a b s)) (sym first) (sym second)
          ∙ ap (λ t. c ∷ d ∷ t) (paired-parts a b s))
  | inr miss ↦
      rw (miss, parts_by_pair)
        (paired-push a b c (parts_by_pair a b (d ∷ s)) ∙ ap (◌∷◌ c) (paired-parts a b (d ∷ s)))
]

pub paired-split_pair : (a b : ℕ) (s : Bytes) → paired a b (split_pair a b s) ≡ s
unfolding split_pair
paired-split_pair a b [] = refl
paired-split_pair a b (c ∷ s) = paired-parts a b (c ∷ s)
