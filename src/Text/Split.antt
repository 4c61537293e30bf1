-- ===== src/Text/Split.antt =====
-- `std::string_view::contains` and `std::views::split`.
pub mod Laws
pub mod Pairs
pub mod Whole
use iouxx.Base.{ℕ, Bool, true, false, ◌&&◌, ◌||◌, List, [], ◌∷◌, ◌==◌, Bytes}

unfoldable pub contains : Bytes → ℕ → Bool
contains [] b = false
contains (c ∷ s) b = c == b || contains s b

-- A text of two bytes, such as "::", somewhere in the text.
unfoldable pub contains_pair : Bytes → ℕ → ℕ → Bool
contains_pair [] a b = false
contains_pair (c ∷ []) a b = false
contains_pair (c ∷ d ∷ s) a b = (c == a && d == b) || contains_pair (d ∷ s) a b

-- Puts a byte in front of the first part.
abbrev push : ℕ → List Bytes → List Bytes
push c [] = (c ∷ []) ∷ []
push c (p ∷ ps) = (c ∷ p) ∷ ps

-- The parts of a text that is not empty; behind a separator at the end stands an empty part.
pub parts_by : ℕ → Bytes → List Bytes
parts_by sep [] = [] ∷ []
parts_by sep (c ∷ s) = elim (c == sep) [
  | true ↦ [] ∷ parts_by sep s
  | false ↦ push c (parts_by sep s)
]

-- `s | std::views::split(sep)`: the empty text has no part at all.
unfoldable pub split : ℕ → Bytes → List Bytes
unfolding parts_by
split sep [] = []
split sep (c ∷ s) = parts_by sep (c ∷ s)

pub parts_by_pair : ℕ → ℕ → Bytes → List Bytes
parts_by_pair a b [] = [] ∷ []
parts_by_pair a b (c ∷ []) = (c ∷ []) ∷ []
parts_by_pair a b (c ∷ d ∷ s) = elim (c == a && d == b) [
  | true ↦ [] ∷ parts_by_pair a b s
  | false ↦ push c (parts_by_pair a b (d ∷ s))
]

-- The same with a separator of two bytes, looked for from the left behind the last one found.
unfoldable pub split_pair : ℕ → ℕ → Bytes → List Bytes
unfolding parts_by_pair
split_pair a b [] = []
split_pair a b (c ∷ s) = parts_by_pair a b (c ∷ s)
