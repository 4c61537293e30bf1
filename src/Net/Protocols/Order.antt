-- ===== src/Net/Protocols/Order.antt =====
-- The order in which a loop over `protocol_database` sees the entries, and how many there are.
use iouxx.Base.{
  ℕ, zero, suc, ◌+◌, ◌≤◌, ◌<◌, true, List, [], ◌∷◌, some, if◌then◌else◌, ◌≡◌, refl, sym, ap, ◌∙◌,
  ◌==◌, arith, Bool-cases, inl, inr, get_or, length, pos,
}
use iouxx.Net.Protocols.{
  Entry, is_known, unknown_protocol, Protoent, ProtocolDatabase, fill, number, too_large, load,
  initial, protocol_database, begin,
}
use iouxx.Net.Protocols.Bearers.{first_of, db-protocol_database}
use iouxx.Net.Protocols.Visits.{
  known, visited, visited-begin, within, none-ne-some, load-IsCounted, initial-IsCounted,
}

-- For the given number and those after it, as many as said: the first entry of the number, where there
-- is one.
pub listed : ℕ → ℕ → List Protoent → List Entry
listed n zero raw_entries = []
listed n (suc left) raw_entries =
    let rest = listed (suc n) left raw_entries in
    let e = first_of n unknown_protocol raw_entries in if is_known e then e ∷ rest else rest

-- The entries have numbers from the given one on, each larger than the one before.
pub IsAscending : ℕ → List Entry → Type 0
IsAscending n [] = Unit
IsAscending n (e ∷ es) = (m : ℕ) × (e.no ≡ pos m) × (n ≤ m) × IsAscending (suc m) es

-- An array of entries that holds the first entry of each number is listed by the numbers.
known-listed :
    (n : ℕ) (es : List Entry) (raw_entries : List Protoent)
    → ((m : ℕ)
        → m < length es
        → get_or es m unknown_protocol ≡ first_of (n + m) unknown_protocol raw_entries)
    → known es ≡ listed n (length es) raw_entries
unfolding listed
known-listed n [] raw_entries held = refl
known-listed n (e ∷ es) raw_entries held =
    let here : e ≡ first_of n unknown_protocol raw_entries =
      held 0 (omega arith) ∙ ap (λ k. first_of k unknown_protocol raw_entries) (omega arith) in
    let later : known es ≡ listed (suc n) (length es) raw_entries =
      known-listed (suc n) es raw_entries (λ m h.
        held (suc m) (omega arith)
        ∙ ap (λ k. first_of k unknown_protocol raw_entries) (omega arith)) in
    rw (here, later) refl

no-first_of :
    (m : ℕ) (raw_entries : List Protoent) (d : ProtocolDatabase) {d' : ProtocolDatabase}
    → load raw_entries d ≡ some d'
    → is_known (first_of m unknown_protocol raw_entries) ≡ true
    → (first_of m unknown_protocol raw_entries).no ≡ pos m
unfolding load first_of fill
no-first_of m [] d done there = cc
no-first_of m (raw_entry ∷ raw_entries) d done there =
    elim (Bool-cases (too_large raw_entry.p_proto)) [
      | inl large ↦ absurd (none-ne-some (rw large at done))
      | inr small ↦
          let (n, e, h) = within raw_entry.p_proto small in
          let is_number : raw_entry.p_proto ≡ pos (number raw_entry.p_proto) = rw e refl in
          elim (Bool-cases (number raw_entry.p_proto == m)) [
            | inl same ↦
                let agree : number raw_entry.p_proto ≡ m = ground arith in
                rw same (is_number ∙ ap pos agree)
            | inr other ↦
                rw other (no-first_of m raw_entries _ (rw small at done) (rw other at there))
          ]
    ]

weaken : (n : ℕ) (es : List Entry) → IsAscending (suc n) es → IsAscending n es
unfolding IsAscending
weaken n [] asc = tt
weaken n (e ∷ es) (m, is_number, h, asc) = (m, is_number, omega arith, asc)

listed-IsAscending :
    (n left : ℕ) (raw_entries : List Protoent)
    → ((m : ℕ)
        → is_known (first_of m unknown_protocol raw_entries) ≡ true
        → (first_of m unknown_protocol raw_entries).no ≡ pos m)
    → IsAscending n (listed n left raw_entries)
unfolding IsAscending listed
listed-IsAscending n zero raw_entries numbered = tt
listed-IsAscending n (suc left) raw_entries numbered =
    let later = listed-IsAscending (suc n) left raw_entries numbered in
    elim (Bool-cases (is_known (first_of n unknown_protocol raw_entries))) [
      | inl there ↦ rw there (n, numbered n there, omega arith, later)
      | inr unseen ↦ rw unseen (weaken n (listed (suc n) left raw_entries) later)
    ]

-- A loop over a database that was loaded without an exception ends within 513 rounds of begin and
-- ++, and sees, for the numbers from 0 to 511 in their order, the first loaded entry of each number
-- that one was loaded for; the numbers of the entries that it sees ascend, and total, which size
-- returns, is how many they are.
pub protocol_database-visited :
    (raw_entries : List Protoent) {d : ProtocolDatabase}
    → protocol_database raw_entries ≡ some d
    → (visited 513 (begin d) ≡ some (listed 0 512 raw_entries))
      × (d.total ≡ length (listed 0 512 raw_entries))
      × IsAscending 0 (listed 0 512 raw_entries)
unfolding protocol_database
protocol_database-visited raw_entries {d} done =
    let valid = load-IsCounted raw_entries initial initial-IsCounted done in
    let by_number : known d.db ≡ listed 0 512 raw_entries =
      known-listed 0 d.db raw_entries (λ m h.
        db-protocol_database raw_entries done m
        ∙ ap (λ k. first_of k unknown_protocol raw_entries) (omega arith))
      ∙ ap (λ n. listed 0 n raw_entries) valid.size in
    (
      ap (λ n. visited (suc n) (begin d)) (sym valid.size) ∙ (visited-begin d ∙ ap some by_number),
      valid.counted ∙ ap length by_number,
      listed-IsAscending 0 512 raw_entries
          (λ m there. no-first_of m raw_entries initial done there),
    )
