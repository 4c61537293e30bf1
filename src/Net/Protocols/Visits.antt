-- ===== src/Net/Protocols/Visits.antt =====
-- What a loop over `protocol_database` sees of its array, and how many known entries the array holds.
use iouxx.Base.{
  ℕ, zero, suc, ◌<◌, true, false, List, [], ◌∷◌, Option, none, some, if◌then◌else◌, ◌≡◌, refl, sym,
  ap, ◌∙◌, arith, Bool-cases, inl, inr, get_or, set, length, length-set, length-replicate, ℤ, pos,
  negsuc, replicate, subst,
}
use iouxx.Net.Protocols.{
  Entry, is_known, unknown_protocol, Protoent, ProtocolDatabase, fill, load_at, number, too_large,
  load, initial, skip, begin, increment, capacity,
}

-- The entries that are known.
abbrev pub known : List Entry → List Entry
known [] = []
known (e ∷ es) = let rest = known es in if is_known e then e ∷ rest else rest

abbrev seen_first : Entry → Option (List Entry) → Option (List Entry)
seen_first e none = none
seen_first e (some es) = some (e ∷ es)

-- `for (const entry& e : database)` from an iterator on, in at most so many rounds: what the body sees.
pub visited : ℕ → List Entry → Option (List Entry)
visited zero it = none
visited (suc rounds) [] = some []
visited (suc rounds) (e ∷ es) = elim (increment (e ∷ es)) [
  | none ↦ none
  | some it ↦ seen_first e (visited rounds it)
]

visited-skip :
    (rounds : ℕ) (es : List Entry) → length es < rounds → visited rounds (skip es) ≡ some (known es)
unfolding visited skip increment
visited-skip zero es h = absurd (omega arith)
visited-skip (suc rounds) [] h = refl
visited-skip (suc rounds) (e ∷ es) h = elim (Bool-cases (is_known e)) [
  | inl there ↦ rw there (ap (seen_first e) (visited-skip rounds es (omega arith)))
  | inr unseen ↦ rw unseen (visited-skip (suc rounds) es (omega arith))
]

pub visited-begin :
    (d : ProtocolDatabase) → visited (suc (length d.db)) (begin d) ≡ some (known d.db)
unfolding begin
visited-begin d = visited-skip (suc (length d.db)) d.db (omega arith)

-- A new entry is one more.
length-known-set :
    (db : List Entry) (n : ℕ) (e : Entry)
    → n < length db
    → is_known (get_or db n unknown_protocol) ≡ false
    → is_known e ≡ true
    → length (known (set db n e)) ≡ suc (length (known db))
length-known-set [] n e h old new = absurd (omega arith)
length-known-set (x ∷ xs) zero e h old new = rw (old, new) refl
length-known-set (x ∷ xs) (suc n) e h old new = elim (Bool-cases (is_known x)) [
  | inl there ↦ rw there (ap suc (length-known-set xs n e (omega arith) old new))
  | inr unseen ↦ rw unseen (length-known-set xs n e (omega arith) old new)
]

-- The database holds as many known entries as it counts.
pub record IsCounted (d : ProtocolDatabase) : Type 0 where
  pub size : length d.db ≡ capacity
  pub counted : d.total ≡ length (known d.db)

pub within : (p : ℤ) → too_large p ≡ false → (n : ℕ) × (p ≡ pos n) × (n < capacity)
unfolding too_large
within (pos n) h = (n, refl, ground arith)
within (negsuc n) h = cc

pub load_at-IsCounted :
    (n : ℕ) (raw_entry : Protoent) (d : ProtocolDatabase)
    → raw_entry.p_proto ≡ pos n
    → n < capacity
    → IsCounted d
    → IsCounted (load_at n raw_entry d)
unfolding load_at
load_at-IsCounted n raw_entry d e h valid =
    elim (Bool-cases (is_known (get_or d.db n unknown_protocol))) [
      | inl old ↦ rw old valid
      | inr new ↦ rw new (record {
        size = length-set d.db n (fill raw_entry) ∙ valid.size;
        counted =
            ap suc valid.counted
            ∙ sym (
                length-known-set d.db n (fill raw_entry) (omega (arith, valid.size)) new
                  (unfold fill in rw e refl));
      })
    ]

pub none-ne-some : {d : ProtocolDatabase} → ¬ (none ≡ some d)
none-ne-some e = cc

pub load-IsCounted :
    (raw_entries : List Protoent) (d : ProtocolDatabase) {d' : ProtocolDatabase}
    → IsCounted d
    → load raw_entries d ≡ some d'
    → IsCounted d'
unfolding load
load-IsCounted [] d valid done = subst IsCounted (cc) valid
load-IsCounted (raw_entry ∷ raw_entries) d valid done =
    elim (Bool-cases (too_large raw_entry.p_proto)) [
      | inl large ↦ absurd (none-ne-some (rw large at done))
      | inr small ↦
          let (n, e, h) = within raw_entry.p_proto small in
          load-IsCounted raw_entries (load_at (number raw_entry.p_proto) raw_entry d)
            (load_at-IsCounted (number raw_entry.p_proto) raw_entry d (rw e refl) (rw e h) valid)
            (rw small at done)
    ]

known-replicate : (n : ℕ) → known (replicate n unknown_protocol) ≡ []
known-replicate zero = refl
known-replicate (suc n) = known-replicate n

pub initial-IsCounted : IsCounted initial
initial-IsCounted = record {
  size = length-replicate capacity unknown_protocol;
  counted = sym (ap length (known-replicate capacity));
}
