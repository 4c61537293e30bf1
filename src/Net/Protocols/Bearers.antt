-- ===== src/Net/Protocols/Bearers.antt =====
-- Which entry each name and each number of `protocol_database` leads to.
use mathlib.Core.Path.{fun_ext}
use iouxx.Base.{
  ℕ, zero, suc, ◌<◌, Bool, true, false, not, ◌&&◌, ◌||◌, List, [], ◌∷◌, Option, none, some, Bytes,
  if◌then◌else◌, ◌≡◌, refl, sym, ap, ◌∙◌, arith, Bool-cases, Option-cases, inl, inr, get_or, set,
  length, pos, ◌==◌, ==_refl, ==_false, replicate,
}
use iouxx.Net.Protocols.{
  Entry, is_known, unknown_protocol, Protoent, ProtocolDatabase, same, find, try_emplace,
  emplace_all, index_names, fill, load_at, number, too_large, load, initial, protocol_database,
  capacity, get, contains, is_some, entry_at,
}
use iouxx.Net.Protocols.Visits.{
  within, none-ne-some, IsCounted, load_at-IsCounted, initial-IsCounted,
}

same_refl : (s : Bytes) → same s s ≡ true
unfolding same
same_refl [] = refl
same_refl (c ∷ s) = rw (==_refl c, same_refl s) refl

pub same-eq : (s t : Bytes) → same s t ≡ true → s ≡ t
unfolding same
same-eq [] [] h = refl
same-eq [] (d ∷ t) h = cc
same-eq (c ∷ s) [] h = cc
same-eq (c ∷ s) (d ∷ t) h = ground (arith, same-eq s t)

-- Whether the name is one of those.
pub bears : Bytes → List Bytes → Bool
bears name [] = false
bears name (key ∷ keys) = same key name || bears name keys

-- The first of two that is there.
abbrev pub or_else : Option ℕ → Option ℕ → Option ℕ
or_else (some n) other = some n
or_else none other = other

abbrev pub when : Bool → ℕ → Option ℕ
when b n = if b then some n else none

or_else-none : (o : Option ℕ) → or_else o none ≡ o
or_else-none none = refl
or_else-none (some n) = refl

either :
    (o : Option ℕ) (b c : Bool) (n : ℕ)
    → or_else (or_else o (when b n)) (when c n) ≡ or_else o (when (b || c) n)
either (some m) b c n = refl
either none true c n = refl
either none false c n = refl

-- A name that is not there is not the same as one that is.
same-false :
    (name key : Bytes) (m : ℕ) (index : List (Bytes × ℕ))
    → find key index ≡ some m
    → find name index ≡ none
    → same key name ≡ false
same-false name key m index there lost = elim (Bool-cases (same key name)) [
  | inl e ↦
      let both : none ≡ some m =
        sym lost ∙ (ap (λ k. find k index) (sym (same-eq key name e)) ∙ there) in
      cc
  | inr e ↦ e
]

find-try_emplace :
    (name key : Bytes) (n : ℕ) (index : List (Bytes × ℕ))
    → find name (try_emplace key n index) ≡ or_else (find name index) (when (same key name) n)
unfolding try_emplace
find-try_emplace name key n index = elim (Option-cases (find key index)) [
  | inl new ↦
      rw (new, try_emplace)
        (elim (Bool-cases (same key name)) [
          | inl e ↦
              let lost : find name index ≡ none =
                ap (λ k. find k index) (sym (same-eq key name e)) ∙ new in
              unfold find in rw (e, lost) refl
          | inr e ↦ unfold find in rw e (sym (or_else-none (find name index)))
        ])
  | inr (m, old) ↦
      rw (old, try_emplace)
        (elim (Option-cases (find name index)) [
          | inl lost ↦ rw (lost, same-false name key m index old lost) refl
          | inr (k, there) ↦ rw there refl
        ])
]

find-emplace_all :
    (name : Bytes) (keys : List Bytes) (n : ℕ) (index : List (Bytes × ℕ))
    → find name (emplace_all keys n index) ≡ or_else (find name index) (when (bears name keys) n)
unfolding emplace_all bears
find-emplace_all name [] n index = sym (or_else-none (find name index))
find-emplace_all name (key ∷ keys) n index =
    find-emplace_all name keys n (try_emplace key n index)
    ∙ (ap (λ o. or_else o (when (bears name keys) n)) (find-try_emplace name key n index)
        ∙ either (find name index) (same key name) (bears name keys) n)

elem : ℕ → List ℕ → Bool
elem m [] = false
elem m (n ∷ ns) = n == m || elem m ns

-- The number of the first entry that bears the name and is the first of its number, when those of the
-- given numbers have been there.
pub bearer : Bytes → List ℕ → List Protoent → Option ℕ
bearer name seen [] = none
bearer name seen (raw_entry ∷ raw_entries) =
    let n = number raw_entry.p_proto in
    or_else (when (not (elem n seen) && bears name (index_names (fill raw_entry))) n)
      (bearer name (n ∷ seen) raw_entries)

-- The first entry of that number, or the given one.
unfoldable pub first_of : ℕ → Entry → List Protoent → Entry
first_of m other [] = other
first_of m other (raw_entry ∷ raw_entries) =
    let later = first_of m other raw_entries in
    if number raw_entry.p_proto == m then fill raw_entry else later

get_or-set :
    (db : List Entry) (n m : ℕ) (e other : Entry)
    → n < length db
    → get_or (set db n e) m other ≡ (if n == m then e else get_or db m other)
get_or-set [] n m e other h = absurd (omega arith)
get_or-set (x ∷ xs) zero zero e other h = refl
get_or-set (x ∷ xs) zero (suc m) e other h = rw (==_false zero (suc m) (λ z. cc)) refl
get_or-set (x ∷ xs) (suc n) zero e other h = rw (==_false (suc n) zero (λ z. cc)) refl
get_or-set (x ∷ xs) (suc n) (suc m) e other h = ground (arith, get_or-set xs n m e other)

is_known-fill :
    (n : ℕ) (raw_entry : Protoent) → raw_entry.p_proto ≡ pos n → is_known (fill raw_entry) ≡ true
unfolding fill
is_known-fill n raw_entry e = rw e refl

==→eq : (a b : ℕ) → (a == b) ≡ true → a ≡ b
==→eq a b h = ground arith

-- The numbers that were seen are those of the known entries.
abbrev Seen : List ℕ → List Entry → Type 0
Seen seen db = (m : ℕ) → is_known (get_or db m unknown_protocol) ≡ elem m seen

load_at-Seen :
    (n : ℕ) (raw_entry : Protoent) (d : ProtocolDatabase) (seen : List ℕ)
    → raw_entry.p_proto ≡ pos n
    → n < length d.db
    → Seen seen d.db
    → Seen (n ∷ seen) (load_at n raw_entry d).db
unfolding load_at elem
load_at-Seen n raw_entry d seen e h agree m =
    elim (Bool-cases (is_known (get_or d.db n unknown_protocol))) [
      | inl old ↦ rw old (elim (Bool-cases (n == m)) [
        | inl same ↦
            rw same
              (ap (λ k. is_known (get_or d.db k unknown_protocol)) (sym (==→eq n m same)) ∙ old)
        | inr other ↦ rw other (agree m)
      ])
      | inr new ↦
          rw (new, get_or-set d.db n m (fill raw_entry) unknown_protocol h)
            (elim (Bool-cases (n == m)) [
              | inl same ↦ rw same (is_known-fill n raw_entry e)
              | inr other ↦ rw other (agree m)
            ])
    ]

find-load_at :
    (name : Bytes) (n : ℕ) (raw_entry : Protoent) (d : ProtocolDatabase) (seen : List ℕ)
    → Seen seen d.db
    → find name (load_at n raw_entry d).name_index
      ≡ or_else
          (find name d.name_index)
          (when (not (elem n seen) && bears name (index_names (fill raw_entry))) n)
unfolding load_at
find-load_at name n raw_entry d seen agree =
    elim (Bool-cases (is_known (get_or d.db n unknown_protocol))) [
      | inl old ↦ rw (old, sym (agree n) ∙ old) (sym (or_else-none (find name d.name_index)))
      | inr new ↦
          rw (new, sym (agree n) ∙ new)
            (find-emplace_all name (index_names (fill raw_entry)) n d.name_index)
    ]

or_else_assoc : (a b c : Option ℕ) → or_else (or_else a b) c ≡ or_else a (or_else b c)
or_else_assoc none b c = refl
or_else_assoc (some n) b c = refl

name_index-eq : {d d' : ProtocolDatabase} → some d ≡ some d' → d'.name_index ≡ d.name_index
name_index-eq e = cc

find-load :
    (name : Bytes) (raw_entries : List Protoent) (d : ProtocolDatabase) (seen : List ℕ)
    {d' : ProtocolDatabase}
    → IsCounted d
    → Seen seen d.db
    → load raw_entries d ≡ some d'
    → find name d'.name_index ≡ or_else (find name d.name_index) (bearer name seen raw_entries)
unfolding load bearer
find-load name [] d seen valid agree done =
    ap (λ o. find name o) (name_index-eq done) ∙ sym (or_else-none (find name d.name_index))
find-load name (raw_entry ∷ raw_entries) d seen valid agree done =
    elim (Bool-cases (too_large raw_entry.p_proto)) [
      | inl large ↦ absurd (none-ne-some (rw large at done))
      | inr small ↦
          let (n, e, h) = within raw_entry.p_proto small in
          let m = number raw_entry.p_proto in
          let is_number : raw_entry.p_proto ≡ pos m = rw e refl in
          let room : m < capacity = rw e h in
          let first = when (not (elem m seen) && bears name (index_names (fill raw_entry))) m in
          find-load name raw_entries (load_at m raw_entry d) (m ∷ seen)
            (load_at-IsCounted m raw_entry d is_number room valid)
            (load_at-Seen m raw_entry d seen is_number (omega (arith, valid.size)) agree)
            (rw small at done)
          ∙ (ap (λ o. or_else o (bearer name (m ∷ seen) raw_entries))
                (find-load_at name m raw_entry d seen agree)
              ∙ or_else_assoc (find name d.name_index) first (bearer name (m ∷ seen) raw_entries))
    ]

db-eq : {d d' : ProtocolDatabase} → some d ≡ some d' → d'.db ≡ d.db
db-eq e = cc

if_same {ℓ} : {A : Type ℓ} (b : Bool) (a : A) → (if b then a else a) ≡ a
if_same true a = refl
if_same false a = refl

get_or-load_at :
    (m k : ℕ) (raw_entry : Protoent) (raw_entries : List Protoent) (d : ProtocolDatabase)
    → raw_entry.p_proto ≡ pos k
    → k < length d.db
    → (let db = (load_at k raw_entry d).db in
        if is_known (get_or db m unknown_protocol)
        then get_or db m unknown_protocol
        else first_of m (get_or db m unknown_protocol) raw_entries)
      ≡ (if is_known (get_or d.db m unknown_protocol)
          then get_or d.db m unknown_protocol
          else first_of m (get_or d.db m unknown_protocol) (raw_entry ∷ raw_entries))
unfolding load_at first_of
get_or-load_at m k raw_entry raw_entries d e h =
    elim (Bool-cases (is_known (get_or d.db k unknown_protocol))) [
      | inl old ↦ rw old (
          rw (ap number e) (elim (Bool-cases (k == m)) [
            | inl same ↦
                let held : is_known (get_or d.db m unknown_protocol) ≡ true =
                  ap (λ i. is_known (get_or d.db i unknown_protocol)) (sym (==→eq k m same))
                  ∙ old in
                rw held refl
            | inr other ↦ rw other refl
          ]))
      | inr new ↦
          rw (new, get_or-set d.db k m (fill raw_entry) unknown_protocol h)
            (rw (ap number e) (elim (Bool-cases (k == m)) [
              | inl same ↦
                  let lost : is_known (get_or d.db m unknown_protocol) ≡ false =
                    ap (λ i. is_known (get_or d.db i unknown_protocol)) (sym (==→eq k m same))
                    ∙ new in
                  rw (same, is_known-fill k raw_entry e, lost) refl
              | inr other ↦ rw other refl
            ]))
    ]

get_or-load :
    (m : ℕ) (raw_entries : List Protoent) (d : ProtocolDatabase) {d' : ProtocolDatabase}
    → IsCounted d
    → load raw_entries d ≡ some d'
    → get_or d'.db m unknown_protocol ≡ (
        if is_known (get_or d.db m unknown_protocol)
        then get_or d.db m unknown_protocol
        else first_of m (get_or d.db m unknown_protocol) raw_entries)
unfolding load first_of
get_or-load m [] d valid done =
    ap (λ (db : List Entry). get_or db m unknown_protocol) (db-eq done)
    ∙ sym (if_same (is_known (get_or d.db m unknown_protocol)) (get_or d.db m unknown_protocol))
get_or-load m (raw_entry ∷ raw_entries) d valid done =
    elim (Bool-cases (too_large raw_entry.p_proto)) [
      | inl large ↦ absurd (none-ne-some (rw large at done))
      | inr small ↦
          let (n, e, h) = within raw_entry.p_proto small in
          let k = number raw_entry.p_proto in
          let is_number : raw_entry.p_proto ≡ pos k = rw e refl in
          let room : k < capacity = rw e h in
          get_or-load m raw_entries (load_at k raw_entry d)
            (load_at-IsCounted k raw_entry d is_number room valid) (rw small at done)
          ∙ get_or-load_at m k raw_entry raw_entries d is_number (omega (arith, valid.size))
    ]

get_or-replicate :
    (n m : ℕ) → get_or (replicate n unknown_protocol) m unknown_protocol ≡ unknown_protocol
get_or-replicate zero m = refl
get_or-replicate (suc n) zero = refl
get_or-replicate (suc n) (suc m) = get_or-replicate n m

initial-Seen : Seen [] initial.db
unfolding elem
initial-Seen m = ap is_known (get_or-replicate capacity m)

-- At each number, a loaded database holds the first entry of that number.
pub db-protocol_database :
    (raw_entries : List Protoent) {d : ProtocolDatabase}
    → load raw_entries initial ≡ some d
    → (m : ℕ) → get_or d.db m unknown_protocol ≡ first_of m unknown_protocol raw_entries
db-protocol_database raw_entries {d} done m =
    get_or-load m raw_entries initial initial-IsCounted done ∙ rw (get_or-replicate capacity m) refl

-- The entry of a name: the first of the number that the name leads to.
pub named : Bytes → List Protoent → Entry
named name raw_entries =
    entry_at (λ n. first_of n unknown_protocol raw_entries) (bearer name [] raw_entries)

-- In a database that was loaded without an exception, get gives for a name the first entry of the
-- number that the name leads to, which is the first number whose first entry bears the name, and
-- unknown_protocol if there is none; contains says whether there is one.
pub get-protocol_database :
    (name : Bytes) (raw_entries : List Protoent) {d : ProtocolDatabase}
    → protocol_database raw_entries ≡ some d
    → (get name d ≡ named name raw_entries)
      × (contains name d ≡ is_some (bearer name [] raw_entries))
unfolding protocol_database get contains named
get-protocol_database name raw_entries {d} done =
    let found : find name d.name_index ≡ bearer name [] raw_entries =
      find-load name raw_entries initial [] initial-IsCounted initial-Seen done in
    (
      ap (entry_at (λ n. get_or d.db n unknown_protocol)) found
          ∙ ap (λ db. entry_at db (bearer name [] raw_entries))
              (fun_ext (db-protocol_database raw_entries done)),
      ap is_some found,
    )
