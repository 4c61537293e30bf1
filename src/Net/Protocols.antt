-- ===== src/Net/Protocols.antt =====
-- `protocol_database` of include/iouxx/iouops/network/socket.hpp: loading the entries that `getprotoent`
-- gives, looking them up by name and by number, and the iterator over the entries that are known.
pub mod Bearers
pub mod Order
pub mod Visits
use iouxx.Base.{
  ℕ, suc, Bool, true, false, not, ◌&&◌, ◌||◌, List, [], ◌∷◌, ◌++◌, Option, none, some, Bytes, codes,
  ◌==◌, leb, if◌then◌else◌, get_or, set, replicate, ℤ, pos, negsuc, is_negative,
}

-- `socket_config::protocol::unknown`, of which the number is -1, and `socket_config::protocol_no_limit`.
abbrev pub unknown : ℤ
unknown = negsuc 0

abbrev pub capacity : ℕ
capacity = 512

-- `protocol_database::entry`, and its initial value, which is `unknown_protocol` too.
pub record Entry : Type 0 where
  pub name : Bytes
  pub alias : List Bytes
  pub no : ℤ

abbrev pub unknown_protocol : Entry
unknown_protocol = record {
  name = codes "unknown";
  alias = codes "Unknown" ∷ codes "UNKNOWN" ∷ [];
  no = unknown;
}

abbrev is_unknown : ℤ → Bool
is_unknown (pos n) = false
is_unknown (negsuc n) = n == 0

-- `entry::operator bool`; the equality of entries with `unknown_protocol` is its negation.
abbrev pub is_known : Entry → Bool
is_known e = not (is_unknown e.no)

pub record ProtocolDatabase : Type 0 where
  pub db : List Entry
  pub name_index : List (Bytes × ℕ)
  pub total : ℕ

-- What `getprotoent` gives; a pointer that may be null is an option.
pub record Protoent : Type 0 where
  pub p_name : Option Bytes
  pub p_aliases : Option (List Bytes)
  pub p_proto : ℤ

pub same : Bytes → Bytes → Bool
same [] [] = true
same [] (d ∷ t) = false
same (c ∷ s) [] = false
same (c ∷ s) (d ∷ t) = c == d && same s t

-- `flat_map::find`, and `try_emplace`, which keeps the value that a key has.
unfoldable pub find : Bytes → List (Bytes × ℕ) → Option ℕ
unfolding same
find name [] = none
find name ((key, n) ∷ index) = if same key name then some n else find name index

unfoldable pub try_emplace : Bytes → ℕ → List (Bytes × ℕ) → List (Bytes × ℕ)
unfolding find
try_emplace name n index = elim (find name index) [ some n ↦ index | none ↦ (name, n) ∷ index ]

abbrev pub is_empty : Bytes → Bool
is_empty [] = true
is_empty (c ∷ s) = false

abbrev pub loaded_name : Option Bytes → Bytes
loaded_name none = []
loaded_name (some name) = name

-- The aliases that are not empty.
pub present : List Bytes → List Bytes
present [] = []
present (name ∷ names) = let rest = present names in if is_empty name then rest else name ∷ rest

abbrev pub loaded_alias : Option (List Bytes) → List Bytes
unfolding present
loaded_alias none = []
loaded_alias (some names) = present names

-- The entry that the constructor fills in for one of `getprotoent`.
unfoldable pub fill : Protoent → Entry
unfolding present
fill raw_entry = record {
  name = loaded_name raw_entry.p_name;
  alias = loaded_alias raw_entry.p_aliases;
  no = raw_entry.p_proto;
}

-- The names under which an entry is indexed.
abbrev pub index_names : Entry → List Bytes
index_names e = if is_empty e.name then e.alias else e.name ∷ e.alias

unfoldable pub emplace_all : List Bytes → ℕ → List (Bytes × ℕ) → List (Bytes × ℕ)
unfolding try_emplace
emplace_all [] n index = index
emplace_all (name ∷ names) n index = emplace_all names n (try_emplace name n index)

-- One round of the loop for an entry whose number is within the capacity.
unfoldable pub load_at : ℕ → Protoent → ProtocolDatabase → ProtocolDatabase
unfolding fill emplace_all
load_at n raw_entry d = if is_known (get_or d.db n unknown_protocol) then d else record {
  db = set d.db n (fill raw_entry);
  name_index = emplace_all (index_names (fill raw_entry)) n d.name_index;
  total = suc d.total;
}

-- `no >= capacity()` compares as unsigned, so that a negative number is too large as well.
unfoldable pub too_large : ℤ → Bool
too_large (pos n) = leb capacity n
too_large (negsuc n) = true

abbrev pub number : ℤ → ℕ
number (pos n) = n
number (negsuc n) = 0

-- The loop of the constructor; `none` is the exception.
unfoldable pub load : List Protoent → ProtocolDatabase → Option ProtocolDatabase
unfolding load_at too_large
load [] d = some d
load (raw_entry ∷ raw_entries) d =
    if too_large raw_entry.p_proto
    then none
    else load raw_entries (load_at (number raw_entry.p_proto) raw_entry d)

abbrev pub initial : ProtocolDatabase
initial = record { db = replicate capacity unknown_protocol; name_index = []; total = 0 }

-- `protocol_database()`
unfoldable pub protocol_database : List Protoent → Option ProtocolDatabase
unfolding load
protocol_database raw_entries = load raw_entries initial

abbrev pub entry_at : (ℕ → Entry) → Option ℕ → Entry
entry_at db none = unknown_protocol
entry_at db (some n) = db n

-- `get` and `contains` by name.
unfoldable pub get : Bytes → ProtocolDatabase → Entry
unfolding find
get name d = entry_at (λ n. get_or d.db n unknown_protocol) (find name d.name_index)

abbrev pub is_some : Option ℕ → Bool
is_some none = false
is_some (some n) = true

unfoldable pub contains : Bytes → ProtocolDatabase → Bool
unfolding find
contains name d = is_some (find name d.name_index)

-- `get` and `contains` by number.
unfoldable pub get_number : ℤ → ProtocolDatabase → Entry
unfolding too_large
get_number p d =
    if not (is_negative p) && not (too_large p)
    then get_or d.db (number p) unknown_protocol
    else unknown_protocol

unfoldable pub contains_number : ℤ → ProtocolDatabase → Bool
unfolding too_large
contains_number p d =
    not (is_negative p) && not (too_large p) && is_known (get_or d.db (number p) unknown_protocol)

-- An iterator is the part of `db` from `iter` to `end`. Past entries that are unknown:
pub skip : List Entry → List Entry
skip [] = []
skip (e ∷ es) = if is_known e then e ∷ es else skip es

-- `protocol_database::begin`
unfoldable pub begin : ProtocolDatabase → List Entry
unfolding skip
begin d = skip d.db

-- `iterator::operator++()` and `iterator::operator++(int)`, which leave the iterator moved; at the end both
-- are undefined behaviour.
unfoldable pub increment : List Entry → Option (List Entry)
unfolding skip
increment [] = none
increment (e ∷ es) = some (skip es)

unfoldable pub post_increment : List Entry → Option (List Entry)
post_increment [] = none
post_increment (e ∷ es) = some es
