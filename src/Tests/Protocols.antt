-- ===== src/Tests/Protocols.antt =====
-- Runs of the database of protocols.
use iouxx.Base.{ℕ, List, [], ◌∷◌, some, Bytes, codes, ◌≡◌, refl, pos, length}
use iouxx.Net.Protocols.{
  Protoent, ProtocolDatabase, protocol_database, load, load_at, initial, too_large, get, contains,
  is_some, begin, find, try_emplace, emplace_all, fill,
}
use iouxx.Net.Protocols.Visits.{visited}
use iouxx.Net.Protocols.Order.{listed, IsAscending, protocol_database-visited}
use iouxx.Net.Protocols.Bearers.{bearer, named, get-protocol_database}

abbrev protoent : Bytes → Bytes → ℕ → Protoent
protoent name alias n = record {
  p_name = some name;
  p_aliases = some (alias ∷ [] ∷ []);
  p_proto = pos n;
}

-- Two entries of number 6, and one that bears a name that was there.
abbrev entries : List Protoent
entries =
    protoent (codes "ip") (codes "IP") 0
    ∷ protoent (codes "tcp") (codes "TCP") 6
    ∷ protoent (codes "tcp2") (codes "TCP2") 6
    ∷ protoent (codes "udp") (codes "IP") 17
    ∷ []

database : ProtocolDatabase
database = load_at 17 (protoent (codes "udp") (codes "IP") 17) (
    load_at 6 (protoent (codes "tcp2") (codes "TCP2") 6) (
      load_at 6 (protoent (codes "tcp") (codes "TCP") 6)
        (load_at 0 (protoent (codes "ip") (codes "IP") 0) initial)))

loaded : protocol_database entries ≡ some database
unfolding protocol_database load too_large database
loaded = refl

finds_udp : (get (codes "udp") database).no ≡ pos 17
unfolding database load_at get find try_emplace emplace_all fill
finds_udp = refl

finds_first : (get (codes "IP") database).no ≡ pos 0
unfolding database load_at get find try_emplace emplace_all fill
finds_first = refl

counts : database.total ≡ 3
unfolding database load_at fill
counts = refl

get-protocol_database_example :
    (get (codes "IP") database ≡ named (codes "IP") entries)
    × (contains (codes "IP") database ≡ is_some (bearer (codes "IP") [] entries))
get-protocol_database_example = get-protocol_database (codes "IP") entries loaded

protocol_database-visited_example :
    (visited 513 (begin database) ≡ some (listed 0 512 entries))
    × (database.total ≡ length (listed 0 512 entries))
    × IsAscending 0 (listed 0 512 entries)
protocol_database-visited_example = protocol_database-visited entries loaded
