-- ===== src/Ip/V6/Format.antt =====
-- `formatter<address_v6>::format`.
pub mod Runs
pub mod Longest
pub mod Shape
pub mod Alphabet
use iouxx.Base.{
  ℕ, zero, suc, ◌+◌, Bool, true, false, not, ◌&&◌, ◌||◌, List, [], ◌∷◌, ◌++◌, map, ◌==◌, ltb,
  if◌then◌else◌, Bytes, get_or, take, drop,
}
use iouxx.Text.Number.{format_hex}
use iouxx.Ip.Bytes.{Endian, hton_words, from_halves}
use iouxx.Ip.V4
use iouxx.Ip.V6.{AddressV6}
use iouxx.Ip.V6.Spec.{Spec, recommended}

-- The words with a colon between them.
pub between_colons : List Bytes → Bytes
between_colons [] = []
between_colons (g ∷ []) = g
between_colons (g ∷ h ∷ gs) = g ++ b':' ∷ between_colons (h ∷ gs)

-- A colon behind each word, and a colon in front of each.
pub colons_behind : List Bytes → Bytes
colons_behind [] = []
colons_behind (g ∷ gs) = g ++ b':' ∷ colons_behind gs

pub colons_before : List Bytes → Bytes
colons_before [] = []
colons_before (g ∷ gs) = b':' ∷ (g ++ colons_before gs)

-- The field of a word.
abbrev pub groups : Bool → Bool → List ℕ → List Bytes
groups removed uppercase = map (format_hex removed uppercase)

unfoldable pub full_ipv6 : List ℕ → Bool → Bool → Bytes
full_ipv6 local removed uppercase = between_colons (groups removed uppercase local)

unfoldable pub mixed_full_ipv6 : List ℕ → Bool → Bool → Bytes
mixed_full_ipv6 local removed uppercase = colons_behind (groups removed uppercase (take 6 local))

-- The variables of the search for the longest run of zeros.
pub record Run : Type 0 where
  pub best_start : ℕ
  pub best_len : ℕ
  pub cur_start : ℕ
  pub cur_len : ℕ

abbrev pub no_run : Run
no_run = record { best_start = 0; best_len = 0; cur_start = 0; cur_len = 0 }

-- One round, on the word with index `i`.
pub scan_word : ℕ → ℕ → Run → Run
scan_word i w r =
    if w == 0
    then (let cur_start = if r.cur_len == 0 then i else r.cur_start in
        let cur_len = r.cur_len + 1 in
        if ltb r.best_len cur_len
        then record {
          best_start = cur_start;
          best_len = cur_len;
          cur_start = cur_start;
          cur_len = cur_len;
        }
        else record r { cur_start = cur_start; cur_len = cur_len })
    else record r { cur_len = 0 }

pub scan : List ℕ → ℕ → Run → Run
scan [] i r = r
scan (w ∷ ws) i r = scan ws (suc i) (scan_word i w r)

abbrev pub limit : Bool → ℕ
limit mixed = if mixed then 6 else 8

abbrev pub colon_if : Bool → Bytes
colon_if true = b':' ∷ []
colon_if false = []

-- The text around the run of zeros.
unfoldable pub around : List ℕ → Bool → Bool → Bool → ℕ → ℕ → Bytes
around local removed uppercase mixed best_start best_len =
    let shown = take (limit mixed) local in
    colons_behind (groups removed uppercase (take best_start shown))
    ++ (colon_if (best_start == 0)
        ++ (colons_before (groups removed uppercase (drop (best_start + best_len) shown))
            ++ colon_if (best_start + best_len == limit mixed || mixed)))

unfoldable pub compressed_ipv6 : List ℕ → Bool → Bool → Bool → Bytes
compressed_ipv6 local removed mixed uppercase =
    let r = scan (take (limit mixed) local) 0 no_run in
    if ltb r.best_len 2
    then (if mixed
        then mixed_full_ipv6 local removed uppercase
        else full_ipv6 local removed uppercase)
    else if r.best_start == 0 && r.best_len == limit mixed
    then b':' ∷ b':' ∷ []
    else around local removed uppercase mixed r.best_start r.best_len

-- The last two words as an IPv4 address.
unfoldable pub ipv4_part : Endian → AddressV6 → Bytes
ipv4_part e a =
    V4.to_string e (record { addr = from_halves e (get_or a.addr 6 0) (get_or a.addr 7 0) })

unfoldable pub do_format : Endian → AddressV6 → List ℕ → Bool → Bool → Bool → Bool → Bytes
do_format e a local full removed mixed uppercase =
    if full
    then (if mixed
        then mixed_full_ipv6 local removed uppercase ++ ipv4_part e a
        else full_ipv6 local removed uppercase)
    else compressed_ipv6 local removed mixed uppercase ++ (if mixed then ipv4_part e a else [])

-- Whether the recommended form shows an embedded IPv4 address.
unfoldable pub check_mixed : List ℕ → Bool
check_mixed local =
    get_or local 0 0 == 0
    && get_or local 1 0 == 0
    && get_or local 2 0 == 0
    && get_or local 3 0 == 0
    && get_or local 4 0 == 0
    && not
        (not (get_or local 5 0 == 0xffff) && (not (get_or local 5 0 == 0) || get_or local 6 0 == 0))

pub shows_mixed : Spec → List ℕ → Bool
shows_mixed spec local = if spec.seen_r then not spec.seen_n && check_mixed local else spec.seen_m

unfoldable pub format : Endian → Spec → AddressV6 → Bytes
unfolding between_colons colons_behind colons_before full_ipv6 mixed_full_ipv6 scan_word scan around
    compressed_ipv6 ipv4_part do_format check_mixed shows_mixed
format e spec a =
    let local = hton_words e a.addr in
    do_format e a local spec.seen_f (not spec.seen_z) (shows_mixed spec local) spec.seen_u

-- `address_v6::to_string`: the recommended form.
unfoldable pub to_string : Endian → AddressV6 → Bytes
unfolding format
to_string e = format e recommended
