-- ===== src/Net/Uds/Laws.antt =====
-- The path of a Unix domain address.
use iouxx.Base.{
  ℕ, zero, suc, ◌-◌, ◌∙◌, true, false, ◌<◌, ◌≤◌, Bytes, List, [], ◌∷◌, ◌++◌, length, drop, set,
  none, some, ◌≡◌, refl, ap, leb, arith, Lacks, length-set, length-append, length-drop,
}
use iouxx.Net.Uds.{
  UdsInfo, no_uds, uds_info, to_system_sockaddr, from_system_sockaddr, string_view, path,
  sun_path_size, prefix,
}

-- The bytes before the first zero.
abbrev pub before_zero : Bytes → Bytes
before_zero [] = []
before_zero (zero ∷ bs) = []
before_zero (suc b ∷ bs) = suc b ∷ before_zero bs

-- A write behind a text leaves the text.
string_view-terminated :
    (text rest : List ℕ)
    → 0 < length rest
    → string_view (set (text ++ rest) (length text) 0) ≡ some (before_zero text)
unfolding string_view
string_view-terminated [] [] h = absurd (omega arith)
string_view-terminated [] (r ∷ rest) h = refl
string_view-terminated (zero ∷ text) rest h = refl
string_view-terminated (suc b ∷ text) rest h =
    ap (prefix (suc b)) (string_view-terminated text rest h)

-- What stands behind a text in the array.
abbrev rest_behind : Bytes → List ℕ
rest_behind text = drop (length text) no_uds.sun_path

length-rest_behind : (text : Bytes) → length (rest_behind text) ≡ 108 - length text
length-rest_behind text = length-drop (length text) no_uds.sun_path

leb-short : (text : Bytes) → length text < sun_path_size → leb sun_path_size (length text) ≡ false
leb-short text h = ground arith

leb-long : (text : Bytes) → sun_path_size ≤ length text → leb sun_path_size (length text) ≡ true
leb-long text h = ground arith

-- A text of less than 108 bytes makes a Unix domain address of a path of 108 bytes, which goes to
-- the system and back and then has the bytes before the first zero of the text as its path; for a
-- text of 108 bytes or more the constructor throws.
pub path-uds_info :
    (text long : Bytes)
    → length text < sun_path_size
    → sun_path_size ≤ length long
    → (uds_info long ≡ none)
      × (info : UdsInfo) × (uds_info text ≡ some info)
      × (path (from_system_sockaddr (to_system_sockaddr info)) ≡ some (before_zero text))
      × (length info.sun_path ≡ sun_path_size)
unfolding uds_info path from_system_sockaddr to_system_sockaddr
path-uds_info text long h l = (
  rw (leb-long long l) refl,
  record no_uds { sun_path = set (text ++ rest_behind text) (length text) 0 },
  rw (leb-short text h) refl,
  string_view-terminated text (rest_behind text) (omega (arith, length-rest_behind text)),
  length-set (text ++ rest_behind text) (length text) 0
      ∙ length-append text (rest_behind text)
      ∙ omega (arith, length-rest_behind text),
)

-- Where no byte is zero, that is the whole text.
before_zero-Lacks : (text : Bytes) → Lacks 0 text → before_zero text ≡ text
before_zero-Lacks [] h = refl
before_zero-Lacks (zero ∷ text) (b, h) = absurd (b refl)
before_zero-Lacks (suc c ∷ text) (b, h) = ap (◌∷◌ (suc c)) (before_zero-Lacks text h)
