-- ===== src/Ip/V6/Format/Alphabet.antt =====
-- Which bytes the IPv6 formatter writes: hexadecimal digits, colons and dots only.
use iouxx.Base.{
  ℕ, ◌≤◌, Bool, true, false, List, [], ◌∷◌, ◌&&◌, ◌==◌, ltb, ◌≢◌, arith, if◌then◌else◌, Bytes, All,
  All-append, Lacks, take,
}
use iouxx.Text.Number.{digit_value}
use iouxx.Text.Number.Digits.{Lacks-of_IsDigit}
use iouxx.Text.Number.RoundTrip.{format_hex-IsNumeral}
use iouxx.Ip.Bytes.{Endian}
use iouxx.Ip.V4.RoundTrip.{to_string-Lacks}
use iouxx.Ip.V6.{AddressV6}
use iouxx.Ip.V6.Spec.{Spec}
use iouxx.Ip.V6.Format.{
  between_colons, colons_behind, colons_before, colon_if, groups, full_ipv6, mixed_full_ipv6,
  around, compressed_ipv6, ipv4_part, do_format, format, scan, limit, no_run,
}

module _ (b : ℕ) (no_digit : 16 ≤ digit_value b) (no_colon : b':' ≢ b) (no_dot : b'.' ≢ b) where
  if-Lacks : (c : Bool) (s t : Bytes) → Lacks b s → Lacks b t → Lacks b (if c then s else t)
  if-Lacks true s t hs ht = hs
  if-Lacks false s t hs ht = ht

  groups-Lacks :
      (removed uppercase : Bool) (ws : List ℕ) → All (Lacks b) (groups removed uppercase ws)
  groups-Lacks removed uppercase [] = tt
  groups-Lacks removed uppercase (w ∷ ws) = (
    Lacks-of_IsDigit 16 b _ no_digit (format_hex-IsNumeral removed uppercase w).digits,
    groups-Lacks removed uppercase ws,
  )

  between_colons-Lacks : (ps : List Bytes) → All (Lacks b) ps → Lacks b (between_colons ps)
  unfolding between_colons
  between_colons-Lacks [] _ = tt
  between_colons-Lacks (p ∷ []) (h, _) = h
  between_colons-Lacks (p ∷ q ∷ ps) (h, hs) =
      All-append _ p _ h (no_colon, between_colons-Lacks (q ∷ ps) hs)

  colons_behind-Lacks : (ps : List Bytes) → All (Lacks b) ps → Lacks b (colons_behind ps)
  unfolding colons_behind
  colons_behind-Lacks [] _ = tt
  colons_behind-Lacks (p ∷ ps) (h, hs) = All-append _ p _ h (no_colon, colons_behind-Lacks ps hs)

  colons_before-Lacks : (ps : List Bytes) → All (Lacks b) ps → Lacks b (colons_before ps)
  unfolding colons_before
  colons_before-Lacks [] _ = tt
  colons_before-Lacks (p ∷ ps) (h, hs) = (no_colon, All-append _ p _ h (colons_before-Lacks ps hs))

  colon_if-Lacks : (c : Bool) → Lacks b (colon_if c)
  colon_if-Lacks true = (no_colon, tt)
  colon_if-Lacks false = tt

  module _ (local : List ℕ) (removed uppercase : Bool) where
    full-Lacks : Lacks b (full_ipv6 local removed uppercase)
    unfolding full_ipv6
    full-Lacks = between_colons-Lacks _ (groups-Lacks removed uppercase local)

    mixed_full-Lacks : Lacks b (mixed_full_ipv6 local removed uppercase)
    unfolding mixed_full_ipv6
    mixed_full-Lacks = colons_behind-Lacks _ (groups-Lacks removed uppercase (take 6 local))

    around-Lacks :
        (mixed : Bool) (start len : ℕ) → Lacks b (around local removed uppercase mixed start len)
    unfolding around
    around-Lacks mixed start len =
        All-append _ _ _ (colons_behind-Lacks _ (groups-Lacks removed uppercase _)) (
          All-append _ (colon_if (start == 0)) _ (colon_if-Lacks (start == 0)) (
            All-append _ _ _ (colons_before-Lacks _ (groups-Lacks removed uppercase _))
              (colon_if-Lacks _)))

    uncompressed-Lacks :
        (mixed : Bool)
        → Lacks b (
            if mixed
            then mixed_full_ipv6 local removed uppercase
            else full_ipv6 local removed uppercase)
    uncompressed-Lacks true = mixed_full-Lacks
    uncompressed-Lacks false = full-Lacks

    compressed-Lacks : (mixed : Bool) → Lacks b (compressed_ipv6 local removed mixed uppercase)
    unfolding compressed_ipv6
    compressed-Lacks mixed =
        let r = scan (take (limit mixed) local) 0 no_run in
        let zeros = r.best_start == 0 && r.best_len == limit mixed in
        let rest = around local removed uppercase mixed r.best_start r.best_len in
        if-Lacks (ltb r.best_len 2) _ (if zeros then b':' ∷ b':' ∷ [] else rest)
          (uncompressed-Lacks mixed)
          (if-Lacks zeros (b':' ∷ b':' ∷ []) rest (no_colon, (no_colon, tt))
            (around-Lacks mixed r.best_start r.best_len))

  do_format-Lacks :
      (e : Endian) (a : AddressV6) (local : List ℕ) (full removed mixed uppercase : Bool)
      → Lacks b (do_format e a local full removed mixed uppercase)
  unfolding do_format ipv4_part
  do_format-Lacks e a local full removed mixed uppercase =
      let v4 : Lacks b (ipv4_part e a) = to_string-Lacks e _ b (omega arith) no_dot in
      if-Lacks full _ _
        (if-Lacks mixed _ _ (All-append _ _ _ (mixed_full-Lacks local removed uppercase) v4)
          (full-Lacks local removed uppercase))
        (All-append _ _ _ (compressed-Lacks local removed uppercase mixed)
          (if-Lacks mixed _ _ v4 tt))

  -- A byte that is no hexadecimal digit or other letter, no colon and no dot does not stand in what
  -- formatter<address_v6>::format prints, whatever the specification.
  pub format-Lacks : (e : Endian) (spec : Spec) (a : AddressV6) → Lacks b (format e spec a)
  unfolding format
  format-Lacks e spec a = do_format-Lacks e a _ spec.seen_f _ _ spec.seen_u
