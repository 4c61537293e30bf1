-- ===== src/Tests/Mapped.antt =====
-- A run of the IPv4-mapped addresses.
use iouxx.Base.{◌++◌, ◌≡◌, true, codes, arith}
use iouxx.Base.Result.{ok}
use iouxx.Ip.Bytes.{big}
use iouxx.Ip.V4.{AddressV4, to_string}
use iouxx.Ip.V6.{AddressV6, is_ipv4_mapped, to_ipv4_mapped}
use iouxx.Ip.V6.Parse.{from_string}
use iouxx.Ip.V6.Mapped.{to_ipv4_mapped-from_string}

-- 192.168.0.1
abbrev router : AddressV4
router = record { addr = 0xc0a80001 }

to_ipv4_mapped-from_string_example :
    (v6 : AddressV6) × (from_string big (codes "::ffff:" ++ to_string big router) ≡ ok v6)
    × (is_ipv4_mapped v6 ≡ true)
    × (to_ipv4_mapped big v6 ≡ router)
to_ipv4_mapped-from_string_example = to_ipv4_mapped-from_string big router (omega arith)
