-- ===== src/Tests/V4.antt =====
-- Runs of the IPv4 code.
use iouxx.Base.{[], ◌≡◌, ◌↔◌, refl, codes}
use iouxx.Base.Result.{ok, fail_invalid_argument, fail, result_out_of_range}
use iouxx.Text.Number.{format_decimal, from_chars}
use iouxx.Text.Split.{split}
use iouxx.Ip.Bytes.{little, big, load_32, store_32, hton}
use iouxx.Ip.V4.{AddressV4, IsAddressV4, from_string, to_string, loopback}
use iouxx.Ip.V4.Sound.{from_string_iff}

reads_loopback : from_string little (codes "127.0.0.1") ≡ ok (loopback little)
unfolding from_string split from_chars load_32 loopback hton
reads_loopback = refl

writes_loopback : to_string little (loopback little) ≡ codes "127.0.0.1"
unfolding to_string store_32 loopback hton format_decimal
writes_loopback = refl

out_of_range : from_string big (codes "256.0.0.1") ≡ fail result_out_of_range
unfolding from_string split from_chars load_32
out_of_range = refl

refused :
    (from_string little (codes "1.2.3") ≡ fail_invalid_argument)
    × (from_string little (codes "1.2.3.4.5") ≡ fail_invalid_argument)
    × (from_string little (codes "01.2.3.4") ≡ fail_invalid_argument)
    × (from_string little (codes "1..2.3") ≡ fail_invalid_argument)
    × (from_string little (codes "1.2.3.4 ") ≡ fail_invalid_argument)
    × (from_string little [] ≡ fail_invalid_argument)
unfolding from_string split from_chars load_32
refused = (refl, refl, refl, refl, refl, refl)

abbrev one : AddressV4
one = record { addr = 0x04030201 }

one_text : codes "1.2.3.4" ≡ to_string little one
unfolding to_string store_32 format_decimal
one_text = refl

one_read : from_string little (codes "1.2.3.4") ≡ ok one
unfolding from_string split from_chars load_32
one_read = refl

from_string_iff_example :
    (from_string little (codes "1.2.3.4") ≡ ok one)
    ↔ (IsAddressV4 one × (codes "1.2.3.4" ≡ to_string little one))
from_string_iff_example = from_string_iff little (codes "1.2.3.4") one
