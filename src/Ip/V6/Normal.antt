-- ===== src/Ip/V6/Normal.antt =====
-- The texts of an address that `formatter<address_v6>` prints are normal forms of all that are read as it.
use iouxx.Base.{Bytes, ◌≡◌}
use iouxx.Base.Result.{ok}
use iouxx.Ip.Bytes.{Endian}
use iouxx.Ip.V6.{AddressV6, IsAddressV6}
use iouxx.Ip.V6.Spec.{Spec}
use iouxx.Ip.V6.Format.{format}
use iouxx.Ip.V6.Parse.{from_string}
use iouxx.Ip.V6.Parse.Sound.{from_string-IsAddressV6}
use iouxx.Ip.V6.RoundTrip.{from_string-format_v6}

-- On every text that address_v6::from_string reads as an address, the address has eight 16-bit
-- words, and for every format specification what formatter<address_v6>::format prints of it is read
-- as the same address again.
pub from_string-format-from_string :
    (e : Endian) (spec : Spec) (text : Bytes) (a : AddressV6)
    → from_string e text ≡ ok a
    → IsAddressV6 a × (from_string e (format e spec a) ≡ ok a)
from_string-format-from_string e spec text a h =
    let words = from_string-IsAddressV6 e text a h in (words, from_string-format_v6 e spec a words)
