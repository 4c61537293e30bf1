-- ===== src/Ip/V6.antt =====
-- `address_v6` of include/iouxx/iouops/network/ip.hpp. The parser is in Parse, the formatter in Format
-- and its specification in Spec.
pub mod Parse
pub mod Format
pub mod Spec
pub mod View
pub mod Shown
pub mod Mapped
pub mod RoundTrip
pub mod Normal
use iouxx.Base.{ℕ, List, [], ◌∷◌, Bool, ◌&&◌, ◌==◌, ◌≡◌, All, length, get_or}
use iouxx.Ip.Bytes.{Endian, hton_words, from_halves, IsWord}
use iouxx.Ip.V4.{AddressV4}

pub record AddressV6 : Type 0 where
  -- `v6raw`: eight words in network byte order.
  pub addr : List ℕ

-- Eight 16-bit words.
abbrev pub IsAddressV6 : AddressV6 → Type 0
IsAddressV6 a = (length a.addr ≡ 8) × All IsWord a.addr

unfoldable pub any : AddressV6
any = record { addr = 0 ∷ 0 ∷ 0 ∷ 0 ∷ 0 ∷ 0 ∷ 0 ∷ 0 ∷ [] }

unfoldable pub loopback : Endian → AddressV6
loopback e = record { addr = hton_words e (0 ∷ 0 ∷ 0 ∷ 0 ∷ 0 ∷ 0 ∷ 0 ∷ 1 ∷ []) }

-- `address_v6::is_ipv4_mapped`
unfoldable pub is_ipv4_mapped : AddressV6 → Bool
is_ipv4_mapped a =
    get_or a.addr 0 0 == 0
    && get_or a.addr 1 0 == 0
    && get_or a.addr 2 0 == 0
    && get_or a.addr 3 0 == 0
    && get_or a.addr 4 0 == 0
    && get_or a.addr 5 0 == 0xffff

-- `address_v6::to_ipv4_mapped`, where `is_ipv4_mapped` holds.
unfoldable pub to_ipv4_mapped : Endian → AddressV6 → AddressV4
to_ipv4_mapped e a = record { addr = from_halves e (get_or a.addr 6 0) (get_or a.addr 7 0) }
