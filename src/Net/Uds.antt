-- ===== src/Net/Uds.antt =====
-- The addresses of Unix domain sockets: `uds_info` of include/iouxx/iouops/network/uds.hpp.
pub mod Laws
use iouxx.Base.{
  ℕ, zero, suc, Bytes, List, [], ◌∷◌, ◌++◌, length, drop, set, replicate, Option, none, some, map,
  leb, if◌then◌else◌,
}

-- `sizeof(::sockaddr_un::sun_path)` and `AF_UNIX`
abbrev pub sun_path_size : ℕ
sun_path_size = 108

abbrev pub af_unix : ℕ
af_unix = 1

-- `::sockaddr_un`, which `uds_info` holds.
pub record UdsInfo : Type 0 where
  pub sun_family : ℕ
  pub sun_path : List ℕ

-- `uds_info()`
abbrev pub no_uds : UdsInfo
no_uds = record { sun_family = af_unix; sun_path = replicate sun_path_size 0 }

-- `uds_info(std::string_view)`, none where it throws.
unfoldable pub uds_info : Bytes → Option UdsInfo
uds_info path =
    if leb sun_path_size (length path)
    then none
    else some (record no_uds {
      sun_path = set (path ++ drop (length path) no_uds.sun_path) (length path) 0;
    })

-- `to_system_sockaddr` and `from_system_sockaddr`, whose assertions are preconditions.
unfoldable pub to_system_sockaddr : UdsInfo → UdsInfo
to_system_sockaddr self = self

unfoldable pub from_system_sockaddr : UdsInfo → UdsInfo
from_system_sockaddr sockaddr = sockaddr

-- The `std::string_view` of a pointer: the bytes to the first that is zero, none where there is no such
-- byte within the array.
abbrev pub prefix : ℕ → Option Bytes → Option Bytes
prefix b none = none
prefix b (some bs) = some (b ∷ bs)

pub string_view : List ℕ → Option Bytes
string_view [] = none
string_view (zero ∷ bs) = some []
string_view (suc b ∷ bs) = prefix (suc b) (string_view bs)

-- `uds_info::path`
unfoldable pub path : UdsInfo → Option Bytes
unfolding string_view
path self = string_view self.sun_path
