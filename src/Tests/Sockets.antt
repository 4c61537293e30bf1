-- ===== src/Tests/Sockets.antt =====
-- Runs of the ports and the socket addresses.
use iouxx.Base.{◌≤◌, [], ◌∷◌, some, ◌≡◌, ◌↔◌, ◌⊎◌, inr, refl, arith, codes, Lacks}
use iouxx.Base.Result.{ok}
use iouxx.Text.Number.{from_chars, digit_value}
use iouxx.Text.Split.{contains, contains_pair, split, split_pair}
use iouxx.Ip.Bytes.{little, load_32, hton_16, hton_words}
use iouxx.Ip.V4
use iouxx.Ip.V6.{AddressV6}
use iouxx.Ip.V6.Parse
use iouxx.Ip.V6.Format
use iouxx.Ip.V6.Format.Alphabet.{format-Lacks}
use iouxx.Ip.V6.Spec.{recommended}
use iouxx.Ip.Port.{Port, IsPort}
use iouxx.Ip.Port
use iouxx.Ip.Endpoint.{from_parts}
use iouxx.Ip.SocketV4.{SocketV4}
use iouxx.Ip.SocketV4
use iouxx.Ip.SocketV4.Laws.{IsSocketV4, from_string_iff_socket_v4}
use iouxx.Ip.SocketV6.{SocketV6, SocketSpec}
use iouxx.Ip.SocketV6
use iouxx.Ip.SocketV6.Laws.{IsSocketV6, from_string-format_socket_v6}
use iouxx.Ip.SocketV6.Sound.{IsSocketText, from_string_sound_socket_v6}
use iouxx.Ip.SocketV6.Unchecked.{from_string_uncheck-agrees_socket_v6}

abbrev http : Port
http = record { p = 0x5000 }

http_read : Port.from_string little (codes "80") ≡ ok http
unfolding Port.from_string from_chars hton_16 V4.consumed
http_read = refl

abbrev server : SocketV4
server = record { addr = record { addr = 0x0100007f }; p = http }

server_read : SocketV4.from_string little (codes "127.0.0.1:80") ≡ ok server
unfolding SocketV4.from_string contains split V4.from_string load_32 Port.from_string from_chars
    hton_16 from_parts
server_read = refl

from_string_iff_socket_v4_example :
    (SocketV4.from_string little (codes "127.0.0.1:80") ≡ ok server) ↔ (
      IsSocketV4 server
      × ((codes "127.0.0.1:80" ≡ SocketV4.format little b':' server)
          ⊎ (codes "127.0.0.1:80" ≡ SocketV4.format little b'/' server)))
from_string_iff_socket_v4_example = from_string_iff_socket_v4 little (codes "127.0.0.1:80") server

abbrev local_v6 : AddressV6
local_v6 = record { addr = 0 ∷ 0 ∷ 0 ∷ 0 ∷ 0 ∷ 0 ∷ 0 ∷ 0x100 ∷ [] }

abbrev server_v6 : SocketV6
server_v6 = record { addr = local_v6; p = http }

server_v6_read : SocketV6.from_string little (codes "[::1]:80") ≡ ok server_v6
unfolding SocketV6.from_string contains contains_pair split split_pair Parse.from_string hton_words
    Port.from_string from_chars hton_16 V4.consumed from_parts
server_v6_read = refl

abbrev with_hash : SocketSpec
with_hash = record { seperator = b'#'; addr_formatter = recommended }

from_string-format_socket_v6_example :
    SocketV6.from_string little (SocketV6.format little with_hash server_v6) ≡ ok server_v6
from_string-format_socket_v6_example =
    from_string-format_socket_v6 little with_hash server_v6 (inr (inr refl))
      ((refl, omega arith), omega arith)

from_string_sound_socket_v6_example :
    IsSocketText little (codes "[::1]:80") server_v6
    × IsSocketV6 server_v6
    × (SocketV6.from_string little (SocketV6.to_string little server_v6) ≡ ok server_v6)
from_string_sound_socket_v6_example =
    from_string_sound_socket_v6 little (codes "[::1]:80") server_v6 server_v6_read

from_string_uncheck-agrees_socket_v6_example :
    SocketV6.from_string_uncheck little (codes "[::1]:80") ≡ some server_v6
from_string_uncheck-agrees_socket_v6_example =
    from_string_uncheck-agrees_socket_v6 little (codes "[::1]:80") server_v6 server_v6_read

no_bracket : (16 ≤ digit_value b']')
unfolding digit_value
no_bracket = omega arith

no_bracket_inside : Lacks b']' (Format.format little recommended local_v6)
no_bracket_inside =
    format-Lacks b']' no_bracket (omega arith) (omega arith) little recommended local_v6
