-- ===== src/Ip/SocketV6/Unchecked.antt =====
-- `socket_v6_info::from_string_uncheck` on the texts that `socket_v6_info::from_string` accepts.
use iouxx.Base.{List, some, ◌≡◌, Bytes, Bool-cases, inl, inr, drop, ◌==◌}
use iouxx.Base.Result.{ok, fail_invalid_argument, invalid_argument, require_cases}
use iouxx.Text.Split.{contains, contains_pair, split_pair}
use iouxx.Ip.Bytes.{Endian}
use iouxx.Ip.V4.{front}
use iouxx.Ip.V6.Parse
use iouxx.Ip.V6.Parse.Uncheck.{from_string_uncheck-agrees_v6}
use iouxx.Ip.Port.Laws.{from_string_uncheck-agrees_port}
use iouxx.Ip.Endpoint.{from_parts, from_parts-IsPair}
use iouxx.Ip.SocketV6.{SocketV6, unset, assume_parts, from_string, from_string_uncheck}

parts_agree :
    (e : Endian) (parts : List Bytes) (s : SocketV6)
    → from_parts e (Parse.from_string e) parts unset ≡ ok s
    → assume_parts e parts unset ≡ some s
unfolding assume_parts
parts_agree e parts s h =
    let pair = from_parts-IsPair e (Parse.from_string e) parts unset s h in
    rw (
      pair.two,
      from_string_uncheck-agrees_v6 e pair.sub s.addr pair.address,
      from_string_uncheck-agrees_port e pair.more s.p pair.port,
    )

-- On every text that socket_v6_info::from_string reads as a socket, no assumption of
-- socket_v6_info::from_string_uncheck fails and it reads the same socket.
pub from_string_uncheck-agrees_socket_v6 :
    (e : Endian) (text : Bytes) (s : SocketV6)
    → from_string e text ≡ ok s
    → from_string_uncheck e text ≡ some s
unfolding from_string from_string_uncheck
from_string_uncheck-agrees_socket_v6 e text s h = elim (Bool-cases (contains_pair text b']' b':')) [
  | inl brackets ↦
      let (opened, read) =
        require_cases (front text == b'[') invalid_argument
          (from_parts e (Parse.from_string e) (split_pair b']' b':' (drop 1 text)) unset)
          (rw brackets at h) in
      rw brackets (parts_agree e _ s read)
  | inr plain ↦ elim (Bool-cases (contains text b'/')) [
    | inl slash ↦ rw (plain, slash) (parts_agree e _ s (rw (plain, slash) at h))
    | inr no_slash ↦ elim (Bool-cases (contains text b'#')) [
      | inl hash ↦ rw (plain, no_slash, hash) (parts_agree e _ s (rw (plain, no_slash, hash) at h))
      | inr no_hash ↦
          let refused : fail_invalid_argument ≡ ok s = rw (plain, no_slash, no_hash) at h in cc
    ]
  ]
]
