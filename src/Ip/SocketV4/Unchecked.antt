-- ===== src/Ip/SocketV4/Unchecked.antt =====
-- `socket_v4_info::from_string_uncheck` on the texts that `socket_v4_info::from_string` accepts. It looks
-- for the separators in another order.
use iouxx.Base.{[], ◌∷◌, ◌++◌, some, ◌≡◌, ◌∙◌, ap, arith, Bytes, inl, inr, All-append, Lacks}
use iouxx.Base.Result.{ok}
use iouxx.Text.Split.Laws.{contains-Lacks, contains-append_cons}
use iouxx.Ip.Bytes.{Endian}
use iouxx.Ip.V4
use iouxx.Ip.V4.RoundTrip.{to_string-Lacks}
use iouxx.Ip.V4.Uncheck.{from_string_uncheck-to_string}
use iouxx.Ip.Port
use iouxx.Ip.Port.Laws.{port-Lacks, from_string_uncheck-to_string_port}
use iouxx.Ip.SocketV4.{SocketV4, unset, assume_parts, format, from_string, from_string_uncheck}
use iouxx.Ip.SocketV4.Laws.{IsSocketV4, split_text, slash, colon, from_string_iff_socket_v4}

module _ (e : Endian) (s : SocketV4) (h : IsSocketV4 s) where
  pair_read : assume_parts e (V4.to_string e s.addr ∷ Port.to_string e s.p ∷ []) unset ≡ some s
  unfolding assume_parts
  pair_read =
      rw (from_string_uncheck-to_string e s.addr h.0, from_string_uncheck-to_string_port e s.p h.1)

  colon_read : from_string_uncheck e (format e b':' s) ≡ some s
  unfolding from_string_uncheck format
  colon_read =
      let no_slash : Lacks b'/' (V4.to_string e s.addr ++ b':' ∷ Port.to_string e s.p) =
        All-append _ (V4.to_string e s.addr) _ (to_string-Lacks e s.addr b'/' slash (omega arith))
          (omega arith, port-Lacks e s.p b'/' slash) in
      rw (contains-Lacks b'/' _ no_slash, split_text e s h b':' colon (omega arith)) pair_read

  slash_read : from_string_uncheck e (format e b'/' s) ≡ some s
  unfolding from_string_uncheck format
  slash_read =
      rw
        (
          contains-append_cons b'/' (V4.to_string e s.addr) (Port.to_string e s.p),
          split_text e s h b'/' slash (omega arith),
        )
        pair_read

-- On every text that socket_v4_info::from_string reads as a socket, no assumption of
-- socket_v4_info::from_string_uncheck fails and it reads the same socket.
pub from_string_uncheck-agrees_socket_v4 :
    (e : Endian) (text : Bytes) (s : SocketV4)
    → from_string e text ≡ ok s
    → from_string_uncheck e text ≡ some s
from_string_uncheck-agrees_socket_v4 e text s h =
    let (fits, same) = (from_string_iff_socket_v4 e text s).0 h in
    elim same [
      | inl colon_text ↦ ap (from_string_uncheck e) colon_text ∙ colon_read e s fits
      | inr slash_text ↦ ap (from_string_uncheck e) slash_text ∙ slash_read e s fits
    ]
