-- ===== src/Ip/SocketV6/Laws.antt =====
-- `socket_v6_info::from_string` reads back each form that the formatter prints.
use iouxx.Base.{
  ℕ, ◌≤◌, [], ◌∷◌, ◌++◌, ◌≡◌, ◌≢◌, ◌⊎◌, inl, inr, refl, sym, ap, ◌∙◌, arith, Bytes, All-append,
  Lacks,
}
use iouxx.Base.Result.{ok}
use iouxx.Text.Number.{digit_value}
use iouxx.Text.Split.{split}
use iouxx.Text.Split.Laws.{
  split-joined, contains-Lacks, contains-append_cons, contains_pair-Lacks,
  contains_pair-append_cons,
}
use iouxx.Text.Split.Pairs.{IsSeamless-of_Lacks, split_pair-two}
use iouxx.Ip.Bytes.{Endian}
use iouxx.Ip.V6.{AddressV6, IsAddressV6}
use iouxx.Ip.V6.Parse
use iouxx.Ip.V6.Format
use iouxx.Ip.V6.Format.Alphabet.{format-Lacks}
use iouxx.Ip.V6.RoundTrip.{from_string-format_v6}
use iouxx.Ip.Port.{IsPort}
use iouxx.Ip.Port
use iouxx.Ip.Port.Laws.{port-Lacks, from_string-to_string_port}
use iouxx.Ip.Endpoint.{from_parts, from_parts_two}
use iouxx.Ip.SocketV6.{SocketV6, SocketSpec, unset, from_string, format, to_string, bracketed}

abbrev pub IsSocketV6 : SocketV6 → Type 0
IsSocketV6 s = IsAddressV6 s.addr × IsPort s.p

-- The three separators that the formatter's specification can ask for.
abbrev pub IsSeperator : ℕ → Type 0
IsSeperator c = (c ≡ 0) ⊎ ((c ≡ b'/') ⊎ (c ≡ b'#'))

format-ne-nil :
    (e : Endian) (f : SocketSpec) (a : AddressV6)
    → IsAddressV6 a
    → Format.format e f.addr_formatter a ≢ []
format-ne-nil e f a h none_of_it =
    let read : Parse.from_string e [] ≡ ok a =
      ap (Parse.from_string e) (sym none_of_it) ∙ from_string-format_v6 e f.addr_formatter a h in
    unfold Parse.from_string in cc

bracket : 16 ≤ digit_value b']'
unfolding digit_value
bracket = omega arith

slash : 16 ≤ digit_value b'/'
unfolding digit_value
slash = omega arith

hash : 16 ≤ digit_value b'#'
unfolding digit_value
hash = omega arith

module _ (e : Endian) (f : SocketSpec) (s : SocketV6) (h : IsSocketV6 s) where
  abbrev left : Bytes
  left = Format.format e f.addr_formatter s.addr

  abbrev right : Bytes
  right = Port.to_string e s.p

  read_two : from_parts e (Parse.from_string e) (left ∷ right ∷ []) unset ≡ ok s
  read_two =
      from_parts_two e (Parse.from_string e) left right unset s.addr s.p
        (from_string-format_v6 e f.addr_formatter s.addr h.0) (from_string-to_string_port e s.p h.1)

  text-Lacks :
      (b c : ℕ) → 16 ≤ digit_value b → b':' ≢ b → b'.' ≢ b → c ≢ b → Lacks b (left ++ c ∷ right)
  text-Lacks b c no_digit no_colon no_dot ne =
      All-append _ left (c ∷ right)
        (format-Lacks b no_digit no_colon no_dot e f.addr_formatter s.addr)
        (ne, port-Lacks e s.p b (omega arith))

  split_plain :
      (c : ℕ)
      → 16 ≤ digit_value c
      → b':' ≢ c
      → b'.' ≢ c
      → split c (left ++ c ∷ right) ≡ left ∷ right ∷ []
  split_plain c no_digit no_colon no_dot =
      split-joined c left (right ∷ []) (format-ne-nil e f s.addr h.0)
        (format-Lacks c no_digit no_colon no_dot e f.addr_formatter s.addr)
        (port-Lacks e s.p c (omega arith), tt)

  bracketed_read : from_string e (b'[' ∷ (left ++ b']' ∷ b':' ∷ right)) ≡ ok s
  unfolding from_string
  bracketed_read =
      rw
        (
          contains_pair-append_cons b']' b':' (b'[' ∷ left) right,
          split_pair-two b']' b':' left right
              (IsSeamless-of_Lacks b']' b':' left
                (format-Lacks b']' bracket (omega arith) (omega arith) e f.addr_formatter s.addr))
              (IsSeamless-of_Lacks b']' b':' right
                (port-Lacks e s.p b']' (omega (arith, bracket)))),
        )
        read_two

  slash_read : from_string e (left ++ b'/' ∷ right) ≡ ok s
  unfolding from_string
  slash_read =
      rw
        (
          contains_pair-Lacks b']' b':' _
              (text-Lacks b']' b'/' bracket (omega arith) (omega arith) (omega arith)),
          contains-append_cons b'/' left right,
          split_plain b'/' slash (omega arith) (omega arith),
        )
        read_two

  hash_read : from_string e (left ++ b'#' ∷ right) ≡ ok s
  unfolding from_string
  hash_read =
      rw
        (
          contains_pair-Lacks b']' b':' _
              (text-Lacks b']' b'#' bracket (omega arith) (omega arith) (omega arith)),
          contains-Lacks b'/' _
              (text-Lacks b'/' b'#' slash (omega arith) (omega arith) (omega arith)),
          contains-append_cons b'#' left right,
          split_plain b'#' hash (omega arith) (omega arith),
        )
        read_two

-- For the separators 0, "/" and "#" and every nested format specification,
-- socket_v6_info::from_string reads what the formatter prints for a socket of eight 16-bit words
-- and a 16-bit port as that socket.
pub from_string-format_socket_v6 :
    (e : Endian) (f : SocketSpec) (s : SocketV6)
    → IsSeperator f.seperator
    → IsSocketV6 s
    → from_string e (format e f s) ≡ ok s
unfolding format
from_string-format_socket_v6 e f s sep h = elim sep [
  | inl nul ↦ rw nul (bracketed_read e f s h)
  | inr (inl is_slash) ↦ rw is_slash (slash_read e f s h)
  | inr (inr is_hash) ↦ rw is_hash (hash_read e f s h)
]

pub from_string-to_string_socket_v6 :
    (e : Endian) (s : SocketV6) → IsSocketV6 s → from_string e (to_string e s) ≡ ok s
unfolding to_string
from_string-to_string_socket_v6 e s h = from_string-format_socket_v6 e bracketed s (inl refl) h
