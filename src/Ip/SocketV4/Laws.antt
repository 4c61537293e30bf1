-- ===== src/Ip/SocketV4/Laws.antt =====
-- What `socket_v4_info::from_string` accepts: an address and a port, with ':' or '/' between them.
use iouxx.Base.{
  ℕ, ◌≤◌, [], ◌∷◌, ◌++◌, ◌≡◌, ◌≢◌, ◌↔◌, ◌⊎◌, inl, inr, sym, ap, ap₂, ◌∙◌, arith, ◌==◌, Bytes,
  All-append, Lacks, Bool-cases,
}
use iouxx.Base.Result.{ok, fail_invalid_argument}
use iouxx.Text.Number.{digit_value}
use iouxx.Text.Split.{contains, split}
use iouxx.Text.Split.Laws.{split-joined, joined-split, contains-Lacks, contains-append_cons}
use iouxx.Ip.Bytes.{Endian}
use iouxx.Ip.V4.{AddressV4, IsAddressV4}
use iouxx.Ip.V4
use iouxx.Ip.V4.RoundTrip.{from_string-to_string, to_string-Lacks, to_string-ne-nil}
use iouxx.Ip.V4.Sound.{from_string_iff}
use iouxx.Ip.Port.{IsPort}
use iouxx.Ip.Port
use iouxx.Ip.Port.Laws.{port-Lacks, from_string-to_string_port, from_string_iff_port}
use iouxx.Ip.Endpoint.{from_parts, from_parts_two, from_parts-IsPair}
use iouxx.Ip.SocketV4.{SocketV4, unset, from_string, format}

abbrev pub IsSocketV4 : SocketV4 → Type 0
IsSocketV4 s = IsAddressV4 s.addr × IsPort s.p

pub colon : 10 ≤ digit_value b':'
unfolding digit_value
colon = omega arith

pub slash : 10 ≤ digit_value b'/'
unfolding digit_value
slash = omega arith

module _ (e : Endian) (s : SocketV4) (h : IsSocketV4 s) (sep : ℕ) (no_digit : 10 ≤ digit_value sep)
    (ne : b'.' ≢ sep) where
  abbrev pub text : Bytes
  text = V4.to_string e s.addr ++ sep ∷ Port.to_string e s.p

  pub split_text : split sep text ≡ V4.to_string e s.addr ∷ Port.to_string e s.p ∷ []
  split_text =
      split-joined sep (V4.to_string e s.addr) (Port.to_string e s.p ∷ [])
        (to_string-ne-nil e s.addr) (to_string-Lacks e s.addr sep no_digit ne)
        (port-Lacks e s.p sep no_digit, tt)

  read_pair : from_parts e (V4.from_string e) (split sep text) unset ≡ ok s
  read_pair = rw split_text (
      from_parts_two e (V4.from_string e) _ _ unset s.addr s.p (from_string-to_string e s.addr h.0)
        (from_string-to_string_port e s.p h.1))

-- Both forms are read back.
pub from_string-format_socket_v4 :
    (e : Endian) (seperator : ℕ) (s : SocketV4)
    → IsSocketV4 s
    → from_string e (format e seperator s) ≡ ok s
unfolding format from_string
from_string-format_socket_v4 e seperator s h = elim (Bool-cases (seperator == b':')) [
  | inl is_colon ↦
      rw (is_colon, contains-append_cons b':' (V4.to_string e s.addr) (Port.to_string e s.p))
        (read_pair e s h b':' colon (omega arith))
  | inr is_slash ↦
      let no_colon : Lacks b':' (V4.to_string e s.addr ++ b'/' ∷ Port.to_string e s.p) =
        All-append _ (V4.to_string e s.addr) _ (to_string-Lacks e s.addr b':' colon (omega arith))
          (omega arith, port-Lacks e s.p b':' colon) in
      rw
        (
          is_slash,
          contains-Lacks b':' _ no_colon,
          contains-append_cons b'/' (V4.to_string e s.addr) (Port.to_string e s.p),
        )
        (read_pair e s h b'/' slash (omega arith))
]

named :
    (e : Endian) (sep : ℕ) (text : Bytes) (s : SocketV4)
    → from_parts e (V4.from_string e) (split sep text) unset ≡ ok s
    → IsSocketV4 s × (text ≡ V4.to_string e s.addr ++ sep ∷ Port.to_string e s.p)
named e sep text s h =
    let pair = from_parts-IsPair e (V4.from_string e) (split sep text) unset s h in
    let (fits, same) = (from_string_iff e pair.sub s.addr).0 pair.address in
    let (port_fits, port_same) = (from_string_iff_port e pair.more s.p).0 pair.port in
    (
      (fits, port_fits),
      sym (joined-split sep text pair.sub (pair.more ∷ []) pair.two)
          ∙ ap₂ (λ l r. l ++ sep ∷ r) same port_same,
    )

from_string_sound :
    (e : Endian) (text : Bytes) (s : SocketV4)
    → from_string e text ≡ ok s
    → IsSocketV4 s × ((text ≡ format e b':' s) ⊎ (text ≡ format e b'/' s))
unfolding from_string format
from_string_sound e text s h = elim (Bool-cases (contains text b':')) [
  | inl with_colon ↦ let (fits, same) = named e b':' text s (rw with_colon at h) in (fits, inl same)
  | inr without ↦ elim (Bool-cases (contains text b'/')) [
    | inl with_slash ↦
        let (fits, same) = named e b'/' text s (rw (without, with_slash) at h) in (fits, inr same)
    | inr neither ↦ let impossible : fail_invalid_argument ≡ ok s = rw (without, neither) at h in cc
  ]
]

-- socket_v4_info::from_string reads a text as a socket exactly if the address is a 32-bit and the
-- port a 16-bit number and the text is what the formatter prints for them with ":" or with "/".
pub from_string_iff_socket_v4 :
    (e : Endian) (text : Bytes) (s : SocketV4)
    → (from_string e text ≡ ok s)
      ↔ (IsSocketV4 s × ((text ≡ format e b':' s) ⊎ (text ≡ format e b'/' s)))
from_string_iff_socket_v4 e text s = (
  λ h. from_string_sound e text s h,
  λ (h, same). elim same [
    | inl colon_text ↦ ap (from_string e) colon_text ∙ from_string-format_socket_v4 e b':' s h
    | inr slash_text ↦ ap (from_string e) slash_text ∙ from_string-format_socket_v4 e b'/' s h
  ],
)
