-- ===== src/Ip/SocketV6/Sound.antt =====
-- What `socket_v6_info::from_string` accepts.
use iouxx.Base.{ℕ, [], ◌∷◌, ◌++◌, ◌==◌, ◌≡◌, inl, inr, sym, ap, ◌∙◌, arith, Bytes, drop, Bool-cases}
use iouxx.Base.Result.{ok, invalid_argument, require_cases}
use iouxx.Text.Split.{contains, contains_pair, split, split_pair}
use iouxx.Text.Split.Laws.{joined-split}
use iouxx.Text.Split.Whole.{paired, paired-split_pair}
use iouxx.Ip.Bytes.{Endian}
use iouxx.Ip.V4.{front}
use iouxx.Ip.V6.Parse
use iouxx.Ip.V6.Parse.Sound.{from_string-IsAddressV6}
use iouxx.Ip.Port.{IsPort}
use iouxx.Ip.Port
use iouxx.Ip.Port.Laws.{from_string_iff_port}
use iouxx.Ip.Endpoint.{from_parts, from_parts-IsPair}
use iouxx.Ip.SocketV6.{SocketV6, unset, from_string, to_string}
use iouxx.Ip.SocketV6.Laws.{IsSocketV6, from_string-to_string_socket_v6}

-- The texts of a socket: the address in brackets or a separator behind it, and the port.
pub data IsText (sub more : Bytes) (text : Bytes) : Type 0 where
  in_brackets : text ≡ b'[' ∷ (sub ++ b']' ∷ b':' ∷ more) → IsText sub more text
  behind_slash : text ≡ sub ++ b'/' ∷ more → IsText sub more text
  behind_hash : text ≡ sub ++ b'#' ∷ more → IsText sub more text

pub record IsSocketText (e : Endian) (text : Bytes) (s : SocketV6) : Type 0 where
  pub address_text : Bytes
  pub port_text : Bytes
  pub whole : IsText address_text port_text text
  pub address : Parse.from_string e address_text ≡ ok s.addr
  pub port : Port.from_string e port_text ≡ ok s.p

module _ (e : Endian) where
  bracketed-IsSocketText :
      (text : Bytes) (s : SocketV6)
      → front text ≡ b'['
      → from_parts e (Parse.from_string e) (split_pair b']' b':' (drop 1 text)) unset ≡ ok s
      → IsSocketText e text s
  bracketed-IsSocketText [] s opened h = absurd (omega arith)
  bracketed-IsSocketText (c ∷ text) s opened h =
      let pair = from_parts-IsPair e (Parse.from_string e) (split_pair b']' b':' text) unset s h in
      record {
        address_text = pair.sub;
        port_text = pair.more;
        whole = in_brackets (
            ap (λ x. x ∷ text) opened
            ∙ ap (◌∷◌ b'[')
                (sym (paired-split_pair b']' b':' text) ∙ ap (paired b']' b':') pair.two));
        address = pair.address;
        port = pair.port;
      }

  separated-IsPair :
      (sep : ℕ) (text : Bytes) (s : SocketV6)
      → from_parts e (Parse.from_string e) (split sep text) unset ≡ ok s
      → (sub : Bytes) × (more : Bytes) × (text ≡ sub ++ sep ∷ more)
        × (Parse.from_string e sub ≡ ok s.addr)
        × (Port.from_string e more ≡ ok s.p)
  separated-IsPair sep text s h =
      let pair = from_parts-IsPair e (Parse.from_string e) (split sep text) unset s h in
      (
        pair.sub,
        pair.more,
        sym (joined-split sep text pair.sub (pair.more ∷ []) pair.two),
        pair.address,
        pair.port,
      )

  from_string-IsSocketText :
      (text : Bytes) (s : SocketV6) → from_string e text ≡ ok s → IsSocketText e text s
  unfolding from_string
  from_string-IsSocketText text s h = elim (Bool-cases (contains_pair text b']' b':')) [
    | inl pair ↦
        let (opened, h₁) = require_cases (front text == b'[') invalid_argument _ (rw pair at h) in
        bracketed-IsSocketText text s (ground arith) h₁
    | inr no_pair ↦ elim (Bool-cases (contains text b'/')) [
      | inl slash ↦
          let (sub, more, whole, address, port) =
            separated-IsPair b'/' text s (rw (no_pair, slash) at h) in
          record {
            address_text = sub;
            port_text = more;
            whole = behind_slash whole;
            address = address;
            port = port;
          }
      | inr no_slash ↦ elim (Bool-cases (contains text b'#')) [
        | inl hash ↦
            let (sub, more, whole, address, port) =
              separated-IsPair b'#' text s (rw (no_pair, no_slash, hash) at h) in
            record {
              address_text = sub;
              port_text = more;
              whole = behind_hash whole;
              address = address;
              port = port;
            }
        | inr no_hash ↦ absurd (cc (rw (no_pair, no_slash, no_hash) at h))
      ]
    ]
  ]

  -- Whatever text socket_v6_info::from_string reads as a socket is an address text in brackets with
  -- ":" behind them, or an address text with "/" or "#" behind it, and then a port text, which
  -- address_v6::from_string and port::from_string read as the members of the socket; the socket has
  -- eight 16-bit words and a 16-bit port, and what socket_v6_info::to_string prints for it is read
  -- as it again.
  pub from_string_sound_socket_v6 :
      (text : Bytes) (s : SocketV6)
      → from_string e text ≡ ok s
      → IsSocketText e text s × IsSocketV6 s × (from_string e (to_string e s) ≡ ok s)
  from_string_sound_socket_v6 text s h =
      let read = from_string-IsSocketText text s h in
      let fits : IsSocketV6 s = (
        from_string-IsAddressV6 e read.address_text s.addr read.address,
        ((from_string_iff_port e read.port_text s.p).0 read.port).0,
      ) in
      (read, fits, from_string-to_string_socket_v6 e s fits)
