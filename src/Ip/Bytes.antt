-- ===== src/Ip/Bytes.antt =====
-- The byte orders of include/iouxx/iouops/network/ip.hpp: `std::bit_cast` between integers and arrays
-- of bytes or of 16-bit words, and the `hton` family. Both orders of the machine are covered.
use iouxx.Base.{
  ℕ, zero, suc, ◌+◌, ◌*◌, ◌/◌, ◌%◌, ◌^◌, ◌<◌, List, [], ◌∷◌, map, ◌≡◌, refl, ap₂, arith, get_or,
  All, length, length-map,
}

-- `std::endian::native`
pub data Endian : Type 0 where
  little big : Endian

-- The 16-bit integer whose bytes in memory are `a` and `b`.
unfoldable pub load_16 : Endian → ℕ → ℕ → ℕ
load_16 little a b = a + 256 * b
load_16 big a b = 256 * a + b

-- `std::bit_cast<std::uint32_t>` of an array of four bytes.
unfoldable pub load_32 : Endian → List ℕ → ℕ
load_32 little s =
    get_or s 0 0 + 256 * get_or s 1 0 + 65536 * get_or s 2 0 + 16777216 * get_or s 3 0
load_32 big s = 16777216 * get_or s 0 0 + 65536 * get_or s 1 0 + 256 * get_or s 2 0 + get_or s 3 0

-- `std::bit_cast<std::array<std::uint8_t, 4>>` of a 32-bit integer.
unfoldable pub store_32 : Endian → ℕ → List ℕ
store_32 little n = n % 256 ∷ n / 256 % 256 ∷ n / 65536 % 256 ∷ n / 16777216 % 256 ∷ []
store_32 big n = n / 16777216 % 256 ∷ n / 65536 % 256 ∷ n / 256 % 256 ∷ n % 256 ∷ []

-- `std::bit_cast<std::array<std::uint16_t, 2>>` of a 32-bit integer: its bytes, two by two.
unfoldable pub halves : Endian → ℕ → List ℕ
unfolding load_16 store_32
halves e n =
    let s = store_32 e n in
    load_16 e (get_or s 0 0) (get_or s 1 0) ∷ load_16 e (get_or s 2 0) (get_or s 3 0) ∷ []

-- The two bytes in memory of a 16-bit integer.
unfoldable pub store_16 : Endian → ℕ → List ℕ
store_16 little n = n % 256 ∷ n / 256 % 256 ∷ []
store_16 big n = n / 256 % 256 ∷ n % 256 ∷ []

-- `std::bit_cast<std::uint32_t>` of an array of two 16-bit integers.
unfoldable pub from_halves : Endian → ℕ → ℕ → ℕ
unfolding load_32 store_16
from_halves e a b =
    let s = store_16 e a in
    let t = store_16 e b in
    load_32 e (get_or s 0 0 ∷ get_or s 1 0 ∷ get_or t 0 0 ∷ get_or t 1 0 ∷ [])

pub byteswap_16 : ℕ → ℕ
byteswap_16 n = 256 * (n % 256) + n / 256 % 256

pub byteswap_32 : ℕ → ℕ
byteswap_32 n =
    16777216 * (n % 256) + 65536 * (n / 256 % 256) + 256 * (n / 65536 % 256) + n / 16777216 % 256

unfoldable pub hton_16 : Endian → ℕ → ℕ
unfolding byteswap_16
hton_16 little host = byteswap_16 host
hton_16 big host = host

-- `hton(v4raw)` and `hton_inplace(v4raw&)`
unfoldable pub hton : Endian → ℕ → ℕ
unfolding byteswap_32
hton little host = byteswap_32 host
hton big host = host

-- `hton(const v6raw&)` and `hton_inplace(v6raw&)`: the loop over the words of the array.
unfoldable pub hton_words : Endian → List ℕ → List ℕ
unfolding byteswap_16
hton_words little host = map byteswap_16 host
hton_words big host = host

abbrev pub IsByte : ℕ → Type 0
IsByte n = n < 256

abbrev pub IsWord : ℕ → Type 0
IsWord n = n < 65536

-- Twice the byte order is the number again.
pub hton_16-hton_16 : (e : Endian) (n : ℕ) → IsWord n → hton_16 e (hton_16 e n) ≡ n
unfolding hton_16
hton_16-hton_16 little n h = omega arith
hton_16-hton_16 big n h = refl

pub hton_16-IsWord : (e : Endian) (n : ℕ) → IsWord n → IsWord (hton_16 e n)
unfolding hton_16
hton_16-IsWord little n h = omega arith
hton_16-IsWord big n h = h

pub hton-hton : (e : Endian) (n : ℕ) → n < 2 ^ 32 → hton e (hton e n) ≡ n
unfolding hton
hton-hton little n h = omega arith
hton-hton big n h = refl

pub hton_words-hton_words :
    (e : Endian) (ws : List ℕ) → All IsWord ws → hton_words e (hton_words e ws) ≡ ws
unfolding hton_words
hton_words-hton_words little [] _ = refl
hton_words-hton_words little (w ∷ ws) (h, hs) =
    ap₂ ◌∷◌ (omega arith) (hton_words-hton_words little ws hs)
hton_words-hton_words big ws _ = refl

pub hton_words-IsWord : (e : Endian) (ws : List ℕ) → All IsWord ws → All IsWord (hton_words e ws)
unfolding hton_words
hton_words-IsWord little [] _ = tt
hton_words-IsWord little (w ∷ ws) (h, hs) = (omega arith, hton_words-IsWord little ws hs)
hton_words-IsWord big ws h = h

pub load_32-store_32 : (e : Endian) (n : ℕ) → n < 2 ^ 32 → load_32 e (store_32 e n) ≡ n
unfolding load_32 store_32
load_32-store_32 little n h = omega arith
load_32-store_32 big n h = omega arith

pub store_32-load_32 :
    (e : Endian) (a b c d : ℕ)
    → All IsByte (a ∷ b ∷ c ∷ d ∷ [])
    → store_32 e (load_32 e (a ∷ b ∷ c ∷ d ∷ [])) ≡ a ∷ b ∷ c ∷ d ∷ []
unfolding load_32 store_32
store_32-load_32 little a b c d h = ground arith
store_32-load_32 big a b c d h = ground arith

pub load_32-lt :
    (e : Endian) (a b c d : ℕ)
    → All IsByte (a ∷ b ∷ c ∷ d ∷ [])
    → load_32 e (a ∷ b ∷ c ∷ d ∷ []) < 2 ^ 32
unfolding load_32
load_32-lt little a b c d h = omega arith
load_32-lt big a b c d h = omega arith

pub store_32-IsByte : (e : Endian) (n : ℕ) → All IsByte (store_32 e n)
unfolding store_32
store_32-IsByte little n = omega arith
store_32-IsByte big n = omega arith

-- A 32-bit integer is the four bytes that it holds.
pub store_32_parts :
    (e : Endian) (n : ℕ)
    → (a : ℕ) × (b : ℕ) × (c : ℕ) × (d : ℕ) × (store_32 e n ≡ a ∷ b ∷ c ∷ d ∷ [])
unfolding store_32
store_32_parts little n = (n % 256, n / 256 % 256, n / 65536 % 256, n / 16777216 % 256, refl)
store_32_parts big n = (n / 16777216 % 256, n / 65536 % 256, n / 256 % 256, n % 256, refl)

-- The bytes of an IPv4 address, two by two and in the order of the machine, are words that put the
-- first byte above the second.
pub hton_16-halves :
    (e : Endian) (a b c d : ℕ)
    → All IsByte (a ∷ b ∷ c ∷ d ∷ [])
    → (hton_16 e (get_or (halves e (load_32 e (a ∷ b ∷ c ∷ d ∷ []))) 0 0) ≡ 256 * a + b)
      × (hton_16 e (get_or (halves e (load_32 e (a ∷ b ∷ c ∷ d ∷ []))) 1 0) ≡ 256 * c + d)
unfolding hton_16 halves load_32
hton_16-halves little a b c d h = omega arith
hton_16-halves big a b c d h = omega arith

-- Two words in network byte order are the four bytes of the words in the order of the machine.
pub from_halves-hton_16 :
    (e : Endian) (v w : ℕ)
    → IsWord v
    → IsWord w
    → from_halves e (hton_16 e v) (hton_16 e w)
      ≡ load_32 e (v / 256 ∷ v % 256 ∷ w / 256 ∷ w % 256 ∷ [])
unfolding hton_16 from_halves
from_halves-hton_16 little v w hv hw = omega arith
from_halves-hton_16 big v w hv hw = omega arith

pub hton_words-get_or :
    (e : Endian) (ws : List ℕ) (i : ℕ)
    → i < length ws
    → get_or (hton_words e ws) i 0 ≡ hton_16 e (get_or ws i 0)
unfolding hton_words hton_16
hton_words-get_or e [] i h = elim h [ ]
hton_words-get_or little (w ∷ ws) zero h = refl
hton_words-get_or little (w ∷ ws) (suc i) h = hton_words-get_or little ws i (omega arith)
hton_words-get_or big (w ∷ ws) i h = refl

pub length-hton_words : (e : Endian) (ws : List ℕ) → length (hton_words e ws) ≡ length ws
unfolding hton_words
length-hton_words little ws = length-map ws byteswap_16
length-hton_words big ws = refl
