-- ===== src/Ring/State.antt =====
-- The members of `ring`.
use iouxx.Base.{
  ℕ, ◌+◌, Bool, true, false, not, List, [], ◌∷◌, Option, none, some, ℤ, negsuc, is_negative,
  replicate, ◌≡◌, length, if◌then◌else◌,
}
use iouxx.Ring.Liburing.{RawRing}

-- `ring::buffer_ring`, without the pointer to the `io_uring` of the ring that holds it.
pub record BufferRing : Type 0 where
  pub buf_ring : Option ℕ
  pub entries : ℕ
  pub bgid : ℤ

abbrev pub no_buffer_ring : BufferRing
no_buffer_ring = record { buf_ring = none; entries = 0; bgid = negsuc 0 }

abbrev pub is_some {ℓ} : {A : Type ℓ} → Option A → Bool
is_some none = false
is_some (some a) = true

-- `buffer_ring::valid`
abbrev pub buffer_ring_valid : BufferRing → Bool
buffer_ring_valid br = is_some br.buf_ring

pub record Ring : Type 0 where
  pub raw_ring : RawRing
  pub probe : Option ℕ
  pub buffer_rings : List BufferRing

abbrev pub buffer_ring_size_max : ℕ
buffer_ring_size_max = 65536

abbrev pub invalid_ring : RawRing
invalid_ring = record { ring_fd = negsuc 0; flags = 0; features = 0 }

abbrev pub empty_buffer_rings : List BufferRing
empty_buffer_rings = replicate buffer_ring_size_max no_buffer_ring

-- `ring()`
abbrev pub no_ring : Ring
no_ring = record { raw_ring = invalid_ring; probe = none; buffer_rings = empty_buffer_rings }

-- `ring::valid`
abbrev pub valid : Ring → Bool
valid r = not (is_negative r.raw_ring.ring_fd)

-- How many of the buffer rings are registered.
abbrev pub registered : List BufferRing → ℕ
registered [] = 0
registered (br ∷ brs) = (if buffer_ring_valid br then 1 else 0) + registered brs

-- A ring that is not valid holds nothing, and one that is valid has a probe.
pub record IsWellFormed (r : Ring) : Type 0 where
  pub size : length r.buffer_rings ≡ buffer_ring_size_max
  pub probed : is_some r.probe ≡ valid r
  pub released : valid r ≡ false → registered r.buffer_rings ≡ 0
