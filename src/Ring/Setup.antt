-- ===== src/Ring/Setup.antt =====
-- `ring_option` of include/iouxx/iouringxx.hpp. A word of flags is a number; the flags with a method of
-- their own are single bits.
pub mod Laws
use Prim.Native.Nat.{bit_or}
use iouxx.Base.{
  ℕ, zero, suc, ◌+◌, ◌/◌, ◌%◌, ◌^◌, ◌-◌, Bool, true, false, ltb, ◌==◌, if◌then◌else◌, ℤ, pos,
  negsuc,
}
use iouxx.Ring.Liburing.{Params}

abbrev pub has_bit : ℕ → ℕ → Bool
has_bit w n = n / w % 2 == 1

-- `n | w` and `n & ~w`, where `w` is a power of two.
abbrev pub with_bit : ℕ → ℕ → ℕ
with_bit w n = if has_bit w n then n else n + w

abbrev pub without_bit : ℕ → ℕ → ℕ
without_bit w n = if has_bit w n then n - w else n

-- `IORING_SETUP_SQPOLL`, `IORING_SETUP_SQ_AFF`, `IORING_SETUP_CQSIZE`, `IORING_SETUP_ATTACH_WQ`
abbrev pub setup_sqpoll_flag : ℕ
setup_sqpoll_flag = 2

abbrev pub setup_sq_aff : ℕ
setup_sq_aff = 4

abbrev pub setup_cqsize_flag : ℕ
setup_cqsize_flag = 8

abbrev pub setup_attach_wq : ℕ
setup_attach_wq = 32

abbrev pub uint32_max : ℕ
uint32_max = 4294967295

-- The conversion of a wider signed integer to `std::uint32_t`.
abbrev pub to_uint32 : ℤ → ℕ
to_uint32 (pos n) = n % 2 ^ 32
to_uint32 (negsuc n) = uint32_max - n % 2 ^ 32

pub record RingOption : Type 0 where
  pub ring_flags : ℕ
  pub wq_fd : ℕ
  pub cq_entries : ℕ
  pub sq_thread_cpu : ℕ
  pub sq_thread_idle : ℕ

abbrev pub default_option : RingOption
default_option = record {
  ring_flags = 0;
  wq_fd = 0;
  cq_entries = 0;
  sq_thread_cpu = 0;
  sq_thread_idle = 0;
}

-- `ring_option::flags`
unfoldable pub flags : ℕ → RingOption → RingOption
flags f o = record o { ring_flags = bit_or o.ring_flags f }

-- `ring_option::setup_sqpoll`
unfoldable pub setup_sqpoll : ℕ → ℤ → RingOption → RingOption
setup_sqpoll thread_cpu idle o =
    let polling = with_bit setup_sqpoll_flag o.ring_flags in
    if ltb thread_cpu uint32_max
    then record o {
      ring_flags = with_bit setup_sq_aff polling;
      sq_thread_cpu = thread_cpu;
      sq_thread_idle = to_uint32 idle;
    }
    else record o { ring_flags = without_bit setup_sq_aff polling; sq_thread_idle = to_uint32 idle }

-- `ring_option::setup_cqsize`
unfoldable pub setup_cqsize : ℕ → RingOption → RingOption
setup_cqsize cq_size o = record o {
  ring_flags = with_bit setup_cqsize_flag o.ring_flags;
  cq_entries = cq_size;
}

-- `ring_option::setup_attach`, with the native handle of the other ring.
unfoldable pub setup_attach : ℤ → RingOption → RingOption
setup_attach native_handle o = record o {
  ring_flags = with_bit setup_attach_wq o.ring_flags;
  wq_fd = to_uint32 native_handle;
}

-- `ring_option::to_params`
unfoldable pub to_params : RingOption → Params
to_params o = record {
  flags = o.ring_flags;
  wq_fd = o.wq_fd;
  cq_entries = o.cq_entries;
  sq_thread_cpu = o.sq_thread_cpu;
  sq_thread_idle = o.sq_thread_idle;
}
