-- ===== src/Futex.antt =====
-- The futex operations of include/iouxx/iouops/futex.hpp: waiting for a word, waking those that wait for
-- it, and waiting for several words.
pub mod Laws
use Prim.Native.Nat.{bit_or}
use iouxx.Base.{ℕ, ◌%◌, ◌^◌, Bool, true, if◌then◌else◌, List, length, ℤ, int_max}
use iouxx.Base.Result.{Expected}
use iouxx.Ops.{received}
use iouxx.Timeout.{CallbackKind, Received, receive}

-- `FUTEX2_PRIVATE`, `FUTEX2_SIZE_U32` and `FUTEX_BITSET_MATCH_ANY`
abbrev pub futex2_private : ℕ
futex2_private = 128

abbrev pub futex2_size_u32 : ℕ
futex2_size_u32 = 2

abbrev pub match_any : ℕ
match_any = 0xffffffff

-- `details::futex_operation_base`, with the address of the word, which is 0 for a null pointer.
pub record FutexBase : Type 0 where
  pub futex_addr : ℕ
  pub mask : ℕ
  pub is_private : Bool

abbrev pub no_futex : FutexBase
no_futex = record { futex_addr = 0; mask = match_any; is_private = true }

-- `futex_word`, `futex_mask` and `private_futex`
unfoldable pub futex_word : ℕ → FutexBase → FutexBase
futex_word word self = record self { futex_addr = word }

unfoldable pub futex_mask : ℕ → FutexBase → FutexBase
futex_mask new self = record self { mask = new }

unfoldable pub private_futex : Bool → FutexBase → FutexBase
private_futex flag self = record self { is_private = flag }

-- `details::build_futex2_flags`
unfoldable pub build_futex2_flags : Bool → ℕ
build_futex2_flags is_private = bit_or (if is_private then futex2_private else 0) futex2_size_u32

-- `futex_wait_operation` and `futex_wake_operation`
pub record FutexWait : Type 0 where
  pub base : FutexBase
  pub last_value : ℕ

pub record FutexWake : Type 0 where
  pub base : FutexBase
  pub wakeups : ℕ

abbrev pub no_wait : FutexWait
no_wait = record { base = no_futex; last_value = 0 }

abbrev pub no_wake : FutexWake
no_wake = record { base = no_futex; wakeups = 1 }

-- `expected_value`, `notify` and `notify_all`
unfoldable pub expected_value : ℕ → FutexWait → FutexWait
expected_value value self = record self { last_value = value }

unfoldable pub notify : ℕ → FutexWake → FutexWake
notify n self = record self { wakeups = n }

unfoldable pub notify_all : FutexWake → FutexWake
notify_all self = record self { wakeups = int_max }

-- `::futex_waitv`, whose other members are zero, and `make_futex_waitv`.
pub record Waiter : Type 0 where
  pub val : ℕ
  pub uaddr : ℕ
  pub flags : ℕ

unfoldable pub make_futex_waitv : ℕ → ℕ → Bool → Waiter
unfolding build_futex2_flags
make_futex_waitv addr expected is_private = record {
  val = expected;
  uaddr = addr;
  flags = build_futex2_flags is_private;
}

-- The functions of liburing with their arguments.
pub data Call : Type 0 where
  io_uring_prep_futex_wait io_uring_prep_futex_wake : (futex val mask futex_flags flags : ℕ) → Call
  io_uring_prep_futex_waitv : (futexes : List Waiter) (nr_futex flags : ℕ) → Call

-- `build` of the operations.
unfoldable pub wait_build : FutexWait → Call
unfolding build_futex2_flags
wait_build self =
    io_uring_prep_futex_wait self.base.futex_addr self.last_value self.base.mask
      (build_futex2_flags self.base.is_private) 0

unfoldable pub wake_build : FutexWake → Call
unfolding build_futex2_flags
wake_build self =
    io_uring_prep_futex_wake self.base.futex_addr self.wakeups self.base.mask
      (build_futex2_flags self.base.is_private) 0

unfoldable pub waitv_build : List Waiter → Call
waitv_build waitv_args = io_uring_prep_futex_waitv waitv_args (length waitv_args % 2 ^ 32) 0

-- `futex_waitv_operation::waitv`
unfoldable pub waitv : List Waiter → List Waiter → List Waiter
waitv args waitv_args = args

-- `do_callback` of the operations.
unfoldable pub wait_do_callback : CallbackKind → ℤ → Received
wait_do_callback kind ev = receive kind ev

unfoldable pub wake_do_callback : ℤ → Expected ℕ
wake_do_callback ev = received (λ n. n) ev

unfoldable pub waitv_do_callback : ℤ → Expected ℕ
waitv_do_callback ev = received (λ n. n) ev
