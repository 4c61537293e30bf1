-- ===== src/Noop.antt =====
-- `noop_operation` of include/iouxx/iouops/noop.hpp: the pseudo result, what the operation hands to
-- liburing, and what its callback receives.
pub mod Laws
use iouxx.Base.{ℕ, ◌+◌, ◌-◌, ◌%◌, ◌^◌, ltb, if◌then◌else◌, ℤ, pos, negsuc}
use iouxx.Base.Result.{ErrorCode, is_nonzero}
use iouxx.Ring.Setup.{with_bit, to_uint32}
use iouxx.Timeout.{CallbackKind, Received, receive}

-- The conversion of a `std::uint32_t` to `int`.
abbrev pub to_int32 : ℕ → ℤ
to_int32 n = if ltb n (2 ^ 31) then pos n else negsuc (2 ^ 32 - 1 - n)

-- `noop_operation`
pub record Noop : Type 0 where
  pub result_code : ℤ

-- `pseudo_result` with a number, a `std::uint32_t`.
unfoldable pub pseudo_result : ℕ → Noop → Noop
pseudo_result res self = record { result_code = to_int32 ((2 ^ 32 - res) % 2 ^ 32) }

-- `pseudo_result` with an error code.
unfoldable pub pseudo_result_of : ErrorCode → Noop → Noop
unfolding pseudo_result
pseudo_result_of ec self = pseudo_result (to_uint32 ec.value) self

-- `IORING_NOP_INJECT_RESULT`
abbrev pub nop_inject_result : ℕ
nop_inject_result = 1

-- The members of the entry that `build` sets behind `io_uring_prep_nop`, which clears both.
pub record NopSqe : Type 0 where
  pub nop_flags : ℕ
  pub len : ℕ

abbrev prep_nop : NopSqe
prep_nop = record { nop_flags = 0; len = 0 }

-- `noop_operation::build`
unfoldable pub build : Noop → NopSqe
build self =
    if is_nonzero self.result_code
    then record {
      nop_flags = with_bit nop_inject_result prep_nop.nop_flags;
      len = to_uint32 self.result_code;
    }
    else prep_nop

-- `noop_operation::do_callback`
unfoldable pub do_callback : CallbackKind → ℤ → Received
do_callback kind ev = receive kind ev

-- The operation without a callback: `build`.
unfoldable pub pure_build : NopSqe
pure_build = prep_nop
