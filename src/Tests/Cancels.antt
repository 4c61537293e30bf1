-- ===== src/Tests/Cancels.antt =====
-- Runs of the cancel and no-op operations.
use iouxx.Base.{◌%◌, ◌==◌, if◌then◌else◌, ℤ, pos, negsuc, ◌≡◌, refl, arith}
use iouxx.Base.Result.{make_system_error_code, is_nonzero}
use iouxx.Timeout.{stdexpected_callback, errorcode_callback, success, failed, code}
use iouxx.Noop.{to_int32, NopSqe, Noop, pseudo_result, build, do_callback}
use iouxx.Noop.Laws.{IsNop, do_callback-pseudo_result}
use iouxx.Cancel.{initial_base, CancelFdOperation}

abbrev nop : NopSqe → ℤ
nop sqe = if sqe.nop_flags % 2 == 1 then to_int32 sqe.len else pos 0

nop-IsNop : IsNop nop
nop-IsNop = record { plain = λ sqe h. rw h refl; injected = λ sqe h. rw h refl }

abbrev idle : Noop
idle = record { result_code = pos 0 }

do_callback-pseudo_result_example :
    (do_callback errorcode_callback (nop (build (pseudo_result 5 idle)))
      ≡ code (make_system_error_code (pos 5)))
    × (do_callback stdexpected_callback (nop (build (pseudo_result 5 idle)))
        ≡ (if is_nonzero (pos 5) then failed (make_system_error_code (pos 5)) else success))
do_callback-pseudo_result_example = do_callback-pseudo_result nop nop-IsNop 5 idle (omega arith)

abbrev unaimed : CancelFdOperation
unaimed = record { base = initial_base; fd = negsuc 0 }
