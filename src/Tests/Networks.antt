-- ===== src/Tests/Networks.antt =====
-- Runs of the network operations.
use iouxx.Base.{
  ℕ, ◌-◌, ◌++◌, true, List, [], ◌∷◌, replicate, length, ℤ, pos, ◌≡◌, refl, arith, codes, none, some,
  Bytes, Bool, ◌==◌, ◌&&◌, if◌then◌else◌, is_negative, false,
}
use iouxx.Ring.Setup.{has_bit}
use iouxx.Ops.{Prep, IsPrep, Target, iosqe_fixed_file}
use iouxx.Net.Sockets.{no_fixed_socket, fixed_connection, AnySocket}
use iouxx.Net.SendRecv.{set_socket, send_zc_do_callback, sendmsg_zc_do_callback}
use iouxx.Net.SendRecv.Laws.{
  Operation, send, IsEntry, build, build-IsEntry, notified, in_use, free, history,
  send_zc_do_callback-history,
}
use iouxx.Net.Connecting
use iouxx.Net.Connecting.Laws.{Accepting, fixed_in_shots, build-told}
use iouxx.Net.Options.Names.{OptvalBase, General, SockOpt, general, general_base, optval_base}
use iouxx.Net.Options.{
  Timeval, Call, io_uring_prep_cmd_sock, io_uring_prep_cmd_getsockname, setsockopt,
}
use iouxx.Net.Options.Classes.{Member, Arguments}
use iouxx.Net.Options.Kernel.{Execution, set_option}
use iouxx.Net.Uds.{UdsInfo, uds_info, to_system_sockaddr, from_system_sockaddr, path}
use iouxx.Net.Uds.Laws.{path-uds_info}

-- A liburing that leaves nothing in the members.
abbrev plain : {C : Type 0} → Prep C
plain = record { flags = λ call. 0; ioprio = λ call. 0 }

plain-IsPrep : {C : Type 0} → IsPrep {C = C} plain
plain-IsPrep = record { plain = λ call. refl }

abbrev message_bytes : Operation ℕ
message_bytes =
    send (record { buf = 4096; len = 100; buf_index = pos 3; flags = 0; ring_flags = 1 })

abbrev table : Target
table = record { fd = pos 7; is_fixed = true }

build-IsEntry_example : IsEntry table (pos 3) (build plain table message_bytes)
build-IsEntry_example = build-IsEntry plain plain-IsPrep table message_bytes

-- A send of 100 bytes, of which the notification comes second.
abbrev completions : List (ℤ × ℕ)
completions = (pos 100, 2) ∷ (pos 0, 8) ∷ []

send_zc_do_callback-history_example :
    (history send_zc_do_callback (in_use, 0) completions
      ≡ replicate (length completions - 1) (in_use, 100) ++ (free, 100) ∷ [])
    × (history sendmsg_zc_do_callback (in_use, 0) completions
        ≡ replicate (length completions - 1) (in_use, 100) ++ (free, 100) ∷ [])
send_zc_do_callback-history_example =
    send_zc_do_callback-history 100 completions (notified 2 8 refl refl refl refl)

abbrev shots : Accepting ℕ
shots = fixed_in_shots no_fixed_socket 2

abbrev peer : AnySocket
peer = fixed_connection (record { sock = no_fixed_socket; conn_index = pos 9 })

build-told_example :
    IsEntry
      (record { fd = pos 9; is_fixed = true })
      (pos 3)
      (build plain (set_socket peer) message_bytes)
build-told_example =
    build-told {I = ℕ} (λ a. a) plain plain-IsPrep shots (pos 9) peer message_bytes
      (unfold Connecting.fixed_multishot_accept_do_callback in refl)

abbrev no_time : Timeval
no_time = record { tv_sec = pos 0; tv_usec = pos 0 }

abbrev sndtimeo : SockOpt
sndtimeo = general General.sndtimeo

-- A kernel of one socket, which keeps the time that a receive may take.
abbrev keep : Call Timeval → Bool → Timeval → Timeval → (Timeval × ℤ) × Timeval
keep (io_uring_prep_cmd_sock cmd_op fd l name optval optlen) is_fixed m k =
    if l == 1 && name == 20
    then if cmd_op == setsockopt then ((m, pos 0), optval) else ((k, pos optlen), k)
    else ((m, pos 0), k)
keep (io_uring_prep_cmd_getsockname fd addrlen of_peer) is_fixed m k = ((m, pos 0), k)

abbrev keeping : Execution Timeval
keeping OptvalBase.timeval_optval sqe m k = keep sqe.call (has_bit iosqe_fixed_file sqe.flags) m k
keeping base sqe m k = ((m, pos 0), k)

abbrev rcvtimeo : SockOpt
rcvtimeo = general General.rcvtimeo

abbrev own_socket : AnySocket
own_socket = fixed_connection (record { sock = no_fixed_socket; conn_index = pos 3 })

abbrev kept_time : Timeval → Member (optval_base rcvtimeo)
unfolding optval_base general_base
kept_time k = k

-- The times that are not negative.
abbrev IsTime : Member (optval_base rcvtimeo) → Type 0
unfolding optval_base general_base
IsTime m = is_negative m.tv_sec ≡ false

abbrev time_before : Member (optval_base rcvtimeo)
unfolding optval_base general_base
time_before = no_time

abbrev time : Arguments (optval_base rcvtimeo)
unfolding optval_base general_base
time = pos 1500000999

abbrev other_time : Arguments (optval_base sndtimeo)
unfolding optval_base general_base
other_time = pos 5

abbrev documented : (base : OptvalBase) → IsPrep {C = Call (Member base)} plain
documented base = plain-IsPrep

abbrev after_rcvtimeo : Timeval
after_rcvtimeo = (set_option keeping (λ base. plain) documented rcvtimeo own_socket time no_time).1

abbrev after_sndtimeo : Timeval
after_sndtimeo =
    (set_option keeping (λ base. plain) documented sndtimeo own_socket other_time after_rcvtimeo).1

-- The path of an abstract socket starts with a zero, and reads as the empty text.
abbrev abstract_path : Bytes
abstract_path = 0 ∷ codes "iouxx"

path-uds_info_example :
    (uds_info (replicate 108 97) ≡ none)
    × (info : UdsInfo) × (uds_info abstract_path ≡ some info)
    × (path (from_system_sockaddr (to_system_sockaddr info)) ≡ some [])
    × (length info.sun_path ≡ 108)
path-uds_info_example = path-uds_info abstract_path (replicate 108 97) (omega arith) (omega arith)
