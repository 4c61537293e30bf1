-- ===== src/Net/Options/Kernel.antt =====
-- An option that one operation sets on a socket and another gets from it, by a kernel that keeps the option.
use iouxx.Base.{ℕ, some, ℤ, pos, ◌≡◌}
use iouxx.Base.Result.{Expected}
use iouxx.Ring.Setup.{has_bit}
use iouxx.Ops.{Sqe, Prep, IsPrep, iosqe_fixed_file, Target}
use iouxx.Net.Sockets.{AnySocket}
use iouxx.Net.Options.Names.{OptvalBase, SockOpt, level, optname, optval_base}
use iouxx.Net.Options.{
  Call, io_uring_prep_cmd_sock, getsockopt, setsockopt, option_socket, setoption_build,
  getoption_build, setoption_do_callback, getoption_do_callback,
}
use iouxx.Net.Options.Classes.{Member, Arguments, ResultType, option, result, optlen}
use iouxx.Net.Options.Laws.{fixed_size}

-- What the kernel does with an entry and the member that the entry points to: the member behind it, and the
-- result.
abbrev pub Execution : Type 0 → Type 0
Execution K =
    (base : OptvalBase) → Sqe (Call (Member base)) → Member base → K → (Member base × ℤ) × K

-- The entry asks for that command on an option of the socket, with a member and its size.
pub record IsCommand (base : OptvalBase) (cmd_op : ℕ) (at : Target) (level' name : ℕ)
    (m : Member base) (len : ℕ) (sqe : Sqe (Call (Member base))) : Type 0 where
  pub asked : sqe.call ≡ io_uring_prep_cmd_sock cmd_op at.fd level' name m len
  pub fixed : has_bit iosqe_fixed_file sqe.flags ≡ at.is_fixed

-- What the manual page socket(7) says of an option that the kernel keeps as it is, on one socket, for the
-- values that it takes: a set option is stored, setting other options leaves it, and it is given with its
-- size, if the size that goes with the entry is the right one.
pub record IsKept {K : Type 0} (exec : Execution K) (at : Target) (opt : SockOpt)
    (IsTaken : Member (optval_base opt) → Type 0) (value : K → Member (optval_base opt))
    : Type 0 where
  pub stored :
      (sqe : Sqe (Call (Member (optval_base opt)))) (m : Member (optval_base opt)) (len : ℕ) (k : K)
      → IsCommand (optval_base opt) setsockopt at (level opt) (optname opt) m len sqe
      → some len ≡ fixed_size (optval_base opt)
      → IsTaken m
      → ((exec (optval_base opt) sqe m k).0.1 ≡ pos 0)
        × (value (exec (optval_base opt) sqe m k).1 ≡ m)
  pub apart :
      (base : OptvalBase) (sqe : Sqe (Call (Member base))) (m : Member base) (len level' name : ℕ)
      (k : K)
      → IsCommand base setsockopt at level' name m len sqe
      → ¬ ((level opt ≡ level') × (optname opt ≡ name))
      → value (exec base sqe m k).1 ≡ value k
  pub given :
      (sqe : Sqe (Call (Member (optval_base opt)))) (m : Member (optval_base opt)) (len : ℕ) (k : K)
      → IsCommand (optval_base opt) getsockopt at (level opt) (optname opt) m len sqe
      → some len ≡ fixed_size (optval_base opt)
      → (exec (optval_base opt) sqe m k).0 ≡ (value k, pos len)

module _ {K : Type 0} (exec : Execution K) (P : (base : OptvalBase) → Prep (Call (Member base)))
    (documented : (base : OptvalBase) → IsPrep (P base)) where
  -- `socket_setoption`, from the call of `option` on.
  abbrev pub set_option :
      (opt : SockOpt) → AnySocket → Arguments (optval_base opt) → K → Expected (Unit {0}) × K
  set_option opt s value k =
      let base = optval_base opt in
      let m = option base value in
      let step = exec base (setoption_build (P base) opt (option_socket s) m (optlen base m)) m k in
      (setoption_do_callback step.0.1, step.1)

  -- `socket_getoption`, with what the member holds before.
  abbrev pub get_option :
      (opt : SockOpt)
      → AnySocket
      → Member (optval_base opt)
      → K
      → Expected (ResultType (optval_base opt))
  get_option opt s m k =
      let base = optval_base opt in
      let step = exec base (getoption_build (P base) opt (option_socket s) m (optlen base m)) m k in
      (getoption_do_callback (result base) step.0.0 step.0.1).0
