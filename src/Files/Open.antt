-- ===== src/Files/Open.antt =====
-- The operations of include/iouxx/iouops/file/openclose.hpp: opening files and directories, closing, and the
-- registration of fixed files.
pub mod Laws
use iouxx.Base.{
  ℕ, zero, suc, Bool, true, false, ◌==◌, if◌then◌else◌, List, [], ◌∷◌, length, Bytes, ℤ, pos,
  negsuc, ◌+ℤ◌,
}
use iouxx.Base.Result.{Expected}
use iouxx.Ring.Setup.{with_bit, without_bit}
use iouxx.Ops.{Sqe, Prep, prep, received, AnyFile, file, fixed_file, Target, target_file}
use iouxx.Timeout.{CallbackKind, Received, receive}

-- `O_NONBLOCK`, `O_DIRECTORY`, `O_CLOEXEC` and `AT_FDCWD`; `IORING_FILE_INDEX_ALLOC` as an `int`.
abbrev pub o_nonblock : ℕ
o_nonblock = 2048

abbrev pub o_directory : ℕ
o_directory = 65536

abbrev pub o_cloexec : ℕ
o_cloexec = 524288

-- `current_directory`
abbrev pub current_directory : ℤ
current_directory = negsuc 99

abbrev pub alloc_index : ℤ
alloc_index = negsuc 0

-- `open_how`
pub record OpenHow : Type 0 where
  pub flags : ℕ
  pub mode : ℕ
  pub resolve : ℕ

-- `file_open_operation_base`
pub record FileOpenBase : Type 0 where
  pub pathstr : Bytes
  pub dirfd : ℤ
  pub how : OpenHow

abbrev pub no_file : FileOpenBase
no_file = record {
  pathstr = [];
  dirfd = current_directory;
  how = record { flags = 0; mode = 0; resolve = 0 };
}

unfoldable pub path : Bytes → FileOpenBase → FileOpenBase
path p self = record self { pathstr = p }

unfoldable pub directory : ℤ → FileOpenBase → FileOpenBase
directory native_handle self = record self { dirfd = native_handle }

unfoldable pub options : ℕ → FileOpenBase → FileOpenBase
options flags self = record self {
  how = record { flags = flags; mode = self.how.mode; resolve = self.how.resolve };
}

unfoldable pub mode : ℕ → FileOpenBase → FileOpenBase
mode m self = record self {
  how = record { flags = self.how.flags; mode = m; resolve = self.how.resolve };
}

unfoldable pub resolve_flags : ℕ → FileOpenBase → FileOpenBase
resolve_flags r self = record self {
  how = record { flags = self.how.flags; mode = self.how.mode; resolve = r };
}

-- The functions of liburing with their arguments.
pub data Call : Type 0 where
  io_uring_prep_openat2 : (dirfd : ℤ) (path : Bytes) (how : OpenHow) → Call
  io_uring_prep_openat2_direct : (dirfd : ℤ) (path : Bytes) (how : OpenHow) (file_index : ℤ) → Call
  io_uring_prep_close : (fd : ℤ) → Call
  io_uring_prep_close_direct : (file_index : ℤ) → Call
  io_uring_prep_files_update : (fds : List ℤ) (offset : ℤ) → Call
  io_uring_prep_fixed_fd_install : (fd : ℤ) (flags : ℕ) → Call

-- `fixed_file_open_operation::index` and its member.
unfoldable pub open_index : ℤ → ℤ → ℤ
open_index new file_index = new

-- `file_close_operation::file`
unfoldable pub close_file : AnyFile → Target
unfolding target_file
close_file f = target_file f

-- `fixed_file_register_operation`
pub record FixedFileRegister : Type 0 where
  pub fd : ℤ
  pub off : ℤ

unfoldable pub register_file : ℤ → FixedFileRegister → FixedFileRegister
register_file native_handle self = record self { fd = native_handle }

unfoldable pub register_offset : ℤ → FixedFileRegister → FixedFileRegister
register_offset offset self = record self { off = offset }

-- `fixed_file_register_batch_operation`, with the elements of its span.
pub record FixedFileRegisterBatch : Type 0 where
  pub fds : List ℤ
  pub off : ℤ

unfoldable pub files : List ℤ → FixedFileRegisterBatch → FixedFileRegisterBatch
files fds self = record self { fds = fds }

unfoldable pub batch_offset : ℤ → FixedFileRegisterBatch → FixedFileRegisterBatch
batch_offset offset self = record self { off = offset }

-- `fixed_file_install_operation`
pub record FixedFileInstall : Type 0 where
  pub file_index : ℤ
  pub no_cloexec_flag : Bool

unfoldable pub install_file : ℤ → FixedFileInstall → FixedFileInstall
install_file index self = record self { file_index = index }

unfoldable pub no_cloexec : Bool → FixedFileInstall → FixedFileInstall
no_cloexec set_flag self = record self { no_cloexec_flag = set_flag }

-- What `build` of each of the three open operations makes of the flags, which stay in the operation.
unfoldable pub open_flags : FileOpenBase → FileOpenBase
unfolding options
open_flags self = options (with_bit o_cloexec (with_bit o_nonblock self.how.flags)) self

unfoldable pub fixed_open_flags : FileOpenBase → FileOpenBase
unfolding options
fixed_open_flags self = options (without_bit o_cloexec (with_bit o_nonblock self.how.flags)) self

unfoldable pub directory_open_flags : FileOpenBase → FileOpenBase
unfolding options
directory_open_flags self = options (with_bit o_nonblock (with_bit o_directory self.how.flags)) self

module _ (P : Prep Call) where
  -- `build` of `file_open_operation`, `fixed_file_open_operation` and `directory_open_operation`: the
  -- operation behind it, and the entry.
  unfoldable pub open_build : FileOpenBase → FileOpenBase × Sqe Call
  unfolding open_flags
  open_build self =
      let self' = open_flags self in
      (self', prep P (io_uring_prep_openat2 self'.dirfd self'.pathstr self'.how))

  unfoldable pub fixed_open_build : ℤ → FileOpenBase → FileOpenBase × Sqe Call
  unfolding fixed_open_flags
  fixed_open_build file_index self =
      let self' = fixed_open_flags self in
      (self', prep P (io_uring_prep_openat2_direct self'.dirfd self'.pathstr self'.how file_index))

  unfoldable pub directory_open_build : FileOpenBase → FileOpenBase × Sqe Call
  unfolding directory_open_flags
  directory_open_build self =
      let self' = directory_open_flags self in
      (self', prep P (io_uring_prep_openat2 self'.dirfd self'.pathstr self'.how))

  -- `file_close_operation::build`
  unfoldable pub close_build : Target → Sqe Call
  close_build self =
      if self.is_fixed
      then prep P (io_uring_prep_close_direct self.fd)
      else prep P (io_uring_prep_close self.fd)

  -- `build` of `fixed_file_register_operation` and `fixed_file_register_batch_operation`
  unfoldable pub register_build : FixedFileRegister → Sqe Call
  register_build self = prep P (io_uring_prep_files_update (self.fd ∷ []) self.off)

  unfoldable pub batch_build : FixedFileRegisterBatch → Sqe Call
  batch_build self = prep P (io_uring_prep_files_update self.fds self.off)

  -- `fixed_file_install_operation::build`, with `IORING_FIXED_FD_NO_CLOEXEC`.
  unfoldable pub install_build : FixedFileInstall → Sqe Call
  install_build self =
      prep P
        (io_uring_prep_fixed_fd_install self.file_index (if self.no_cloexec_flag then 1 else 0))

-- `do_callback` of the open operations: the handle of the file, or its index.
unfoldable pub open_do_callback : ℤ → Expected AnyFile
open_do_callback ev = received (λ n. file (pos n)) ev

unfoldable pub fixed_open_do_callback : ℤ → Expected AnyFile
fixed_open_do_callback ev = received (λ n. fixed_file (pos n)) ev

unfoldable pub directory_open_do_callback : ℤ → Expected AnyFile
directory_open_do_callback ev = received (λ n. file (pos n)) ev

unfoldable pub close_do_callback : CallbackKind → ℤ → Received
close_do_callback kind ev = receive kind ev

-- `off == alloc_index`
abbrev pub is_alloc : ℤ → Bool
is_alloc (pos n) = false
is_alloc (negsuc n) = n == 0

-- `fixed_file_register_operation::do_callback`, where the kernel may have written `fd`.
unfoldable pub register_do_callback : FixedFileRegister → ℤ → Expected AnyFile
register_do_callback self ev =
    received (λ n. fixed_file (if is_alloc self.off then self.fd else self.off)) ev

-- The loop of `fixed_file_register_batch_operation::do_callback` from a place on.
pub number_from : ℤ → ℕ → List ℤ → List ℤ
number_from off i [] = []
number_from off i (fd ∷ fds) = (off +ℤ pos i) ∷ number_from off (suc i) fds

-- `fixed_file_register_batch_operation::do_callback`, where the kernel may have written `fds`: the number of
-- files, and their indexes.
unfoldable pub batch_do_callback : FixedFileRegisterBatch → ℤ → Expected (ℕ × List ℤ)
unfolding number_from
batch_do_callback self ev =
    received (λ n. (n, if is_alloc self.off then self.fds else number_from self.off 0 self.fds)) ev

-- `fixed_file_install_operation::do_callback`
unfoldable pub install_do_callback : ℤ → Expected AnyFile
install_do_callback ev = received (λ n. file (pos n)) ev
