-- ===== src/Files/Directory.antt =====
-- The operations of include/iouxx/iouops/file/directory.hpp: unlinking, renaming, linking and making
-- directories.
use iouxx.Base.{ℕ, Bytes, ℤ}
use iouxx.Ops.{Sqe, Prep, prep}
use iouxx.Timeout.{CallbackKind, Received, receive}

-- `single_path_directory_operation_base`
pub record SinglePath : Type 0 where
  pub pathstr : Bytes
  pub dirfd : ℤ

unfoldable pub path : Bytes → SinglePath → SinglePath
path p self = record self { pathstr = p }

unfoldable pub directory : ℤ → SinglePath → SinglePath
directory native_handle self = record self { dirfd = native_handle }

-- `dual_path_directory_operation_base`
pub record DualPath : Type 0 where
  pub oldpathstr : Bytes
  pub olddirfd : ℤ
  pub newpathstr : Bytes
  pub newdirfd : ℤ

unfoldable pub old_path : Bytes → DualPath → DualPath
old_path p self = record self { oldpathstr = p }

unfoldable pub old_directory : ℤ → DualPath → DualPath
old_directory native_handle self = record self { olddirfd = native_handle }

unfoldable pub new_path : Bytes → DualPath → DualPath
new_path p self = record self { newpathstr = p }

unfoldable pub new_directory : ℤ → DualPath → DualPath
new_directory native_handle self = record self { newdirfd = native_handle }

-- `symlink_operation`
pub record Symlink : Type 0 where
  pub targetstr : Bytes
  pub linkpathstr : Bytes
  pub newdirfd : ℤ

unfoldable pub target : Bytes → Symlink → Symlink
target p self = record self { targetstr = p }

unfoldable pub link_path : Bytes → Symlink → Symlink
link_path p self = record self { linkpathstr = p }

unfoldable pub link_directory : ℤ → Symlink → Symlink
link_directory native_handle self = record self { newdirfd = native_handle }

-- `flags` and `mode` of the operations set a number.
unfoldable pub unlink_flags : ℕ → ℕ → ℕ
unlink_flags new flags = new

unfoldable pub rename_flags : ℕ → ℕ → ℕ
rename_flags new flags = new

unfoldable pub mkdir_mode : ℕ → ℕ → ℕ
mkdir_mode new mode = new

unfoldable pub link_flags : ℕ → ℕ → ℕ
link_flags new flags = new

-- The functions of liburing with their arguments.
pub data Call : Type 0 where
  io_uring_prep_unlinkat : (dirfd : ℤ) (path : Bytes) (flags : ℕ) → Call
  io_uring_prep_renameat :
      (olddirfd : ℤ) (oldpath : Bytes) (newdirfd : ℤ) (newpath : Bytes) (flags : ℕ) → Call
  io_uring_prep_mkdirat : (dirfd : ℤ) (path : Bytes) (mode : ℕ) → Call
  io_uring_prep_symlinkat : (target : Bytes) (newdirfd : ℤ) (linkpath : Bytes) → Call
  io_uring_prep_linkat :
      (olddirfd : ℤ) (oldpath : Bytes) (newdirfd : ℤ) (newpath : Bytes) (flags : ℕ) → Call

module _ (P : Prep Call) where
  -- `build` of the operations.
  unfoldable pub unlink_build : SinglePath → ℕ → Sqe Call
  unlink_build self flags = prep P (io_uring_prep_unlinkat self.dirfd self.pathstr flags)

  unfoldable pub rename_build : DualPath → ℕ → Sqe Call
  rename_build self flags =
      prep P
        (io_uring_prep_renameat self.olddirfd self.oldpathstr self.newdirfd self.newpathstr flags)

  unfoldable pub mkdir_build : SinglePath → ℕ → Sqe Call
  mkdir_build self mode = prep P (io_uring_prep_mkdirat self.dirfd self.pathstr mode)

  unfoldable pub symlink_build : Symlink → Sqe Call
  symlink_build self =
      prep P (io_uring_prep_symlinkat self.targetstr self.newdirfd self.linkpathstr)

  unfoldable pub link_build : DualPath → ℕ → Sqe Call
  link_build self flags =
      prep P
        (io_uring_prep_linkat self.olddirfd self.oldpathstr self.newdirfd self.newpathstr flags)

-- `do_callback` of the operations.
unfoldable pub unlink_do_callback : CallbackKind → ℤ → Received
unlink_do_callback kind ev = receive kind ev

unfoldable pub rename_do_callback : CallbackKind → ℤ → Received
rename_do_callback kind ev = receive kind ev

unfoldable pub mkdir_do_callback : CallbackKind → ℤ → Received
mkdir_do_callback kind ev = receive kind ev

unfoldable pub symlink_do_callback : CallbackKind → ℤ → Received
symlink_do_callback kind ev = receive kind ev

unfoldable pub link_do_callback : CallbackKind → ℤ → Received
link_do_callback kind ev = receive kind ev
