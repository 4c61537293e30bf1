-- ===== src/Files/Io/Laws.antt =====
-- The entries of the read, write and poll operations are for the file that was set last.
use iouxx.Base.{ℤ, refl}
use iouxx.Ops.{Sqe, Prep, IsPrep, AnyFile, target_file}
use iouxx.Ops.Laws.{IsAimed, fixed_flag-IsAimed}
use iouxx.Files.Io.{
  Call, io_uring_prep_read, io_uring_prep_write, io_uring_prep_read_fixed,
  io_uring_prep_write_fixed, io_uring_prep_readv2, io_uring_prep_writev2, io_uring_prep_readv_fixed,
  io_uring_prep_writev_fixed, BufferBase, ReadWriteBase, Vectored, set_file, read_build,
  read_fixed_build, readv_build, readv_fixed_build, write_build, write_fixed_build, writev_build,
  writev_fixed_build,
}

-- The eight operations, with their members.
pub data Operation : Type 0 where
  read write : ReadWriteBase → BufferBase → Operation
  read_fixed write_fixed : ReadWriteBase → BufferBase → ℤ → Operation
  readv writev : Vectored → Operation
  readv_fixed writev_fixed : Vectored → ℤ → Operation

abbrev pub build : Prep Call → Operation → Sqe Call
build P (read self b) = read_build P self b
build P (write self b) = write_build P self b
build P (read_fixed self b i) = read_fixed_build P self b i
build P (write_fixed self b i) = write_fixed_build P self b i
build P (readv self) = readv_build P self
build P (writev self) = writev_build P self
build P (readv_fixed self i) = readv_fixed_build P self i
build P (writev_fixed self i) = writev_fixed_build P self i

abbrev pub fd_of : Call → ℤ
fd_of (io_uring_prep_read fd buf len offset) = fd
fd_of (io_uring_prep_write fd buf len offset) = fd
fd_of (io_uring_prep_read_fixed fd buf len offset i) = fd
fd_of (io_uring_prep_write_fixed fd buf len offset i) = fd
fd_of (io_uring_prep_readv2 fd iovecs offset flags) = fd
fd_of (io_uring_prep_writev2 fd iovecs offset flags) = fd
fd_of (io_uring_prep_readv_fixed fd iovecs offset flags i) = fd
fd_of (io_uring_prep_writev_fixed fd iovecs offset flags i) = fd

abbrev with_file : AnyFile → Vectored → Vectored
with_file f self = record self { rw = set_file f self.rw }

-- The member function `file`, called on the operation.
abbrev pub for_file : AnyFile → Operation → Operation
for_file f (read self b) = read (set_file f self) b
for_file f (write self b) = write (set_file f self) b
for_file f (read_fixed self b i) = read_fixed (set_file f self) b i
for_file f (write_fixed self b i) = write_fixed (set_file f self) b i
for_file f (readv self) = readv (with_file f self)
for_file f (writev self) = writev (with_file f self)
for_file f (readv_fixed self i) = readv_fixed (with_file f self) i
for_file f (writev_fixed self i) = writev_fixed (with_file f self) i

-- For a liburing that prepares entries for plain files, the entry of each of the eight read and
-- write operations behind a call of file has the handle of that file and is marked as fixed exactly
-- if the file is a fixed one.
pub build-for_file :
    (P : Prep Call)
    → IsPrep P
    → (f : AnyFile) (op : Operation) → IsAimed fd_of (target_file f) (build P (for_file f op))
unfolding set_file read_build read_fixed_build readv_build readv_fixed_build write_build
    write_fixed_build writev_build writev_fixed_build
build-for_file P doc f (read self b) = fixed_flag-IsAimed fd_of (target_file f) _ refl (doc.plain _)
build-for_file P doc f (write self b) =
    fixed_flag-IsAimed fd_of (target_file f) _ refl (doc.plain _)
build-for_file P doc f (read_fixed self b i) =
    fixed_flag-IsAimed fd_of (target_file f) _ refl (doc.plain _)
build-for_file P doc f (write_fixed self b i) =
    fixed_flag-IsAimed fd_of (target_file f) _ refl (doc.plain _)
build-for_file P doc f (readv self) = fixed_flag-IsAimed fd_of (target_file f) _ refl (doc.plain _)
build-for_file P doc f (writev self) = fixed_flag-IsAimed fd_of (target_file f) _ refl (doc.plain _)
build-for_file P doc f (readv_fixed self i) =
    fixed_flag-IsAimed fd_of (target_file f) _ refl (doc.plain _)
build-for_file P doc f (writev_fixed self i) =
    fixed_flag-IsAimed fd_of (target_file f) _ refl (doc.plain _)
