-- ===== src/Files/Io.antt =====
-- The operations of include/iouxx/iouops/file/fileio.hpp: reading and writing a file, in one buffer or in
-- several, plain or registered. A buffer is its address and its length.
pub mod Laws
use iouxx.Base.{ℕ, List, set, ℤ, pos, Bool}
use iouxx.Base.Result.{Expected}
use iouxx.Ops.{Sqe, Prep, prep, fixed_flag, received, Target, AnyFile, target_file}

-- The functions of liburing with their arguments.
pub data Call : Type 0 where
  io_uring_prep_read io_uring_prep_write : (fd : ℤ) (buf len offset : ℕ) → Call
  io_uring_prep_read_fixed io_uring_prep_write_fixed :
      (fd : ℤ) (buf len offset : ℕ) (buf_index : ℤ) → Call
  io_uring_prep_readv2 io_uring_prep_writev2 :
      (fd : ℤ) (iovecs : List (ℕ × ℕ)) (offset flags : ℕ) → Call
  io_uring_prep_readv_fixed io_uring_prep_writev_fixed :
      (fd : ℤ) (iovecs : List (ℕ × ℕ)) (offset flags : ℕ) (buf_index : ℤ) → Call

-- `file_read_buffer_operation_base` and `file_write_buffer_operation_base`
pub record BufferBase : Type 0 where
  pub buf : ℕ
  pub len : ℕ

unfoldable pub read_buffer : ℕ → ℕ → BufferBase → BufferBase
read_buffer start size self = record { buf = start; len = size }

unfoldable pub write_buffer : ℕ → ℕ → BufferBase → BufferBase
write_buffer start size self = record { buf = start; len = size }

-- `file_read_write_operation_base`
pub record ReadWriteBase : Type 0 where
  pub at : Target
  pub off : ℕ

unfoldable pub set_file : AnyFile → ReadWriteBase → ReadWriteBase
unfolding target_file
set_file f self = record self { at = target_file f }

unfoldable pub set_offset : ℕ → ReadWriteBase → ReadWriteBase
set_offset offset self = record self { off = offset }

-- `rw_flag_base` with the number of `rw_flag`, and `fixed_buffer_base`.
unfoldable pub options : ℕ → ℕ → ℕ
options new flags = new

unfoldable pub index : ℤ → ℤ → ℤ
index new buf_index = new

-- `vectored_read_base` and `vectored_write_base`: the buffer at a place of the array, which lies within;
-- and `raw_vectored_io_base`.
unfoldable pub read_buffer_at : ℕ → ℕ → ℕ → List (ℕ × ℕ) → List (ℕ × ℕ)
read_buffer_at off start size iovecs = set iovecs off (start, size)

unfoldable pub write_buffer_at : ℕ → ℕ → ℕ → List (ℕ × ℕ) → List (ℕ × ℕ)
write_buffer_at off start size iovecs = set iovecs off (start, size)

unfoldable pub raw_iovecs : List (ℕ × ℕ) → List (ℕ × ℕ) → List (ℕ × ℕ)
raw_iovecs raw iovecs = raw

-- The members of `file_readv::operation` and `file_writev::operation`, and of the two with a registered
-- buffer.
pub record Vectored : Type 0 where
  pub rw : ReadWriteBase
  pub flags : ℕ
  pub iovecs : List (ℕ × ℕ)

module _ (P : Prep Call) where
  -- `build` of `file_read_operation` and `file_read_fixed_operation`
  unfoldable pub read_build : ReadWriteBase → BufferBase → Sqe Call
  read_build self b =
      fixed_flag self.at.is_fixed (prep P (io_uring_prep_read self.at.fd b.buf b.len self.off))

  unfoldable pub read_fixed_build : ReadWriteBase → BufferBase → ℤ → Sqe Call
  read_fixed_build self b buf_index =
      fixed_flag self.at.is_fixed
        (prep P (io_uring_prep_read_fixed self.at.fd b.buf b.len self.off buf_index))

  -- `build` of `file_readv::operation` and `file_readv_fixed::operation`
  unfoldable pub readv_build : Vectored → Sqe Call
  readv_build self =
      fixed_flag self.rw.at.is_fixed
        (prep P (io_uring_prep_readv2 self.rw.at.fd self.iovecs self.rw.off self.flags))

  unfoldable pub readv_fixed_build : Vectored → ℤ → Sqe Call
  readv_fixed_build self buf_index = fixed_flag self.rw.at.is_fixed (
      prep P (io_uring_prep_readv_fixed self.rw.at.fd self.iovecs self.rw.off self.flags buf_index))

  -- `build` of `file_write_operation` and `file_write_fixed_operation`
  unfoldable pub write_build : ReadWriteBase → BufferBase → Sqe Call
  write_build self b =
      fixed_flag self.at.is_fixed (prep P (io_uring_prep_write self.at.fd b.buf b.len self.off))

  unfoldable pub write_fixed_build : ReadWriteBase → BufferBase → ℤ → Sqe Call
  write_fixed_build self b buf_index =
      fixed_flag self.at.is_fixed
        (prep P (io_uring_prep_write_fixed self.at.fd b.buf b.len self.off buf_index))

  -- `build` of `file_writev::operation` and `file_writev_fixed::operation`
  unfoldable pub writev_build : Vectored → Sqe Call
  writev_build self =
      fixed_flag self.rw.at.is_fixed
        (prep P (io_uring_prep_writev2 self.rw.at.fd self.iovecs self.rw.off self.flags))

  unfoldable pub writev_fixed_build : Vectored → ℤ → Sqe Call
  writev_fixed_build self buf_index = fixed_flag self.rw.at.is_fixed (
      prep P
        (io_uring_prep_writev_fixed self.rw.at.fd self.iovecs self.rw.off self.flags buf_index))

-- `do_callback` of the operations: how many bytes were read or written.
unfoldable pub read_do_callback : ℤ → Expected ℤ
read_do_callback ev = received pos ev

unfoldable pub read_fixed_do_callback : ℤ → Expected ℤ
read_fixed_do_callback ev = received pos ev

unfoldable pub readv_do_callback : ℤ → Expected ℤ
readv_do_callback ev = received pos ev

unfoldable pub readv_fixed_do_callback : ℤ → Expected ℤ
readv_fixed_do_callback ev = received pos ev

unfoldable pub write_do_callback : ℤ → Expected ℤ
write_do_callback ev = received pos ev

unfoldable pub write_fixed_do_callback : ℤ → Expected ℤ
write_fixed_do_callback ev = received pos ev

unfoldable pub writev_do_callback : ℤ → Expected ℤ
writev_do_callback ev = received pos ev

unfoldable pub writev_fixed_do_callback : ℤ → Expected ℤ
writev_fixed_do_callback ev = received pos ev
