-- ===== src/Files/Open/Laws.antt =====
-- The flags with which files are opened, and the indexes of a batch of fixed files.
use iouxx.Base.{
  ℕ, zero, suc, ◌+◌, ◌/◌, ◌%◌, ◌<◌, Bool, true, false, List, [], ◌∷◌, length, get_or, ℤ, pos, ◌+ℤ◌,
  ◌≡◌, refl, ap, ◌∙◌, arith,
}
use iouxx.Base.Result.{ok}
use iouxx.Ring.Setup.{has_bit}
use iouxx.Ops.{Prep}
use iouxx.Files.Open.{
  Call, io_uring_prep_openat2, io_uring_prep_openat2_direct, FileOpenBase, o_nonblock, o_cloexec,
  o_directory, open_flags, fixed_open_flags, directory_open_flags, open_build, fixed_open_build,
  directory_open_build, FixedFileRegisterBatch, number_from, batch_do_callback, is_alloc,
}

-- Flags that agree but for those three.
pub record AgreeElsewhere (m n : ℕ) : Type 0 where
  pub low : m % 2048 ≡ n % 2048
  pub middle : m / 4096 % 16 ≡ n / 4096 % 16
  pub high : m / 131072 % 4 ≡ n / 131072 % 4
  pub top : m / 1048576 ≡ n / 1048576

-- The flags that an operation is opened with, of the flags that were given.
pub record IsOpened (given made : ℕ) (cloexec directory : Bool) : Type 0 where
  pub nonblock : has_bit o_nonblock made ≡ true
  pub closes : has_bit o_cloexec made ≡ cloexec
  pub in_directory : has_bit o_directory made ≡ directory
  pub elsewhere : AgreeElsewhere made given

open_flags-IsOpened :
    (self : FileOpenBase)
    → IsOpened self.how.flags (open_flags self).how.flags true (has_bit o_directory self.how.flags)
unfolding open_flags
open_flags-IsOpened self = record {
  nonblock = ground arith;
  closes = ground arith;
  in_directory = ground arith;
  elsewhere = record {
    low = ground arith;
    middle = ground arith;
    high = ground arith;
    top = ground arith;
  };
}

fixed_open_flags-IsOpened :
    (self : FileOpenBase)
    → IsOpened self.how.flags
        (fixed_open_flags self).how.flags
        false
        (has_bit o_directory self.how.flags)
unfolding fixed_open_flags
fixed_open_flags-IsOpened self = record {
  nonblock = ground arith;
  closes = ground arith;
  in_directory = ground arith;
  elsewhere = record {
    low = ground arith;
    middle = ground arith;
    high = ground arith;
    top = ground arith;
  };
}

directory_open_flags-IsOpened :
    (self : FileOpenBase)
    → IsOpened self.how.flags
        (directory_open_flags self).how.flags
        (has_bit o_cloexec self.how.flags)
        true
unfolding directory_open_flags
directory_open_flags-IsOpened self = record {
  nonblock = ground arith;
  closes = ground arith;
  in_directory = ground arith;
  elsewhere = record {
    low = ground arith;
    middle = ground arith;
    high = ground arith;
    top = ground arith;
  };
}

-- The flags that a call of liburing is given.
abbrev pub flags_of : Call → ℕ
flags_of (io_uring_prep_openat2 dirfd path how) = how.flags
flags_of (io_uring_prep_openat2_direct dirfd path how file_index) = how.flags
flags_of other = 0

-- Of the flags that were given, file_open_operation hands over those with O_NONBLOCK and O_CLOEXEC
-- set, fixed_file_open_operation those with O_NONBLOCK set and O_CLOEXEC not, and
-- directory_open_operation those with O_NONBLOCK and O_DIRECTORY set; all other flags are as they
-- were given.
pub flags-open_build :
    (P : Prep Call) (file_index : ℤ) (self : FileOpenBase)
    → IsOpened self.how.flags
        (flags_of (open_build P self).1.call)
        true
        (has_bit o_directory self.how.flags)
      × IsOpened self.how.flags
          (flags_of (fixed_open_build P file_index self).1.call)
          false
          (has_bit o_directory self.how.flags)
      × IsOpened self.how.flags
          (flags_of (directory_open_build P self).1.call)
          (has_bit o_cloexec self.how.flags)
          true
unfolding open_build fixed_open_build directory_open_build
flags-open_build P file_index self =
    (open_flags-IsOpened self, fixed_open_flags-IsOpened self, directory_open_flags-IsOpened self)

length-number_from : (off : ℤ) (i : ℕ) (fds : List ℤ) → length (number_from off i fds) ≡ length fds
unfolding number_from
length-number_from off i [] = refl
length-number_from off i (fd ∷ fds) = ap suc (length-number_from off (suc i) fds)

get_or-number_from :
    (off : ℤ) (i k : ℕ) (fds : List ℤ) (other : ℤ)
    → k < length fds
    → get_or (number_from off i fds) k other ≡ off +ℤ pos (i + k)
unfolding number_from
get_or-number_from off i k [] other h = absurd (omega arith)
get_or-number_from off i zero (fd ∷ fds) other h = ap (λ n. off +ℤ pos n) (omega arith)
get_or-number_from off i (suc k) (fd ∷ fds) other h =
    get_or-number_from off (suc i) k fds other (omega arith) ∙ ap (λ n. off +ℤ pos n) (omega arith)

-- For a batch of files with an explicit offset and a result that is not negative, the callback
-- receives the result and as many indexes as there are files, of which the one at each place is the
-- offset and that place.
pub batch_do_callback-numbers :
    (self : FixedFileRegisterBatch) (n k : ℕ) (other : ℤ)
    → is_alloc self.off ≡ false
    → k < length self.fds
    → (indexes : List ℤ) × (batch_do_callback self (pos n) ≡ ok (n, indexes))
      × (length indexes ≡ length self.fds)
      × (get_or indexes k other ≡ self.off +ℤ pos k)
unfolding batch_do_callback
batch_do_callback-numbers self n k other explicit h = (
  number_from self.off 0 self.fds,
  rw explicit refl,
  length-number_from self.off 0 self.fds,
  get_or-number_from self.off 0 k self.fds other h ∙ ap (λ m. self.off +ℤ pos m) (omega arith),
)
