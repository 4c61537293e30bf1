-- ===== src/Tests/Files.antt =====
-- Runs of the file operations.
use iouxx.Base.{true, false, [], ◌∷◌, pos, negsuc, ◌≡◌, refl, codes}
use iouxx.Base.Result.{ok}
use iouxx.Ops.{Prep, IsPrep, fixed_file, target_file, no_target}
use iouxx.Ops.Laws.{IsAimed}
use iouxx.Files.Io.Laws.{Operation, writev, build, fd_of, for_file, build-for_file}
use iouxx.Files.Open.{
  FixedFileRegisterBatch, batch_do_callback, FileOpenBase, open_build, fixed_open_build,
  directory_open_build,
}
use iouxx.Files.Open.Laws.{IsOpened, flags_of, flags-open_build}

-- A liburing that leaves nothing in the members.
abbrev plain : {C : Type 0} → Prep C
plain = record { flags = λ call. 0; ioprio = λ call. 0 }

plain-IsPrep : {C : Type 0} → IsPrep {C = C} plain
plain-IsPrep = record { plain = λ call. refl }

abbrev gather : Operation
gather = writev (record {
  rw = record { at = no_target; off = 512 };
  flags = 0;
  iovecs = (4096, 10) ∷ (8192, 20) ∷ [];
})

build-for_file_example :
    IsAimed fd_of
      (target_file (fixed_file (pos 5)))
      (build plain (for_file (fixed_file (pos 5)) gather))
build-for_file_example = build-for_file plain plain-IsPrep (fixed_file (pos 5)) gather

-- `O_CREAT` with `O_CLOEXEC`, as the flags of a file that is to be opened.
abbrev wanted : FileOpenBase
wanted = record {
  pathstr = codes "notes.txt";
  dirfd = negsuc 99;
  how = record { flags = 524352; mode = 0; resolve = 0 };
}

flags-open_build_example :
    IsOpened 524352 (flags_of (open_build plain wanted).1.call) true false
    × IsOpened 524352 (flags_of (fixed_open_build plain (negsuc 0) wanted).1.call) false false
    × IsOpened 524352 (flags_of (directory_open_build plain wanted).1.call) true true
flags-open_build_example = flags-open_build plain (negsuc 0) wanted

abbrev batch : FixedFileRegisterBatch
batch = record { fds = pos 30 ∷ pos 31 ∷ pos 32 ∷ []; off = pos 8 }

numbers : batch_do_callback batch (pos 3) ≡ ok (3, pos 8 ∷ pos 9 ∷ pos 10 ∷ [])
unfolding batch_do_callback
numbers = refl
