-- ===== src/Futex/Laws.antt =====
-- A waiter and who wakes it name the same futex.
use iouxx.Base.{ℕ, ◌%◌, Bool, true, false, not, List, [], ◌∷◌, map, ◌≡◌, refl}
use iouxx.Ring.Setup.{has_bit}
use iouxx.Futex.{
  Call, io_uring_prep_futex_wait, io_uring_prep_futex_wake, io_uring_prep_futex_waitv, FutexWait,
  FutexWake, futex_word, private_futex, build_futex2_flags, make_futex_waitv, wait_build,
  wake_build, waitv_build, futex2_private,
}

-- A futex as the kernel tells them apart: the word, whether other processes can share it, and the code of
-- its size.
pub record Key : Type 0 where
  pub word : ℕ
  pub shared : Bool
  pub size_code : ℕ

-- The futexes that the addresses and the flags of a call name.
abbrev pub key : ℕ → ℕ → Key
key addr flags = record {
  word = addr;
  shared = not (has_bit futex2_private flags);
  size_code = flags % 4;
}

abbrev pub keys : Call → List Key
keys (io_uring_prep_futex_wait futex val mask futex_flags flags) = key futex futex_flags ∷ []
keys (io_uring_prep_futex_wake futex val mask futex_flags flags) = key futex futex_flags ∷ []
keys (io_uring_prep_futex_waitv futexes n flags) = map (λ w. key w.uaddr w.flags) futexes

key-build_futex2_flags :
    (addr : ℕ) (is_private : Bool)
    → key addr (build_futex2_flags is_private)
      ≡ record { word = addr; shared = not is_private; size_code = 2 }
unfolding build_futex2_flags
key-build_futex2_flags addr true = refl
key-build_futex2_flags addr false = refl

-- A wait, a wake and an entry of a vector of waiters that are given the same word and the same privacy
-- name the same futex of 32 bits, whatever else they were given before.
pub keys-build :
    (word value : ℕ) (is_private : Bool) (wait : FutexWait) (wake : FutexWake)
    → (keys
          (wait_build (record wait { base = private_futex is_private (futex_word word wait.base) }))
        ≡ record { word = word; shared = not is_private; size_code = 2 } ∷ [])
      × (keys (
            wake_build
              (record wake { base = private_futex is_private (futex_word word wake.base) }))
          ≡ record { word = word; shared = not is_private; size_code = 2 } ∷ [])
      × (keys (waitv_build (make_futex_waitv word value is_private ∷ []))
          ≡ record { word = word; shared = not is_private; size_code = 2 } ∷ [])
unfolding wait_build wake_build waitv_build make_futex_waitv private_futex futex_word
keys-build word value is_private wait wake =
    let e = key-build_futex2_flags word is_private in (rw e refl, rw e refl, rw e refl)
