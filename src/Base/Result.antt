-- ===== src/Base/Result.antt =====
-- `std::expected<T, std::error_code>`, `std::errc`, and the helpers of include/iouxx/util/utility.hpp
-- that make them.
use Prim.Native.Nat.{ℕ, zero, suc}
use mathlib.Core.Path.{◌≡◌, refl}
use mathlib.Core.Logic.{◌⊎◌, inl, inr}
use mathlib.Core.Bool.{Bool, true, false}
use iouxx.Base.Int.{ℤ, pos, negsuc}
use iouxx.Base.Tests.{if◌then◌else◌}

-- The two categories that the library's error codes belong to.
pub data Category : Type 0 where
  system_category generic_category : Category

pub record ErrorCode : Type 0 where
  pub category : Category
  pub value : ℤ

-- `std::error_code()`: no error.
abbrev pub no_error : ErrorCode
no_error = record { category = system_category; value = pos zero }

abbrev pub is_nonzero : ℤ → Bool
is_nonzero (pos zero) = false
is_nonzero (pos (suc n)) = true
is_nonzero (negsuc n) = true

-- `std::errc`, by the numbers of the target's <errno.h>.
pub data Errc : Type 0 where
  invalid_argument result_out_of_range resource_unavailable_try_again file_exists : Errc
  not_enough_memory function_not_supported operation_canceled : Errc

abbrev pub errno : Errc → ℕ
errno invalid_argument = 22
errno result_out_of_range = 34
errno resource_unavailable_try_again = 11
errno file_exists = 17
errno not_enough_memory = 12
errno function_not_supported = 38
errno operation_canceled = 125

-- `std::make_error_code(std::errc)`.
abbrev pub make_error_code : Errc → ErrorCode
make_error_code e = record { category = generic_category; value = pos (errno e) }

-- `explicit operator bool` of an error code.
abbrev pub has_error : ErrorCode → Bool
has_error ec = is_nonzero ec.value

-- Pre: the argument is not negative.
abbrev pub make_system_error_code : ℤ → ErrorCode
make_system_error_code ev =
    if is_nonzero ev then record { category = system_category; value = ev } else no_error

pub data Expected {ℓ} (A : Type ℓ) : Type ℓ where
  ok : A → Expected A
  unexpected : ErrorCode → Expected A

abbrev pub fail {ℓ} : {A : Type ℓ} → Errc → Expected A
fail e = unexpected (make_error_code e)

abbrev pub fail_system {ℓ} : {A : Type ℓ} → ℤ → Expected A
fail_system ev = unexpected (make_system_error_code ev)

abbrev pub fail_invalid_argument {ℓ} : {A : Type ℓ} → Expected A
fail_invalid_argument = fail invalid_argument

module _ {ℓ κ} {A : Type ℓ} {B : Type κ} where
  infixl 5 ◌>>=◌
  -- What follows a call that may have failed: its error is returned as it is.
  abbrev pub ◌>>=◌ : Expected A → (A → Expected B) → Expected B
  unexpected ec >>= next = unexpected ec
  ok value >>= next = next value

  -- If the whole succeeds, so does the call.
  pub >>=-eq-ok :
      (call : Expected A) (next : A → Expected B) {result : B}
      → (call >>= next) ≡ ok result
      → (value : A) × (call ≡ ok value) × (next value ≡ ok result)
  >>=-eq-ok (unexpected ec) next succeeds = cc
  >>=-eq-ok (ok value) next succeeds = (value, refl, succeeds)

infixl 5 ◌>>◌
-- The same, behind a test.
abbrev pub ◌>>◌ {ℓ} : {B : Type ℓ} → Expected (Unit {0}) → Expected B → Expected B
test >> rest = test >>= λ passed. rest

-- `if (!test) return fail(e)`.
abbrev pub require : Bool → Errc → Expected (Unit {0})
require false errc = fail errc
require true errc = ok tt

pub Expected-cases {ℓ} :
    {A : Type ℓ} (m : Expected A) → ((a : A) × (m ≡ ok a)) ⊎ ((e : ErrorCode) × (m ≡ unexpected e))
Expected-cases (ok a) = inl (a, refl)
Expected-cases (unexpected e) = inr (e, refl)

-- A guard that lets the computation through held.
pub require_cases {ℓ} :
    {A : Type ℓ} (b : Bool) (e : Errc) (k : Expected A) {a : A}
    → (require b e >> k) ≡ ok a
    → (b ≡ true) × (k ≡ ok a)
require_cases true e k h = (refl, h)
require_cases false e k h = cc
