-- ===== src/Net/Options/Laws.antt =====
-- What `result` makes of the value that `option` left in the member.
use iouxx.Base.{
  Option, none, some, ℕ, zero, suc, ◌*◌, ◌-◌, ◌/◌, ◌%◌, ◌^◌, Bool, true, false, ltb-false, lt→ltb,
  ℤ, pos, negsuc, neg, quotient, IsInt, ◌≡◌, refl, ap, arith,
}
use iouxx.Ring.Setup.{to_uint32, uint32_max}
use iouxx.Noop.{to_int32}
use iouxx.Time.{nano, sub-pos, neg-neg, scale-neg, sub-neg, add-neg}
use iouxx.Net.Options.{
  is_positive, bool_option, bool_result, int_option, int_result, linger_option, linger_result,
  timeval_option, timeval_result, ip_mreqn_option, ip_mreqn_result, ipv6_mreq_option,
  ipv6_mreq_result,
}
use iouxx.Net.Options.Names.{OptvalBase}
use iouxx.Net.Options.Classes.{Member, Arguments, ResultType, option, result, optlen}

quotient-neg : (m : ℕ) → quotient (neg (pos m)) 1000 ≡ neg (pos (m / 1000))
quotient-neg zero = refl
quotient-neg (suc m) = refl

timeval_result-timeval_option :
    (time : ℤ) → timeval_result (timeval_option time) ≡ quotient time 1000
unfolding timeval_result timeval_option
timeval_result-timeval_option (pos n) =
    let q = n / nano in rw (sub-pos n (q * nano) (omega arith)) (ap pos (omega arith))
timeval_result-timeval_option (negsuc n) =
    let q = suc n / nano in
    rw
      (
        scale-neg q nano,
        neg-neg (q * nano),
        sub-neg (suc n) (q * nano) (omega arith),
        quotient-neg (suc n - q * nano),
        scale-neg q 1000000,
        add-neg (q * 1000000) ((suc n - q * nano) / 1000),
      )
      (ap (λ k. neg (pos k)) (omega arith))

to_int32-to_uint32 : (n : ℤ) → IsInt n → to_int32 (to_uint32 n) ≡ n
to_int32-to_uint32 (pos n) h =
    rw (lt→ltb (n % 2 ^ 32) (2 ^ 31) (omega arith)) (ap pos (omega arith))
to_int32-to_uint32 (negsuc n) h =
    rw (ltb-false (uint32_max - n % 2 ^ 32) (2 ^ 31) (omega arith)) (ap negsuc (omega arith))

bool_result-bool_option : (b : Bool) → bool_result (bool_option b) ≡ b
unfolding bool_result bool_option
bool_result-bool_option true = refl
bool_result-bool_option false = refl

linger_result-linger_option :
    (b : Bool) (seconds : ℤ)
    → IsInt seconds
    → linger_result (linger_option b seconds) ≡ (b, seconds)
unfolding linger_result linger_option
linger_result-linger_option true seconds h = ap (λ s. (true, s)) (to_int32-to_uint32 seconds h)
linger_result-linger_option false seconds h = ap (λ s. (false, s)) (to_int32-to_uint32 seconds h)

-- The size of the value that the manual pages give for each class, where it does not depend on the value.
abbrev pub fixed_size : OptvalBase → Option ℕ
fixed_size OptvalBase.bool_optval = some 4
fixed_size OptvalBase.int_optval = some 4
fixed_size OptvalBase.linger_optval = some 8
fixed_size OptvalBase.timeval_optval = some 16
fixed_size OptvalBase.string_optval = none
fixed_size OptvalBase.ip_mreqn_optval = some 12
fixed_size OptvalBase.ipv6_mreq_optval = some 20

-- What was said to `option` as the callback should be told of it.
abbrev pub as_read : (base : OptvalBase) → Arguments base → ResultType base
as_read OptvalBase.bool_optval value = value
as_read OptvalBase.int_optval value = value
as_read OptvalBase.linger_optval value = value
as_read OptvalBase.timeval_optval time = quotient time 1000
as_read OptvalBase.string_optval str = str
as_read OptvalBase.ip_mreqn_optval value = value
as_read OptvalBase.ipv6_mreq_optval value = value

-- The linger time is one that an `int` can hold.
unfoldable pub IsHeld : (base : OptvalBase) → Arguments base → Type 0
IsHeld OptvalBase.linger_optval (onoff, linger) = IsInt linger
IsHeld base value = Unit

pub result-option :
    (base : OptvalBase) (n : ℕ) (value : Arguments base)
    → fixed_size base ≡ some n
    → IsHeld base value
    → (result base (option base value)).0 ≡ as_read base value
unfolding result option IsHeld int_result int_option ip_mreqn_result ip_mreqn_option
    ipv6_mreq_result ipv6_mreq_option
result-option OptvalBase.bool_optval n value fixed held = bool_result-bool_option value
result-option OptvalBase.int_optval n value fixed held = refl
result-option OptvalBase.linger_optval n (onoff, linger) fixed held =
    linger_result-linger_option onoff linger held
result-option OptvalBase.timeval_optval n time fixed held = timeval_result-timeval_option time
result-option OptvalBase.string_optval n str fixed held = cc
result-option OptvalBase.ip_mreqn_optval n value fixed held = refl
result-option OptvalBase.ipv6_mreq_optval n value fixed held = refl

pub optlen-fixed_size :
    (base : OptvalBase) (n : ℕ) (m : Member base)
    → fixed_size base ≡ some n
    → some (optlen base m) ≡ fixed_size base
unfolding optlen
optlen-fixed_size OptvalBase.bool_optval n m fixed = refl
optlen-fixed_size OptvalBase.int_optval n m fixed = refl
optlen-fixed_size OptvalBase.linger_optval n m fixed = refl
optlen-fixed_size OptvalBase.timeval_optval n m fixed = refl
optlen-fixed_size OptvalBase.string_optval n m fixed = cc
optlen-fixed_size OptvalBase.ip_mreqn_optval n m fixed = refl
optlen-fixed_size OptvalBase.ipv6_mreq_optval n m fixed = refl

pub optlen-is_positive :
    (base : OptvalBase) (n : ℕ) (m : Member base)
    → fixed_size base ≡ some n
    → is_positive (pos (optlen base m)) ≡ true
unfolding optlen
optlen-is_positive OptvalBase.bool_optval n m fixed = refl
optlen-is_positive OptvalBase.int_optval n m fixed = refl
optlen-is_positive OptvalBase.linger_optval n m fixed = refl
optlen-is_positive OptvalBase.timeval_optval n m fixed = refl
optlen-is_positive OptvalBase.string_optval n m fixed = cc
optlen-is_positive OptvalBase.ip_mreqn_optval n m fixed = refl
optlen-is_positive OptvalBase.ipv6_mreq_optval n m fixed = refl
