-- ===== src/Ip/Endpoint.antt =====
-- The loop that `socket_v4_info` and `socket_v6_info` share: an address and a port behind a separator.
-- The parser of the address is a parameter.
use iouxx.Base.{
  ℕ, suc, not, List, [], ◌∷◌, ◌==◌, ltb, if◌then◌else◌, Bytes, ◌≡◌, ◌≢◌, refl, ◌∙◌, inl, inr,
}
use iouxx.Base.Result.{
  Expected, ok, unexpected, invalid_argument, ◌>>=◌, ◌>>◌, require, Expected-cases, ErrorCode,
}
use iouxx.Ip.Bytes.{Endian}
use iouxx.Ip.Port.{Port}
use iouxx.Ip.Port

pub record Endpoint (A : Type 0) : Type 0 where
  pub addr : A
  pub p : Port

error-ne : {A : Type 0} {ec : ErrorCode} {x : A} → unexpected ec ≢ ok x
error-ne h = cc

module _ {A : Type 0} (e : Endian) (parse_address : Bytes → Expected A) where
  -- The body of the loop behind the test of the count.
  pub parse_part : Bytes → ℕ → Endpoint A → Expected (Endpoint A)
  parse_part sub part_count s =
      if part_count == 1
      then (parse_address sub >>= λ a. ok (record s { addr = a }))
      else (Port.from_string e sub >>= λ p. ok (record s { p = p }))

  -- The number is `part_count` before the round.
  pub parse_parts : List Bytes → ℕ → Endpoint A → Expected (Endpoint A × ℕ)
  parse_parts [] part_count s = ok (s, part_count)
  parse_parts (sub ∷ parts) part_count s = do
    require (not (ltb 2 (suc part_count))) invalid_argument
    s' ← parse_part sub (suc part_count) s
    parse_parts parts (suc part_count) s'

  pub finish : Endpoint A × ℕ → Expected (Endpoint A)
  finish (s, part_count) = do require (part_count == 2) invalid_argument; ok s

  unfoldable pub from_parts : List Bytes → Endpoint A → Expected (Endpoint A)
  unfolding parse_part parse_parts finish
  from_parts parts s = parse_parts parts 0 s >>= finish

  -- An address and a port are read.
  pub from_parts_two :
      (sub more : Bytes) (s : Endpoint A) (a : A) (p : Port)
      → parse_address sub ≡ ok a
      → Port.from_string e more ≡ ok p
      → from_parts (sub ∷ more ∷ []) s ≡ ok (record { addr = a; p = p })
  unfolding from_parts
  from_parts_two sub more s a p ha hp = rw (ha, hp)

  pub record IsPair (parts : List Bytes) (x : Endpoint A) : Type 0 where
    pub sub : Bytes
    pub more : Bytes
    pub two : parts ≡ sub ∷ more ∷ []
    pub address : parse_address sub ≡ ok x.addr
    pub port : Port.from_string e more ≡ ok x.p

  -- Whatever is read comes from an address and a port.
  pub from_parts-IsPair :
      (parts : List Bytes) (s x : Endpoint A) → from_parts parts s ≡ ok x → IsPair parts x
  unfolding from_parts
  from_parts-IsPair [] s x h = cc
  from_parts-IsPair (sub ∷ []) s x h = elim (Expected-cases (parse_address sub)) [
    | inl (a, ha) ↦ absurd (error-ne (rw ha at h))
    | inr (ec, ha) ↦ absurd (error-ne (rw ha at h))
  ]
  from_parts-IsPair (sub ∷ more ∷ []) s x h = elim (Expected-cases (parse_address sub)) [
    | inl (a, ha) ↦ elim (Expected-cases (Port.from_string e more)) [
      | inl (p, hp) ↦
          let read : ok (record { addr = a; p = p }) ≡ ok x = rw (ha, hp) at h in
          record { sub = sub; more = more; two = refl; address = ha ∙ cc; port = hp ∙ cc }
      | inr (ec, hp) ↦ absurd (error-ne (rw (ha, hp) at h))
    ]
    | inr (ec, ha) ↦ absurd (error-ne (rw ha at h))
  ]
  from_parts-IsPair (sub ∷ more ∷ third ∷ parts) s x h = elim (Expected-cases (parse_address sub)) [
    | inl (a, ha) ↦ elim (Expected-cases (Port.from_string e more)) [
      | inl (p, hp) ↦ absurd (error-ne (rw (ha, hp) at h))
      | inr (ec, hp) ↦ absurd (error-ne (rw (ha, hp) at h))
    ]
    | inr (ec, ha) ↦ absurd (error-ne (rw ha at h))
  ]
