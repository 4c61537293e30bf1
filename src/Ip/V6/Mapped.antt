-- ===== src/Ip/V6/Mapped.antt =====
-- The IPv4-mapped addresses of address_v6: their texts, and the IPv4 address that they hold.
use iouxx.Base.{
  ℕ, ◌+◌, ◌*◌, ◌/◌, ◌%◌, ◌<◌, ◌^◌, true, false, List, [], ◌∷◌, ◌++◌, ◌≡◌, refl, sym, ap, ap₂, subst,
  ◌∙◌, arith, codes, All,
}
use iouxx.Base.Result.{ok}
use iouxx.Ip.Bytes.{
  Endian, little, big, IsByte, load_32, store_32-IsByte, store_32_parts, load_32-store_32, hton_16,
  from_halves-hton_16, hton_words,
}
use iouxx.Ip.V4.{AddressV4, format_parts, to_string}
use iouxx.Ip.V6.{AddressV6, is_ipv4_mapped, to_ipv4_mapped}
use iouxx.Ip.V6.Format.{groups}
use iouxx.Ip.V6.Parse.{from_string}
use iouxx.Ip.V6.Parse.Forms.{from_string-compressed}
use iouxx.Ip.V6.Parse.Fill.{quad}
use iouxx.Ip.V6.Format.Shape.{groups-AreGroups}
use iouxx.Ip.V4.Print.{length-format_parts}
use iouxx.Text.Number.{format_hex}

abbrev mapped_words : ℕ → ℕ → List ℕ
mapped_words v w = 0 ∷ 0 ∷ 0 ∷ 0 ∷ 0 ∷ 0xffff ∷ v ∷ w ∷ []

hton_words-mapped :
    (e : Endian) (v w : ℕ)
    → hton_words e (mapped_words v w) ≡ mapped_words (hton_16 e v) (hton_16 e w)
unfolding hton_words hton_16
hton_words-mapped little v w = refl
hton_words-mapped big v w = refl

bytes_of_words :
    (p q r s : ℕ)
    → All IsByte (p ∷ q ∷ r ∷ s ∷ [])
    → (256 * p + q) / 256 ∷ (256 * p + q) % 256 ∷ (256 * r + s) / 256 ∷ (256 * r + s) % 256 ∷ []
      ≡ p ∷ q ∷ r ∷ s ∷ []
bytes_of_words p q r s h =
    ap₂ ◌∷◌ (omega arith)
      (ap₂ ◌∷◌ (omega arith) (ap₂ ◌∷◌ (omega arith) (ap₂ ◌∷◌ (omega arith) refl)))

to_ipv4_mapped-quad :
    (e : Endian) (p q r s : ℕ)
    → All IsByte (p ∷ q ∷ r ∷ s ∷ [])
    → to_ipv4_mapped e
        (record { addr = mapped_words (hton_16 e (256 * p + q)) (hton_16 e (256 * r + s)) })
      ≡ record { addr = load_32 e (p ∷ q ∷ r ∷ s ∷ []) }
unfolding to_ipv4_mapped load_32
to_ipv4_mapped-quad e p q r s h =
    ap (λ n. record { addr = n })
      (from_halves-hton_16 e (256 * p + q) (256 * r + s) (omega arith) (omega arith)
        ∙ ap (load_32 e) (bytes_of_words p q r s h))

-- The address that the text of four bytes stands for.
mapped_read :
    (e : Endian) (p q r s : ℕ)
    → All IsByte (p ∷ q ∷ r ∷ s ∷ [])
    → from_string e (codes "::ffff:" ++ format_parts (p ∷ q ∷ r ∷ s ∷ []))
      ≡ ok (record { addr = mapped_words (hton_16 e (256 * p + q)) (hton_16 e (256 * r + s)) })
unfolding format_hex
mapped_read e p q r s h =
    let prefix = 0xffff ∷ [] in
    from_string-compressed e [] prefix [] (groups true false prefix) (quad p q r s) tt
      (groups-AreGroups true false prefix (omega arith)) h (omega arith)
      (omega (arith, length-format_parts p q r s h))
    ∙ ap (λ ws. ok (record { addr = ws })) (hton_words-mapped e (256 * p + q) (256 * r + s))

-- For every 32-bit IPv4 address, address_v6::from_string reads "::ffff:" with the text of that
-- address behind it as an IPv4-mapped address, of which to_ipv4_mapped gives that address back.
pub to_ipv4_mapped-from_string :
    (e : Endian) (v4 : AddressV4)
    → v4.addr < 2 ^ 32
    → (v6 : AddressV6) × (from_string e (codes "::ffff:" ++ to_string e v4) ≡ ok v6)
      × (is_ipv4_mapped v6 ≡ true)
      × (to_ipv4_mapped e v6 ≡ v4)
unfolding to_string is_ipv4_mapped
to_ipv4_mapped-from_string e v4 h =
    let (p, q, r, s, parts) = store_32_parts e v4.addr in
    let bytes : All IsByte (p ∷ q ∷ r ∷ s ∷ []) =
      subst (All IsByte) parts (store_32-IsByte e v4.addr) in
    (
      record { addr = mapped_words (hton_16 e (256 * p + q)) (hton_16 e (256 * r + s)) },
      ap (λ ws. from_string e (codes "::ffff:" ++ format_parts ws)) parts
          ∙ mapped_read e p q r s bytes,
      refl,
      to_ipv4_mapped-quad e p q r s bytes
          ∙ ap (λ n. record { addr = n })
              (ap (load_32 e) (sym parts) ∙ load_32-store_32 e v4.addr h),
    )
