-- ===== src/Hex/RoundTrip.antt =====
-- hex_to_uint32 reads back what uint32_to_hex prints.
use vsync.Prelude.{
  List, [], all, arith, codes, cstr-append, length, none, not, refl, some, true, ℕ, ◌++◌, ◌<◌, ◌==◌,
  ◌^◌, ◌∷◌, ◌≡◌,
}
use vsync.Hex.Parse.{hex_reading}
use vsync.Hex.{hex_to_uint32, uint32_to_hex}
use vsync.Hex.Parse.{digit_value, is_hex, hex_to_uint32_exact, behind_prefix}
use vsync.Hex.Print.{
  hex_digits, all-hex_digits, length-hex_digits, hex_value-hex_digits, uint32_to_hex-digits,
}

no_digits : (digit_value 0 ≡ none) × (digit_value b'x' ≡ none) × (digit_value b'X' ≡ none)
unfolding digit_value
no_digits = (refl, refl, refl)

-- Digits hold no terminator and no prefix.
pub all-nonzero : (s : List ℕ) → all is_hex s ≡ true → all (λ c. not (c == 0)) s ≡ true
all-nonzero [] h = refl
all-nonzero (c ∷ s) h = ground (arith, no_digits, all-nonzero s)

behind_prefix-digits : (s : List ℕ) → all is_hex s ≡ true → behind_prefix s ≡ s
behind_prefix-digits [] h = refl
behind_prefix-digits (c ∷ []) h = ground arith
behind_prefix-digits (c ∷ x ∷ s) h = ground (arith, no_digits)

behind_prefix-prefixed : (s : List ℕ) → behind_prefix (codes "0x" ++ s) ≡ s
behind_prefix-prefixed s = refl

hex_reading-digits : (v : ℕ) → v < 2 ^ 32 → hex_reading (hex_digits 8 v) 0 0 ≡ some v
hex_reading-digits v h =
    ground (arith, all-hex_digits 8 v, length-hex_digits 8 v, hex_value-hex_digits 8 v)

-- For every 32-bit value, `hex_to_uint32` reads the text that `uint32_to_hex` leaves in hex_buf
-- as the value, also behind the "0x" that `shell_put_hex` prints.
pub hex_to_uint32-uint32_to_hex :
    (v : ℕ) (hex_buf : List ℕ)
    → v < 2 ^ 32
    → length hex_buf ≡ 9
    → (hex_to_uint32 (uint32_to_hex v hex_buf) ≡ some v)
      × (hex_to_uint32 (codes "0x" ++ uint32_to_hex v hex_buf) ≡ some v)
hex_to_uint32-uint32_to_hex v hex_buf h len =
    let clean =
      cstr-append (hex_digits 8 v) [] (all-nonzero (hex_digits 8 v) (all-hex_digits 8 v)) in
    (
      rw
          (
            hex_to_uint32_exact,
            uint32_to_hex-digits v hex_buf len,
            clean,
            behind_prefix-digits (hex_digits 8 v) (all-hex_digits 8 v),
          )
          (hex_reading-digits v h),
      rw (hex_to_uint32_exact, uint32_to_hex-digits v hex_buf len, clean, behind_prefix-prefixed)
          (hex_reading-digits v h),
    )
