-- ===== src/Hex/Word.antt =====
-- The bound of what hex_to_uint32 reads.
use vsync.Prelude.{
  List, [], arith, length, pow-le-pow_right, pow-suc, some, subst, suc, ℕ, ◌*◌, ◌+◌, ◌<◌, ◌^◌, ◌∷◌,
  ◌≡◌,
}
use vsync.Hex.Parse.{digit_value, value_or_zero, hex_value, hex_meaning, behind_prefix}

digit-lt : (c : ℕ) → value_or_zero (digit_value c) < 16
unfolding digit_value
digit-lt c = ground arith

hex_value-lt :
    (t : List ℕ) (val digits : ℕ) → val < 16 ^ digits → hex_value val t < 16 ^ (digits + length t)
hex_value-lt [] val digits h =
    let e : digits ≡ digits + 0 = omega arith in subst (λ n. val < 16 ^ n) e h
hex_value-lt (c ∷ t) val digits h =
    let step =
      hex_value-lt t (val * 16 + value_or_zero (digit_value c)) (suc digits)
        (omega (arith, digit-lt c, pow-suc 16 digits, h)) in
    let e : suc digits + length t ≡ digits + suc (length t) = omega arith in
    subst (λ n. hex_value (val * 16 + value_or_zero (digit_value c)) t < 16 ^ n) e step

pub hex_meaning-lt : (t : List ℕ) (v : ℕ) → hex_meaning t ≡ some v → v < 2 ^ 32
hex_meaning-lt t v h =
    let s = behind_prefix t in
    ground
      (arith, hex_value-lt s 0 0, pow-le-pow_right {n = 16} (omega arith) {i = length s} {j = 8})
