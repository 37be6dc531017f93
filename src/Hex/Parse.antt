-- ===== src/Hex/Parse.antt =====
-- What hex_to_uint32 accepts and the value that it returns.
use vsync.Prelude.{
  Bool, List, Option, [], all, arith, bit_or-add, codes, cstr, drop, false, if◌then◌else◌, leb,
  length, none, not, pow-le-pow_right, pow-suc, refl, some, suc, true, ℕ, ◌&&◌, ◌*◌, ◌+◌, ◌<◌, ◌==◌,
  ◌^◌, ◌||◌, ◌∙◌, ◌∷◌, ◌≡◌, ◌≤◌,
}
use vsync.Hex.{hex_to_uint32}
use vsync.Hex.{skip_prefix}
use vsync.Hex.{hex_nibble, hex_shift, hex_loop}

-- The place of a character in a text.
abbrev pub index_of : ℕ → List ℕ → Option ℕ
index_of c [] = none
index_of c (d ∷ s) = elim (c == d) [
  | true ↦ some 0
  | false ↦ elim (index_of c s) [ none ↦ none | some i ↦ some (suc i) ]
]

-- The value of a digit is its place in the row of digits, in either case.
unfoldable pub digit_value : ℕ → Option ℕ
digit_value c = elim (index_of c (codes "0123456789ABCDEF")) [
  | none ↦ index_of c (codes "0123456789abcdef")
  | some i ↦ some i
]

abbrev pub is_some : Option ℕ → Bool
is_some none = false
is_some (some n) = true

abbrev pub value_or_zero : Option ℕ → ℕ
value_or_zero none = 0
value_or_zero (some n) = n

abbrev pub is_hex : ℕ → Bool
is_hex c = is_some (digit_value c)

-- The number that hexadecimal digits spell behind `val`, with no bound.
abbrev pub hex_value : ℕ → List ℕ → ℕ
hex_value val [] = val
hex_value val (c ∷ s) = hex_value (val * 16 + value_or_zero (digit_value c)) s

-- One to eight hexadecimal digits in all, `digits` of them behind us.
abbrev pub hex_reading : List ℕ → ℕ → ℕ → Option ℕ
hex_reading t val digits =
    if all is_hex t && not (digits + length t == 0) && leb (digits + length t) 8
    then some (hex_value val t)
    else none

pub hex_shift_lem : (val nib : ℕ) → val < 2 ^ 28 → nib < 16 → hex_shift val nib ≡ val * 16 + nib
unfolding hex_shift
hex_shift_lem val nib h k = ground (arith, bit_or-add 4 val nib)

hex_nibble-lt : (c n : ℕ) → hex_nibble c ≡ some n → n < 16
unfolding hex_nibble
hex_nibble-lt c n h = ground arith

pub hex_nibble-digit_value : (c : ℕ) → hex_nibble c ≡ digit_value c
unfolding hex_nibble digit_value
hex_nibble-digit_value c = ground arith

-- Fewer than eight digits leave room for one more.
room : (val digits : ℕ) → digits < 8 → val < 16 ^ digits → val < 2 ^ 28
room val digits h v =
    omega (arith, pow-le-pow_right {n = 16} (omega arith) {i = digits} {j = 7} (omega arith))

hex_loop-reading :
    (s : List ℕ) (val digits : ℕ)
    → digits ≤ 8
    → val < 16 ^ digits
    → hex_loop s val digits ≡ hex_reading (cstr s) val digits
unfolding hex_loop
hex_loop-reading [] val digits h v = ground arith
hex_loop-reading (c ∷ s) val digits h v =
    let nib = value_or_zero (digit_value c) in
    ground (
      arith,
      room val digits,
      hex_nibble-lt c nib,
      hex_nibble-digit_value c,
      hex_shift_lem val nib,
      pow-suc 16 digits,
      hex_loop-reading s (val * 16 + nib) (digits + 1),
    )

-- Whether a text begins with another.
abbrev pub begins : List ℕ → List ℕ → Bool
begins [] t = true
begins (p ∷ ps) [] = false
begins (p ∷ ps) (c ∷ t) = p == c && begins ps t

-- The text behind an optional "0x" or "0X".
abbrev pub behind_prefix : List ℕ → List ℕ
behind_prefix t = if begins (codes "0x") t || begins (codes "0X") t then drop 2 t else t

-- What is read: one to eight digits behind the optional prefix.
abbrev pub hex_meaning : List ℕ → Option ℕ
hex_meaning t = hex_reading (behind_prefix t) 0 0

skip_prefix-cstr : (s : List ℕ) → cstr (skip_prefix s) ≡ behind_prefix (cstr s)
unfolding skip_prefix
skip_prefix-cstr [] = refl
skip_prefix-cstr (c ∷ []) = ground arith
skip_prefix-cstr (c ∷ x ∷ s) = ground arith

-- `hex_to_uint32` succeeds exactly on one to eight hexadecimal digits behind an optional "0x" or
-- "0X", and then returns the number that they spell.
pub hex_to_uint32_exact : (s : List ℕ) → hex_to_uint32 s ≡ hex_meaning (cstr s)
unfolding hex_to_uint32
hex_to_uint32_exact s =
    hex_loop-reading (skip_prefix s) 0 0 (omega arith) (omega arith) ∙ rw skip_prefix-cstr
