-- ===== src/Div64/Word.antt =====
-- One word of the long division.
use vsync.Prelude.{
  Bool-cases, ap, arith, bit_or, bit_or-add, div-add-mod, inl, inr, leb, mod-eq_of_lt, mod-lt,
  mul-add-mod_self_left, one-le-pow, pow-suc, suc, zero, ℕ, ◌%◌, ◌*◌, ◌+◌, ◌-◌, ◌/◌, ◌<◌, ◌^◌, ◌∙◌,
  ◌≡◌, ◌≤◌,
}
use vsync.Div64.{div_word}
use native.Mathlib.Nat.{add-zero}
use vsync.Div64.{div_bit}

double : (a k : ℕ) → a * 2 ^ suc k ≡ a * 2 * 2 ^ k
double a k = omega (arith, ap (λ (t : ℕ). a * t) (pow-suc 2 k))

shift_in :
    (rem bit : ℕ) → rem < 2 ^ 31 → bit < 2 → bit_or (rem * 2 ^ 1 % 2 ^ 32) bit ≡ rem * 2 + bit
shift_in rem bit h hb = ground (arith, bit_or-add 1 rem bit)

set_bit : (a k : ℕ) → bit_or (a * 2 ^ suc k) (2 ^ k) ≡ (a * 2 + 1) * 2 ^ k
set_bit a k =
    ground
      (arith, bit_or-add (suc k) a (2 ^ k), double a k, pow-suc 2 k, one-le-pow k 2 (omega arith))

-- A round brings in one bit of the word and finds one bit of the quotient, `b`.
div_bit_lem :
    (word divisor k a rem : ℕ)
    → divisor ≤ 2 ^ 31
    → rem < divisor
    → (b r : ℕ) × (div_bit word divisor k (record { rem = rem; q = a * 2 ^ suc k })
        ≡ record { rem = r; q = (a * 2 + b) * 2 ^ k })
      × (r < divisor)
      × (b < 2)
      × (rem * 2 + word / 2 ^ k % 2 ≡ b * divisor + r)
unfolding div_bit
div_bit_lem word divisor k a rem h below =
    let bit = word / 2 ^ k % 2 in
    let e = shift_in rem bit (omega arith) (omega arith) in
    elim (Bool-cases (leb divisor (rem * 2 + bit))) [
      | inl fits ↦ (
        1,
        rem * 2 + bit - divisor,
        rw (e, fits, set_bit),
        ground arith,
        omega arith,
        ground arith,
      )
      | inr less ↦ (
        0,
        rem * 2 + bit,
        rw (e, less, double, add-zero),
        ground arith,
        omega arith,
        ground arith,
      )
    ]

-- Arithmetic of one bit `b` over the `m = 2 ^ k` values of the bits below it.
bits_lt : (b c m : ℕ) → b < 2 → c < m → b * m + c < m * 2
bits_lt zero c m hb hc = omega arith
bits_lt (suc zero) c m hb hc = omega arith
bits_lt (suc (suc b)) c m hb hc = absurd (omega arith)

append_bits : (a b c m : ℕ) → (a * 2 + b) * m + c ≡ a * (m * 2) + (b * m + c)
append_bits a b c m = omega arith

round :
    (rem bit b divisor r1 m w c r : ℕ)
    → rem * 2 + bit ≡ b * divisor + r1
    → r1 * m + w ≡ c * divisor + r
    → rem * (m * 2) + (bit * m + w) ≡ (b * m + c) * divisor + r
round rem bit b divisor r1 m w c r h k = omega (arith, ap (λ (t : ℕ). t * m) h)

-- The low `k + 1` bits are bit `k` and the low `k` bits.
mod-double : (w m : ℕ) → 0 < m → w % (m * 2) ≡ w / m % 2 * m + w % m
mod-double w m h =
    let low = w / m % 2 * m + w % m in
    let whole : w ≡ m * 2 * (w / m / 2) + low =
      omega (arith, div-add-mod w m, ap (λ (t : ℕ). m * t) (div-add-mod (w / m) 2)) in
    ap (λ (t : ℕ). t % (m * 2)) whole
    ∙ mul-add-mod_self_left (m * 2) (w / m / 2) low
    ∙ mod-eq_of_lt (bits_lt (w / m % 2) (w % m) m (omega arith) (mod-lt w h))

-- The loop over the low `k` bits divides them, behind the remainder so far: it appends the quotient
-- `c`, which has at most `k` bits, to `a`, and leaves the remainder.
pub div_word_lem :
    (k word divisor a rem : ℕ)
    → divisor ≤ 2 ^ 31
    → rem < divisor
    → (c r : ℕ) × (div_word k word divisor (record { rem = rem; q = a * 2 ^ k })
        ≡ record { rem = r; q = a * 2 ^ k + c })
      × (r < divisor)
      × (c < 2 ^ k)
      × (rem * 2 ^ k + word % 2 ^ k ≡ c * divisor + r)
unfolding div_word
div_word_lem zero word divisor a rem h below =
    (0, rem, rw add-zero, below, omega arith, omega arith)
div_word_lem (suc k) word divisor a rem h below =
    let (b, r1, e1, h1, hb, eq1) = div_bit_lem word divisor k a rem h below in
    let (c, r, e, hr, hc, eq) = div_word_lem k word divisor (a * 2 + b) r1 h h1 in
    let m = 2 ^ k in
    (
      b * m + c,
      r,
      rw (e1, e, append_bits a b c m, pow-suc),
      hr,
      rw pow-suc (bits_lt b c m hb hc),
      rw (pow-suc, mod-double word m (one-le-pow k 2 (omega arith)))
          (round rem (word / m % 2) b divisor r1 m (word % m) c r eq1 eq),
    )
