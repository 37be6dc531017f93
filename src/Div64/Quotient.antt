-- ===== src/Div64/Quotient.antt =====
-- div64by32 against `/` and `%` on the 64-bit number.
use vsync.Prelude.{ap, arith, mod-eq_of_lt, sym, ℕ, ◌%◌, ◌*◌, ◌+◌, ◌/◌, ◌<◌, ◌^◌, ◌≡◌, ◌≤◌}
use native.Mathlib.Nat.{mul-add-div_right, mul-add-mod_self_right, div-eq_of_lt, add-zero}
use vsync.Div64.{div64by32, uptime_of}
use vsync.Div64.Word.{div_word_lem}

div_of : (n c d r : ℕ) → r < d → n ≡ c * d + r → (n / d ≡ c) × (n % d ≡ r)
div_of n c d r h e = (
  rw (e, mul-add-div_right {m = d} (omega arith), div-eq_of_lt h, add-zero),
  rw (e, mul-add-mod_self_right, mod-eq_of_lt h),
)

-- The long division of the two words, in one equation.
long_division :
    (hi lo divisor : ℕ)
    → hi < 2 ^ 32
    → lo < 2 ^ 32
    → 0 < divisor
    → divisor ≤ 2 ^ 31
    → let d = div64by32 hi lo divisor in
      (hi * 2 ^ 32 + lo ≡ (d.q_hi * 2 ^ 32 + d.q_lo) * divisor + d.remainder)
      × (d.remainder < divisor)
      × (d.q_lo < 2 ^ 32)
unfolding div64by32
long_division hi lo divisor hh hl some_divisor h =
    let (c1, r1, e1, h1, b1, eq1) = div_word_lem 32 hi divisor 0 0 h some_divisor in
    let (c2, r2, e2, h2, b2, eq2) = div_word_lem 32 lo divisor 0 r1 h h1 in
    rw (e1, e2) (omega (arith, ap (λ (t : ℕ). t * 2 ^ 32) eq1), h2, omega arith)

-- For 32-bit words and a divisor from 1 to 2 ^ 31, `div64by32` returns the low 32 bits of the
-- quotient of the 64-bit number `hi : lo`, and stores the remainder; `q_hi` is the high half of the
-- quotient.
pub div64by32-div :
    (hi lo divisor : ℕ)
    → hi < 2 ^ 32
    → lo < 2 ^ 32
    → 0 < divisor
    → divisor ≤ 2 ^ 31
    → let n = hi * 2 ^ 32 + lo in
      let d = div64by32 hi lo divisor in
      (d.q_lo ≡ n / divisor % 2 ^ 32)
      × (d.q_hi ≡ n / divisor / 2 ^ 32)
      × (d.remainder ≡ n % divisor)
div64by32-div hi lo divisor hh hl some_divisor h =
    let n = hi * 2 ^ 32 + lo in
    let d = div64by32 hi lo divisor in
    let (whole, below, fits) = long_division hi lo divisor hh hl some_divisor h in
    let (q, r) = div_of n (d.q_hi * 2 ^ 32 + d.q_lo) divisor d.remainder below whole in
    (omega (arith, q, fits), omega (arith, q, fits), sym r)

-- The split of a number of seconds is exact, and hours, minutes and seconds are in range.
pub uptime_of_exact :
    (total_sec : ℕ)
    → let u = uptime_of total_sec in
      (u.days * 86400 + u.hours * 3600 + u.mins * 60 + u.secs ≡ total_sec)
      × (u.hours < 24)
      × (u.mins < 60)
      × (u.secs < 60)
unfolding uptime_of
uptime_of_exact total_sec = omega arith
