-- ===== src/Div64.antt =====
-- sw/examples/shell.c: div64by32, and the split of the uptime in cmd_uptime.
pub mod Word
pub mod Quotient
-- The variables of one of the two loops: `rem`, and `q_hi` or `q_lo`.
use vsync.Prelude.{bit_or, if◌then◌else◌, leb, suc, zero, ℕ, ◌%◌, ◌*◌, ◌-◌, ◌/◌, ◌^◌}

pub record Partial : Type 0 where
  pub rem : ℕ
  pub q : ℕ

-- One round at bit `i`: `rem = (rem << 1) | ((word >> i) & 1U)`, and the test against the divisor.
unfoldable pub div_bit : ℕ → ℕ → ℕ → Partial → Partial
div_bit word divisor i p =
    let rem = bit_or (p.rem * 2 ^ 1 % 2 ^ 32) (word / 2 ^ i % 2) in
    if leb divisor rem
    then record { rem = rem - divisor; q = bit_or p.q (2 ^ i) }
    else record { rem = rem; q = p.q }

-- `for (i = 31; i >= 0; i--)`; the first argument is `i + 1`.
unfoldable pub div_word : ℕ → ℕ → ℕ → Partial → Partial
div_word zero word divisor p = p
div_word (suc i) word divisor p = div_word i word divisor (div_bit word divisor i p)

-- What the function leaves in `q_hi`, `q_lo` and `rem`.
pub record Division : Type 0 where
  pub q_hi : ℕ
  pub q_lo : ℕ
  pub remainder : ℕ

-- The function returns `q_lo` and stores `remainder`.
unfoldable pub div64by32 : ℕ → ℕ → ℕ → Division
div64by32 hi lo divisor =
    let high = div_word 32 hi divisor (record { rem = 0; q = 0 }) in
    let low = div_word 32 lo divisor (record { rem = high.rem; q = 0 }) in
    record { q_hi = high.q; q_lo = low.q; remainder = low.rem }

-- The fields that cmd_uptime prints.
pub record Uptime : Type 0 where
  pub days : ℕ
  pub hours : ℕ
  pub mins : ℕ
  pub secs : ℕ

unfoldable pub uptime_of : ℕ → Uptime
uptime_of total_sec =
    let drem = total_sec % 86400 in
    record {
      days = total_sec / 86400;
      hours = drem / 3600;
      mins = drem % 3600 / 60;
      secs = drem % 3600 % 60;
    }
