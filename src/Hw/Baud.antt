-- ===== src/Hw/Baud.antt =====
-- The divisor that UART_BAUD_DIV_CALC gives, and others.
use vsync.Prelude.{
  Bool-cases, arith, inl, inr, leb, ℕ, ◌%◌, ◌*◌, ◌+◌, ◌-◌, ◌/◌, ◌<◌, ◌==◌, ◌≡◌, ◌≤◌,
}
use native.Mathlib.Nat.{mul-le-mul_right, div-add-mod', mod-lt}
use vsync.Hw.{uart_baud_div_calc}

-- How far a divisor is off, in clock ticks per second: `|clk_hz - d * baud|`.
unfoldable pub error : ℕ → ℕ → ℕ → ℕ
error clk_hz baud d = (clk_hz - d * baud) + (d * baud - clk_hz)

-- For a baud rate above 0 no divisor is nearer to the clock than the one that is calculated.
pub uart_baud_div_calc-nearest :
    (clk_hz baud d : ℕ)
    → 0 < baud
    → error clk_hz baud (uart_baud_div_calc clk_hz baud) ≤ error clk_hz baud d
unfolding uart_baud_div_calc error
uart_baud_div_calc-nearest clk_hz baud d pos =
    let q = (clk_hz + baud / 2) / baud in
    let split : q * baud + (clk_hz + baud / 2) % baud ≡ clk_hz + baud / 2 =
      div-add-mod' (clk_hz + baud / 2) baud in
    let small = mod-lt (clk_hz + baud / 2) pos in
    elim (Bool-cases (leb d q)) [
      | inl low ↦ elim (Bool-cases (d == q)) [
        | inl same ↦ let e : d ≡ q = ground arith in rw e (omega arith)
        | inr other ↦
            let below : d + 1 ≤ q = ground arith in
            let step : (d + 1) * baud ≤ q * baud = mul-le-mul_right baud below in
            omega (arith, split, small, step)
      ]
      | inr high ↦
          let above : q + 1 ≤ d = ground arith in
          let step : (q + 1) * baud ≤ d * baud = mul-le-mul_right baud above in
          omega (arith, split, small, step)
    ]
