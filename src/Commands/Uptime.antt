-- ===== src/Commands/Uptime.antt =====
-- cmd_uptime: what it shows.
use vsync.Prelude.{
  Bool-cases, List, [], append-nil, arith, codes, if◌then◌else◌, inl, inr, ltb, refl, sym, ℕ, ◌%◌,
  ◌*◌, ◌++◌, ◌+◌, ◌/◌, ◌<◌, ◌^◌, ◌∷◌,
}
use vsync.Machine.{M, Io, IoLaws, pure, ◌>>◌}
use vsync.Machine.Effects.{Prints, Prints-then}
use vsync.Console.{shell_put_dec}
use vsync.Console.Output.{
  shell_puts-cstr, shell_newline-crlf, shell_put_hex-digits, shell_put_dec-text,
}
use vsync.Decimal.Print.{dec_text}
use vsync.Div64.{div64by32, uptime_of}
use vsync.Div64.Quotient.{div64by32-div}
use vsync.Commands.{say, sys_clk_hz}
use vsync.Commands.System.{show_uptime}
use vsync.Commands.Poke.{hex_text}

-- Two digits.
abbrev pub two_text : ℕ → List ℕ
two_text n = (if ltb n 10 then b'0' ∷ [] else []) ++ dec_text n

abbrev pub days_text : ℕ → List ℕ
days_text days = if ltb 0 days then dec_text days ++ codes "d " else []

abbrev pub ticks_text : ℕ → ℕ → List ℕ
ticks_text hi lo = codes "Ticks : " ++ (hex_text hi ++ (codes "_" ++ (hex_text lo ++ codes "\r\n")))

-- The text for `sec` seconds, and for the ticks.
abbrev pub uptime_text : ℕ → ℕ → ℕ → List ℕ
uptime_text sec hi lo =
    codes "Uptime: "
    ++ (days_text (sec / 86400)
        ++ (two_text (sec % 86400 / 3600)
            ++ (codes ":"
                ++ (two_text (sec % 86400 % 3600 / 60)
                    ++ (codes ":"
                        ++ (two_text (sec % 86400 % 3600 % 60)
                            ++ (codes "\r\n" ++ ticks_text hi lo)))))))

module _ {S : Type 0} (io : Io S) (laws : IoLaws io) where
  abbrev Shows : M S (Unit {0}) → List ℕ → Type 0
  Shows = Prints laws.input laws.log

  Shows-then :
      (m k : M S (Unit {0})) (a b : List ℕ) → Shows m a → Shows k b → Shows (m >> k) (a ++ b)
  Shows-then = Prints-then laws.input laws.log

  Shows-nothing : Shows (pure tt) []
  Shows-nothing s = (s, refl, refl, sym (append-nil (laws.log s)))

  Shows-two_digits :
      (n : ℕ)
      → n < 2 ^ 32
      → Shows ((if ltb n 10 then io.putchar b'0' else pure tt) >> shell_put_dec io n) (two_text n)
  Shows-two_digits n h =
      Shows-then _ _ (if ltb n 10 then b'0' ∷ [] else []) (dec_text n)
        (elim (Bool-cases (ltb n 10)) [
          | inl small ↦ rw small (λ s. laws.putchar_law s b'0')
          | inr big ↦ rw big Shows-nothing
        ])
        (shell_put_dec-text io laws n h)

  Shows-days :
      (n : ℕ)
      → n < 2 ^ 32
      → Shows (if ltb 0 n then shell_put_dec io n >> say io "d " else pure tt) (days_text n)
  Shows-days n h = elim (Bool-cases (ltb 0 n)) [
    | inl some_days ↦ rw some_days (
        Shows-then _ _ (dec_text n) (codes "d ") (shell_put_dec-text io laws n h)
          (shell_puts-cstr io laws (codes "d ")))
    | inr no_days ↦ rw no_days Shows-nothing
  ]

  -- The steps of show_uptime.
  show_uptime-steps :
      (hi lo : ℕ)
      → let sec = (div64by32 hi lo sys_clk_hz).q_lo in
        sec < 2 ^ 32 → Shows (show_uptime io hi lo) (uptime_text sec hi lo)
  unfolding show_uptime uptime_of
  show_uptime-steps hi lo h =
      let sec = (div64by32 hi lo sys_clk_hz).q_lo in
      let days = sec / 86400 in
      let hours = sec % 86400 / 3600 in
      let mins = sec % 86400 % 3600 / 60 in
      let secs = sec % 86400 % 3600 % 60 in
      let text = shell_puts-cstr io laws in
      let hex = shell_put_hex-digits io laws in
      let char = λ (c : ℕ) (s : S). laws.putchar_law s c in
      let line = shell_newline-crlf io laws in
      let k1 = hex_text lo ++ codes "\r\n" in
      let k2 = codes "_" ++ k1 in
      let k3 = hex_text hi ++ k2 in
      let t1 = codes "\r\n" ++ ticks_text hi lo in
      let t2 = two_text secs ++ t1 in
      let t3 = codes ":" ++ t2 in
      let t4 = two_text mins ++ t3 in
      let t5 = codes ":" ++ t4 in
      let t6 = two_text hours ++ t5 in
      let t7 = days_text days ++ t6 in
      Shows-then _ _ (codes "Uptime: ") t7 (text (codes "Uptime: ")) (
        Shows-then _ _ (days_text days) t6 (Shows-days days (omega (arith, h))) (
          Shows-then _ _ (two_text hours) t5 (Shows-two_digits hours (omega (arith, h))) (
            Shows-then _ _ (codes ":") t4 (char b':') (
              Shows-then _ _ (two_text mins) t3 (Shows-two_digits mins (omega (arith, h))) (
                Shows-then _ _ (codes ":") t2 (char b':') (
                  Shows-then _ _ (two_text secs) t1 (Shows-two_digits secs (omega (arith, h))) (
                    Shows-then _ _ (codes "\r\n") (ticks_text hi lo) line (
                      Shows-then _ _ (codes "Ticks : ") k3 (text (codes "Ticks : ")) (
                        Shows-then _ _ (hex_text hi) k2 (hex hi) (
                          Shows-then _ _ (codes "_") k1 (char b'_')
                            (Shows-then _ _ (hex_text lo) (codes "\r\n") (hex lo) line)))))))))))

  -- For 32-bit words, `show_uptime` prints the number of seconds of the 64-bit number of ticks at
  -- 25 MHz, modulo 2 ^ 32, as days, hours, minutes and seconds, and then the ticks in hexadecimal.
  pub show_uptime-text :
      (hi lo : ℕ)
      → hi < 2 ^ 32
      → lo < 2 ^ 32
      → Prints laws.input laws.log
          (show_uptime io hi lo)
          (uptime_text ((hi * 2 ^ 32 + lo) / 25_000_000 % 2 ^ 32) hi lo)
  show_uptime-text hi lo hh hl =
      let (quotient, high, remainder) =
        div64by32-div hi lo sys_clk_hz hh hl (omega arith) (omega arith) in
      rw (← quotient) (show_uptime-steps hi lo (omega (arith, quotient)))
