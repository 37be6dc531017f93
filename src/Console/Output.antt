-- ===== src/Console/Output.antt =====
-- What the printing functions print.
use vsync.Prelude.{
  Bool-cases, List, [], append-nil, codes, cstr, cstr-append, fun_ext, inl, inr, refl, subst, sym,
  ℕ, ◌++◌, ◌<◌, ◌==◌, ◌^◌, ◌∷◌, ◌≡◌,
}
use vsync.Machine.{M, Io, IoLaws}
use vsync.Machine.Effects.{Prints, Prints-then}
use vsync.Hex.{hex_buf_init, uint32_to_hex}
use vsync.Hex.Print.{hex_digits, uint32_to_hex-digits, all-hex_digits}
use vsync.Hex.RoundTrip.{all-nonzero}
use vsync.Decimal.{dec_buf_init}
use vsync.Decimal.Print.{dec_text, uint32_to_dec-text}
use vsync.Decimal.RoundTrip.{cstr-dec_text}
use vsync.Console.{shell_puts, shell_newline, shell_put_hex, shell_put_dec}

module _ {S : Type 0} (io : Io S) (laws : IoLaws io) where
  pub shell_puts-cstr : (s : List ℕ) → Prints laws.input laws.log (shell_puts io s) (cstr s)
  unfolding shell_puts
  shell_puts-cstr [] = λ st. (st, refl, refl, sym (append-nil _))
  shell_puts-cstr (c ∷ s) = elim (Bool-cases (c == 0)) [
    | inl z ↦ rw (z, shell_puts) (λ st. (st, refl, refl, sym (append-nil _)))
    | inr n ↦
        rw (n, shell_puts)
          (Prints-then laws.input laws.log (io.putchar c) (shell_puts io s) (c ∷ []) (cstr s)
            (λ st. laws.putchar_law st c) (shell_puts-cstr s))
  ]

  pub shell_newline-crlf : Prints laws.input laws.log (shell_newline io) (codes "\r\n")
  unfolding shell_newline
  shell_newline-crlf = shell_puts-cstr (codes "\r\n")

  -- `shell_put_hex` prints "0x" and the eight hexadecimal digits of the value.
  pub shell_put_hex-digits :
      (v : ℕ) → Prints laws.input laws.log (shell_put_hex io v) (codes "0x" ++ hex_digits 8 v)
  unfolding shell_put_hex
  shell_put_hex-digits v =
      let text = uint32_to_hex v hex_buf_init in
      let e : cstr text ≡ hex_digits 8 v =
        rw (uint32_to_hex-digits v hex_buf_init refl)
          (cstr-append (hex_digits 8 v) [] (all-nonzero (hex_digits 8 v) (all-hex_digits 8 v))) in
      rw (← e) (
        Prints-then laws.input laws.log (shell_puts io (codes "0x")) (shell_puts io text)
          (codes "0x") (cstr text) (shell_puts-cstr (codes "0x")) (shell_puts-cstr text))

  shell_put_dec-puts :
      (v : ℕ) → v < 2 ^ 32 → shell_put_dec io v ≡ shell_puts io (dec_text v ++ 0 ∷ [])
  unfolding shell_put_dec
  shell_put_dec-puts v h = fun_ext λ s. rw (uint32_to_dec-text v dec_buf_init h refl, shell_put_dec)

  -- `shell_put_dec` prints the decimal text of a 32-bit value, with no fault.
  pub shell_put_dec-text :
      (v : ℕ) → v < 2 ^ 32 → Prints laws.input laws.log (shell_put_dec io v) (dec_text v)
  shell_put_dec-text v h =
      subst (λ (t : List ℕ). Prints laws.input laws.log (shell_put_dec io v) t) (cstr-dec_text v [])
        (subst (λ (m : M S (Unit {0})). Prints laws.input laws.log m (cstr (dec_text v ++ 0 ∷ [])))
          (sym (shell_put_dec-puts v h)) (shell_puts-cstr (dec_text v ++ 0 ∷ [])))
