-- ===== src/Console.antt =====
-- sw/examples/shell.c: shell_puts, shell_newline, shell_put_hex, shell_put_dec, over the console.
-- The static buffers hex_buf and dec_buf start as zeros here; what uint32_to_hex and uint32_to_dec
-- return does not depend on their old contents (Hex.Print, Decimal.Print).
pub mod Output
pub mod Says
use vsync.Prelude.{List, [], codes, false, none, some, true, ℕ, ◌==◌, ◌∷◌}
use vsync.Machine.{M, Io, pure, fault, ◌>>=◌, ◌>>◌}
use vsync.Hex.{uint32_to_hex, hex_buf_init}
use vsync.Decimal.{uint32_to_dec, dec_buf_init}

module _ {S : Type 0} (io : Io S) where
  -- `while (*s) shell_putchar(*s++);`
  unfoldable pub shell_puts : List ℕ → M S (Unit {0})
  shell_puts [] = pure tt
  shell_puts (c ∷ s) = elim (c == 0) [ true ↦ pure tt | false ↦ io.putchar c >> shell_puts s ]

  unfoldable pub shell_newline : M S (Unit {0})
  shell_newline = shell_puts (codes "\r\n")

  unfoldable pub shell_put_hex : ℕ → M S (Unit {0})
  shell_put_hex val = shell_puts (codes "0x") >> shell_puts (uint32_to_hex val hex_buf_init)

  unfoldable pub shell_put_dec : ℕ → M S (Unit {0})
  shell_put_dec val = elim (uint32_to_dec val dec_buf_init) [ none ↦ fault | some s ↦ shell_puts s ]
