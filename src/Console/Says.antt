-- ===== src/Console/Says.antt =====
-- Code that only prints, put together from its parts.
use vsync.Prelude.{List, codes, cstr, ℕ, ◌++◌, ◌<◌, ◌^◌}
use vsync.Machine.{M, Io, IoLaws, Event, ◌>>◌}
use vsync.Machine.Effects.{Prints, Prints-then}
use vsync.Console.{shell_puts, shell_newline, shell_put_hex, shell_put_dec}
use vsync.Console.Output.{
  shell_puts-cstr, shell_newline-crlf, shell_put_hex-digits, shell_put_dec-text,
}
use vsync.Hex.Print.{hex_digits}
use vsync.Decimal.Print.{dec_text}

-- Code that prints the text `out` and does nothing else.
pub record Says {S : Type 0} (input : S → List ℕ) (log : S → List Event) (m : M S (Unit {0}))
    (out : List ℕ) : Type 0 where
  pub prints : Prints input log m out

infixr 5 ◌then◌
pub ◌then◌ :
    {S : Type 0} {input : S → List ℕ} {log : S → List Event} {m k : M S (Unit {0})} {a b : List ℕ}
    → Says input log m a
    → Says input log k b
    → Says input log (m >> k) (a ++ b)
◌then◌ {input = input} {log} p q = record {
  prints = Prints-then input log _ _ _ _ p.prints q.prints;
}

module _ {S : Type 0} (io : Io S) (laws : IoLaws io) where
  pub says_text : (s : List ℕ) → Says laws.input laws.log (shell_puts io s) (cstr s)
  says_text s = record { prints = shell_puts-cstr io laws s }

  pub says_hex :
      (v : ℕ) → Says laws.input laws.log (shell_put_hex io v) (codes "0x" ++ hex_digits 8 v)
  says_hex v = record { prints = shell_put_hex-digits io laws v }

  pub says_dec : (v : ℕ) → v < 2 ^ 32 → Says laws.input laws.log (shell_put_dec io v) (dec_text v)
  says_dec v h = record { prints = shell_put_dec-text io laws v h }

  pub says_newline : Says laws.input laws.log (shell_newline io) (codes "\r\n")
  says_newline = record { prints = shell_newline-crlf io laws }
