-- ===== src/Commands/Round.antt =====
-- The rounds of the loop of cmd_load, one for each kind of line.
use vsync.Prelude.{
  List, [], arith, codes, cstr, false, get_or, if◌then◌else◌, length, none, refl, some, true, ℕ,
  ◌%◌, ◌*◌, ◌+◌, ◌-◌, ◌<◌, ◌==◌, ◌^◌, ◌||◌, ◌∙◌, ◌∷◌, ◌≡◌,
}
use vsync.Machine.{M, Io, IoLaws, ◌>>◌}
use vsync.Console.{shell_puts}
use vsync.Console.Output.{shell_puts-cstr}
use vsync.Hex.{hex_to_uint32}
use vsync.Hex.Parse.{hex_meaning, hex_to_uint32_exact}
use vsync.Readline.{Line}
use vsync.Commands.Load.{load_report, load_error, load_line}
use vsync.Machine.Effects.{Prints}
use vsync.Console.Says.{◌then◌, Says, says_text, says_hex, says_dec, says_newline}
use vsync.Commands.Script.{is_last, is_comment, bad_text, report_text}

get_or-cstr : (s : List ℕ) → get_or (cstr s) 0 0 ≡ get_or s 0 0
get_or-cstr [] = refl
get_or-cstr (c ∷ s) = ground arith

module _ {S : Type 0} (io : Io S) (laws : IoLaws io) where
  pub puts-Prints : (s : List ℕ) → Prints laws.input laws.log (shell_puts io s) (cstr s)
  puts-Prints = shell_puts-cstr io laws

  text : (s : List ℕ) → Says laws.input laws.log (shell_puts io s) (cstr s)
  text = says_text io laws

  pub load_error-Prints :
      (buf : List ℕ) → Prints laws.input laws.log (load_error io buf) (bad_text (cstr buf))
  unfolding load_error
  load_error-Prints buf =
      (text (codes "Error: invalid hex '") then text buf then text (codes "'\r\n")).prints

  pub load_report-Prints :
      (addr cur count : ℕ)
      → count < 2 ^ 32
      → Prints laws.input laws.log (load_report io addr cur count) (report_text addr cur count)
  unfolding load_report
  load_report-Prints addr cur count h =
      (text (codes "Loaded ")
        then says_dec io laws count h
        then text (codes " words (")
        then says_dec io laws (count * 4 % 2 ^ 32) (omega arith)
        then text (codes " bytes) to ")
        then says_hex io laws addr
        then text (codes " - ")
        then says_hex io laws ((cur + 2 ^ 32 - 4) % 2 ^ 32)
        then says_newline io laws).prints

  -- A round, on a line whose text is in the buffer.
  module _ (next : List ℕ → ℕ → ℕ → M S (Unit {0})) (addr cur count : ℕ) (buf : List ℕ) where
    abbrev pub given : Line
    given = record { len = some (length (cstr buf)); buf = buf }

    pub load_line-last :
        is_last (cstr buf) ≡ true
        → load_line io next addr cur count given ≡ load_report io addr cur count
    unfolding load_line
    load_line-last last =
        let test : (length (cstr buf) == 0 || get_or buf 0 0 == b'.') ≡ true =
          rw (← get_or-cstr buf) last in
        rw (test, load_line)

    pub load_line-comment :
        is_last (cstr buf) ≡ false
        → is_comment (cstr buf) ≡ true
        → load_line io next addr cur count given ≡ next buf cur count
    unfolding load_line
    load_line-comment more comment =
        let test : (length (cstr buf) == 0 || get_or buf 0 0 == b'.') ≡ false =
          rw (← get_or-cstr buf) more in
        let test' : (get_or buf 0 0 == b'#' || get_or buf 0 0 == b'@') ≡ true =
          rw (← get_or-cstr buf) comment in
        rw (test, test', load_line)

    pub load_line-bad :
        is_last (cstr buf) ≡ false
        → is_comment (cstr buf) ≡ false
        → hex_meaning (cstr buf) ≡ none
        → load_line io next addr cur count given ≡ (load_error io buf >> next buf cur count)
    unfolding load_line
    load_line-bad more other bad =
        let test : (length (cstr buf) == 0 || get_or buf 0 0 == b'.') ≡ false =
          rw (← get_or-cstr buf) more in
        let test' : (get_or buf 0 0 == b'#' || get_or buf 0 0 == b'@') ≡ false =
          rw (← get_or-cstr buf) other in
        let read : hex_to_uint32 buf ≡ none = hex_to_uint32_exact buf ∙ bad in
        rw (test, test', read, load_line)

    pub load_line-word :
        (v : ℕ)
        → is_last (cstr buf) ≡ false
        → is_comment (cstr buf) ≡ false
        → hex_meaning (cstr buf) ≡ some v
        → load_line io next addr cur count given
          ≡ (io.store cur v >> next buf ((cur + 4) % 2 ^ 32) ((count + 1) % 2 ^ 32))
    unfolding load_line
    load_line-word v more other good =
        let test : (length (cstr buf) == 0 || get_or buf 0 0 == b'.') ≡ false =
          rw (← get_or-cstr buf) more in
        let test' : (get_or buf 0 0 == b'#' || get_or buf 0 0 == b'@') ≡ false =
          rw (← get_or-cstr buf) other in
        let read : hex_to_uint32 buf ≡ some v = hex_to_uint32_exact buf ∙ good in
        rw (test, test', read, load_line)
