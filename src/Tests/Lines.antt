-- ===== src/Tests/Lines.antt =====
-- Lines of input, and what the console prints.
use vsync.Prelude.{
  List, [], arith, codes, cstr, length, map, none, refl, replicate, some, ℕ, ◌++◌, ◌<◌, ◌∷◌, ◌≡◌,
}
use vsync.Machine.{Does, got, put}
use vsync.Readline.{shell_readline}
use vsync.Readline.Edit.{edit_line, edit_events, text_of}
use vsync.Readline.Lines.{shell_readline_enters, shell_readline_cancels}
use vsync.Tests.Bench.{bench_io, bench_laws, typing}

-- "goo", one character too many taken back, Enter, and more input.
shell_readline_enters_example :
    let line = edit_line 7 [] (codes "goo\u{8}") in
    (buf' : List ℕ) × Does bench_laws.input bench_laws.log
      (shell_readline bench_io 9 (replicate 8 1) 8)
      (typing (codes "goo\u{8}\rx"))
      (record { len = some (length line); buf = buf' })
      (edit_events 7 [] (codes "goo\u{8}") ++ got b'\r' ∷ map put (codes "\r\n"))
      (codes "x")
    × (cstr buf' ≡ text_of line)
    × (length line < 8)
    × (length buf' ≡ 8)
shell_readline_enters_example =
    shell_readline_enters bench_io bench_laws 9 (replicate 8 1) 8 (typing (codes "goo\u{8}\rx"))
      (codes "goo\u{8}") b'\r' (codes "x") (omega arith) refl refl refl (omega arith) refl

shell_readline_cancels_example :
    (buf' : List ℕ) × Does bench_laws.input bench_laws.log
      (shell_readline bench_io 9 (replicate 8 1) 8)
      (typing (codes "go\u{3}x"))
      (record { len = none; buf = buf' })
      (edit_events 7 [] (codes "go") ++ got 0x03 ∷ map put (codes "^C\r\n"))
      (codes "x")
    × (cstr buf' ≡ [])
    × (length buf' ≡ 8)
shell_readline_cancels_example =
    shell_readline_cancels bench_io bench_laws 9 (replicate 8 1) 8 (typing (codes "go\u{3}x"))
      (codes "go") 0x03 (codes "x") (omega arith) refl refl refl (omega arith) refl
