-- ===== src/Readline.antt =====
-- sw/examples/shell.c: shell_readline, the line editor.
pub mod Edit
pub mod Buffer
pub mod Keys
pub mod Session
pub mod Lines
use vsync.Prelude.{
  List, Option, codes, if◌then◌else◌, ltb, none, set, some, suc, zero, ℕ, ◌+◌, ◌-◌, ◌==◌, ◌||◌,
}
use vsync.Machine.{M, Io, pure, fault, ◌>>=◌, ◌>>◌}
use vsync.Cstring.{shell_memset}
use vsync.Console.{shell_puts, shell_newline}

-- The return value, with `none` for the -1 of Ctrl-C, and the buffer.
pub record Line : Type 0 where
  pub len : Option ℕ
  pub buf : List ℕ

-- The tests of one round on the character `c`, and what each leads to.
unfoldable pub choose : {X : Type 0} → ℕ → ℕ → ℕ → X → X → X → X → X → X
choose size pos c enter cancel erase store continue =
    if c == b'\r' || c == b'\n'
    then enter
    else if c == 0x03
    then cancel
    else if c == 0x08 || c == 0x7F
    then (if ltb 0 pos then erase else continue)
    else if ltb c 0x20 || ltb 0x7E c
    then continue
    else if ltb pos (size - 1)
    then store
    else continue

module _ {S : Type 0} (io : Io S) where
  unfoldable pub enter_line : List ℕ → ℕ → M S Line
  enter_line buf pos = shell_newline io >> pure (record { len = some pos; buf = set buf pos 0 })

  unfoldable pub cancel_line : List ℕ → M S Line
  cancel_line buf =
      shell_puts io (codes "^C")
      >> (shell_newline io >> pure (record { len = none; buf = set buf 0 0 }))

  -- The loop `while (1)`, with fuel; each round reads one character.
  unfoldable pub readline_loop : ℕ → ℕ → List ℕ → ℕ → M S Line
  readline_loop zero size buf pos = fault
  readline_loop (suc fuel) size buf pos = do
    c ← io.getchar_blocking
    choose size pos c (enter_line buf pos) (cancel_line buf)
        (shell_puts io (codes "\u{8} \u{8}")
          >> readline_loop fuel size (set buf (pos - 1) 0) (pos - 1))
        (io.putchar c >> readline_loop fuel size (set buf pos c) (pos + 1))
        (readline_loop fuel size buf pos)

  unfoldable pub shell_readline : ℕ → List ℕ → ℕ → M S Line
  shell_readline fuel buf size = elim (shell_memset buf 0 size) [
    | none ↦ fault
    | some zeroed ↦ readline_loop fuel size zeroed 0
  ]
