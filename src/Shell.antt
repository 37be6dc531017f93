-- ===== src/Shell.antt =====
-- sw/examples/shell.c: the command table, dispatch_command and the command loop of main.
pub mod Table
pub mod Dispatch
pub mod Prompt
pub mod Rounds
pub mod Returns
pub mod Monitor
pub mod Main
use vsync.Prelude.{List, Option, [], drop, if◌then◌else◌, map, none, some, suc, zero, ℕ, ◌==◌, ◌∷◌}
use Prim.Native.String.{String}
use vsync.Machine.{M, Io, pure, fault, ◌>>=◌, ◌>>◌}
use vsync.Console.{shell_puts, shell_newline}
use vsync.Readline.{Line, shell_readline}
use vsync.Args.{Parsed, parse_args}
use vsync.Commands.{say}
use vsync.Commands.Memory.{cmd_peek, cmd_poke}
use vsync.Commands.Load.{cmd_load, cmd_go, cmd_buf_size}
use vsync.Commands.Registers.{cmd_rtos, cmd_gpio, cmd_uart, is_word_arg}
use vsync.Commands.System.{cmd_help, cmd_info, cmd_uptime}

-- The handlers.
pub data Command : Type 0 where
  help peek poke load go rtos gpio uart info uptime : Command

-- cmd_table: names and handlers (the help texts are never read).
abbrev pub cmd_table : List (String × Command)
cmd_table =
    ("help", help)
    ∷ ("peek", peek)
    ∷ ("poke", poke)
    ∷ ("load", load)
    ∷ ("go", go)
    ∷ ("rtos", rtos)
    ∷ ("gpio", gpio)
    ∷ ("uart", uart)
    ∷ ("info", info)
    ∷ ("uptime", uptime)
    ∷ []

-- The loop of dispatch_command over the table.
unfoldable pub find_command : List (String × Command) → List ℕ → Option Command
find_command [] word = none
find_command ((name, cmd) ∷ table) word =
    let rest = find_command table word in if is_word_arg word name then some cmd else rest

-- The rounds that the spin loops and the loops over the input are given.
pub record Fuel : Type 0 where
  pub keys : ℕ
  pub lines : ℕ
  pub polls : ℕ

module _ {S : Type 0} (io : Io S) (fuel : Fuel) where
  unfoldable pub run_command : Command → List ℕ → List (List ℕ) → M S (Unit {0})
  run_command help line_buf args = cmd_help io
  run_command peek line_buf args = cmd_peek io args
  run_command poke line_buf args = cmd_poke io args
  run_command load line_buf args = cmd_load io fuel.lines fuel.keys line_buf args
  run_command go line_buf args = cmd_go io fuel.polls args
  run_command rtos line_buf args = cmd_rtos io
  run_command gpio line_buf args = cmd_gpio io args
  run_command uart line_buf args = cmd_uart io
  run_command info line_buf args = cmd_info io
  run_command uptime line_buf args = cmd_uptime io fuel.polls

  unfoldable pub unknown_command : List ℕ → M S (Unit {0})
  unknown_command word = do
    say io "Unknown command: "
    shell_puts io word
    say io "\r\nType 'help' for command list.\r\n"

  -- `line_buf` is the static buffer of cmd_load.
  unfoldable pub dispatch_command : List ℕ → List ℕ → M S (Unit {0})
  dispatch_command line_buf line =
      let parsed = parse_args line in
      elim (map (λ p. drop p parsed.buf) parsed.argv) [
        | [] ↦ pure tt
        | word ∷ args ↦ elim (find_command cmd_table word) [
          | none ↦ unknown_command word
          | some cmd ↦ run_command cmd line_buf (word ∷ args)
        ]
      ]

  unfoldable pub banner : M S (Unit {0})
  banner = do
    say io "\r\n"
    say io "========================================\r\n"
    say io "  VSync Monitor Shell v1.0\r\n"
    say io "  RISC-V RV32IM Hardware RTOS Processor\r\n"
    say io "  UART: 115200 8N1\r\n"
    say io "========================================\r\n"
    say io "Type 'help' for command list.\r\n"
    shell_newline io

  -- One round of the loop of main; it returns the new contents of cmd_buf. The memory of the line
  -- after dispatch_command is dropped: shell_readline clears the buffer.
  unfoldable pub shell_round : List ℕ → List ℕ → M S (List ℕ)
  shell_round line_buf cmd_buf = do
    say io "vsync> "
    line ← shell_readline io fuel.keys cmd_buf cmd_buf_size
    elim line.len [
      | none ↦ pure line.buf
      | some len ↦
          if len == 0 then pure line.buf else dispatch_command line_buf line.buf >> pure line.buf
    ]

  -- The loop, for a number of rounds.
  unfoldable pub shell_loop : ℕ → List ℕ → List ℕ → M S (List ℕ)
  shell_loop zero line_buf cmd_buf = pure cmd_buf
  shell_loop (suc n) line_buf cmd_buf = do
    cmd_buf' ← shell_round line_buf cmd_buf
    shell_loop n line_buf cmd_buf'
