-- ===== src/Tests/Rounds.antt =====
-- Lines typed at the prompt, and the registers that commands touch.
use vsync.Prelude.{
  List, [], arith, codes, cstr, length, map, refl, replicate, some, true, ℕ, ◌++◌, ◌∷◌, ◌≡◌,
}
use vsync.Machine.{Does, Event, ◌>>◌, pure}
use vsync.Readline.Edit.{edit_line, key_line}
use vsync.Args.Words.{words_from}
use vsync.Hex.Parse.{digit_value}
use vsync.Commands.{rtos_base, uart_base, gpio_base, word_align}
use vsync.Commands.Poke.{poke_events}
use vsync.Commands.Registers.{cmd_rtos, cmd_uart, cmd_gpio}
use vsync.Commands.System.{cmd_help, cmd_info}
use vsync.Commands.Accesses.{Accesses, write}
use vsync.Commands.Shows.{reads, rtos_registers, use_write, status-Accesses, cmd_gpio-Accesses}
use vsync.Shell.{Command, load, go, uptime, Fuel, gpio, run_command, shell_round}
use vsync.Shell.Table.{command_name}
use vsync.Shell.Prompt.{line_events}
use vsync.Shell.Rounds.{shell_round-runs, shell_round-pokes}
use vsync.Shell.Returns.{is_direct, shell_round_returns}
use vsync.Tests.Bench.{Bench, bench_io, bench_laws, typing}

abbrev fuel : Fuel
fuel = record { keys = 20; lines = 5; polls = 3 }

abbrev blank_buf : List ℕ
blank_buf = replicate 80 0

shell_round-runs_example :
    (s1 : Bench) × (args : List (List ℕ)) × (buf : List ℕ) × (shell_round bench_io fuel [] blank_buf
        (typing (codes "gpio read\rx"))
      ≡ (run_command bench_io fuel gpio [] args >> pure buf) s1)
    × (map cstr args ≡ codes "gpio" ∷ codes "read" ∷ [])
    × (s1.input ≡ codes "x")
    × (s1.log ≡ line_events (codes "gpio read") b'\r')
    × (length buf ≡ 80)
unfolding edit_line key_line words_from command_name
shell_round-runs_example =
    shell_round-runs bench_io bench_laws fuel [] blank_buf (typing (codes "gpio read\rx"))
      (codes "gpio read") b'\r' (codes "x") gpio (codes "read" ∷ []) refl refl refl (omega arith)
      refl refl

-- The second digit is typed wrongly and erased.
shell_round-pokes_example :
    (buf : List ℕ) × (r : ℕ × List ℕ) × Does bench_laws.input bench_laws.log
      (shell_round bench_io fuel [] blank_buf)
      (typing (codes "poke 0x12\u{8}3 FF\r"))
      buf
      (line_events (codes "poke 0x12\u{8}3 FF") b'\r' ++ poke_events 0x10 0xFF r.0)
      r.1
    × (length buf ≡ 80)
unfolding edit_line key_line words_from digit_value word_align
shell_round-pokes_example =
    shell_round-pokes bench_io bench_laws fuel [] blank_buf (typing (codes "poke 0x12\u{8}3 FF\r"))
      (codes "poke 0x12\u{8}3 FF") b'\r' [] (codes "0x13") (codes "FF") [] 0x13 0xFF refl refl refl
      (omega arith) refl refl refl refl

status-Accesses_example :
    Accesses bench_io bench_laws (cmd_help bench_io) []
    × Accesses bench_io bench_laws (cmd_info bench_io) []
    × Accesses bench_io bench_laws (cmd_rtos bench_io) (reads rtos_base rtos_registers)
    × Accesses bench_io bench_laws (cmd_uart bench_io) (reads uart_base (0x08 ∷ 0x0C ∷ 0x10 ∷ []))
status-Accesses_example = status-Accesses bench_io bench_laws

cmd_gpio-Accesses_example :
    Accesses bench_io bench_laws
      (cmd_gpio bench_io (codes "gpio" ∷ codes "write" ∷ codes "A5" ∷ []))
      (write gpio_base 0xA5 ∷ [])
unfolding digit_value
cmd_gpio-Accesses_example =
    cmd_gpio-Accesses bench_io bench_laws (codes "gpio" ∷ codes "write" ∷ codes "A5" ∷ [])
      (use_write (some 0xA5)) (omega arith, refl, refl)

-- "gpio" with an argument that it does not know.
gpio_line :
    (cmd : Command) (ws : List (List ℕ))
    → codes "gpio" ∷ codes "x" ∷ [] ≡ command_name cmd ∷ ws
    → is_direct cmd ≡ true
unfolding command_name
gpio_line load ws e = absurd (ground (arith, e))
gpio_line go ws e = absurd (ground (arith, e))
gpio_line uptime ws e = absurd (ground (arith, e))
gpio_line _ ws e = refl

shell_round_returns_example :
    (buf : List ℕ) × (s' : Bench) × (es : List Event) × (shell_round bench_io fuel [] blank_buf
        (typing (codes "gpio x\r"))
      ≡ some (buf, s'))
    × (length buf ≡ 80)
    × (s'.log ≡ line_events (codes "gpio x") b'\r' ++ es)
unfolding edit_line key_line words_from
shell_round_returns_example =
    shell_round_returns bench_io bench_laws fuel [] blank_buf (typing (codes "gpio x\r"))
      (codes "gpio x") b'\r' [] refl refl refl (omega arith) refl gpio_line
