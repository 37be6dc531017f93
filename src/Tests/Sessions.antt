-- ===== src/Tests/Sessions.antt =====
-- Whole command lines, and a session of cmd_load.
use vsync.Prelude.{All, List, [], arith, codes, cstr, map, refl, replicate, take, ℕ, ◌∷◌, ◌≡◌, ◌≢◌}
use vsync.Machine.Effects.{Prints}
use vsync.Hex.Parse.{digit_value}
use vsync.Readline.Edit.{edit_line, key_line, edit_events, key_echo}
use vsync.Hex.Print.{hex_digits}
use vsync.Args.Words.{words_from}
use vsync.Commands.{word_align}
use vsync.Commands.Load.{cmd_load, address_arg}
use vsync.Commands.Stores.{Writes}
use vsync.Commands.Script.{Typed, IsBody, words_of, body_text, reply_text, end_text, abort_text}
use vsync.Commands.Loading.{session_text, cmd_load-Writes, cmd_load_aborts}
use vsync.Shell.{Command, help, Fuel, gpio, run_command, dispatch_command}
use vsync.Shell.Table.{command_name}
use vsync.Shell.Dispatch.{dispatch_command_runs, dispatch_command_unknown}
use vsync.Tests.Bench.{bench_io, bench_laws, typing}

abbrev some_fuel : Fuel
some_fuel = record { keys = 10; lines = 5; polls = 3 }

dispatch_command_runs_example :
    (args : List (List ℕ)) × (map cstr args ≡ codes "gpio" ∷ codes "read" ∷ [])
    × (dispatch_command bench_io some_fuel [] (codes " gpio  read")
        ≡ run_command bench_io some_fuel gpio [] args)
unfolding words_from command_name
dispatch_command_runs_example =
    dispatch_command_runs bench_io some_fuel [] (codes " gpio  read") gpio (codes "read" ∷ []) refl

no_command : (c : Command) → codes "!" ≢ command_name c
unfolding command_name
no_command help = ground arith
no_command _ = ground arith

dispatch_command_unknown_example :
    Prints bench_laws.input bench_laws.log
      (dispatch_command bench_io some_fuel [] (codes "!"))
      (codes "Unknown command: !\r\nType 'help' for command list.\r\n")
unfolding words_from command_name
dispatch_command_unknown_example =
    dispatch_command_unknown bench_io some_fuel [] (codes "!") bench_laws (codes "!") [] refl
      no_command

-- A word, a comment, a line that is no word, a word, and the end.
abbrev script : List Typed
script =
    record { keys = codes "0x13"; enter = b'\r' }
    ∷ record { keys = codes "# c"; enter = b'\n' }
    ∷ record { keys = codes "xyz"; enter = b'\r' }
    ∷ record { keys = codes "FF\u{8}"; enter = b'\r' }
    ∷ []

abbrev dot : Typed
dot = record { keys = codes "."; enter = b'\r' }

script_lines : All (IsBody 10) script
unfolding edit_line key_line
script_lines = (
  ((refl, refl, omega arith), refl),
  (
    ((refl, refl, omega arith), refl),
    (((refl, refl, omega arith), refl), (((refl, refl, omega arith), refl), tt)),
  ),
)

-- Keys that Ctrl-C ends.
abbrev break : Typed
break = record { keys = codes "12"; enter = 0x03 }

abbrev load_input : List ℕ
load_input = codes "0x13\r# c\nxyz\rFF\u{8}\r.\rgo"

cmd_load-Writes_example :
    Writes bench_laws.input bench_laws.log
      (cmd_load bench_io 5 10 (replicate 80 0) (codes "load" ∷ []))
      (typing load_input)
      ((0, 0x13) ∷ (4, 0xF) ∷ [])
      (session_text 0 (body_text (end_text 0 dot) 0 0 script))
      (codes "go")
unfolding words_of edit_line key_line digit_value word_align address_arg
cmd_load-Writes_example =
    cmd_load-Writes bench_io bench_laws 5 10 (replicate 80 0) (codes "load" ∷ []) 0
      (typing load_input) script dot (codes "go") refl refl script_lines (omega arith) refl refl
      (refl, refl, omega arith) refl

-- What is shown of the first lines.
session_text_begins :
    take 78 (session_text 0 (body_text (end_text 0 dot) 0 0 script))
    ≡ codes "Loading to 0x00000000 ... (empty line or '.' to end)\r\n0x13\r\n# c\r\nxyz\r\nError: i"
unfolding body_text reply_text edit_events edit_line key_line key_echo digit_value hex_digits
session_text_begins = refl

cmd_load_aborts_example :
    Writes bench_laws.input bench_laws.log
      (cmd_load bench_io 5 10 (replicate 80 0) (codes "load" ∷ []))
      (typing (codes "0x13\r# c\nxyz\rFF\u{8}\r12\u{3}go"))
      ((0, 0x13) ∷ (4, 0xF) ∷ [])
      (session_text 0 (body_text (λ cur count. abort_text (codes "12")) 0 0 script))
      (codes "go")
unfolding words_of edit_line key_line digit_value word_align address_arg
cmd_load_aborts_example =
    cmd_load_aborts bench_io bench_laws 5 10 (replicate 80 0) (codes "load" ∷ []) 0
      (typing (codes "0x13\r# c\nxyz\rFF\u{8}\r12\u{3}go")) script break (codes "go") refl refl
      script_lines (omega arith) refl refl (refl, refl, omega arith)
