-- ===== src/Shell/Table.antt =====
-- The command table.
use vsync.Prelude.{List, arith, codes, cstr, some, true, ℕ, ◌↔◌, ◌≡◌}
use vsync.Commands.Registers.{is_word_arg}
use vsync.Commands.ArgWords.{is_word_arg_iff}
use vsync.Shell.{
  Command, cmd_table, find_command, help, peek, poke, load, go, rtos, gpio, uart, info, uptime,
}

-- The name of a command.
unfoldable pub command_name : Command → List ℕ
command_name help = codes "help"
command_name peek = codes "peek"
command_name poke = codes "poke"
command_name load = codes "load"
command_name go = codes "go"
command_name rtos = codes "rtos"
command_name gpio = codes "gpio"
command_name uart = codes "uart"
command_name info = codes "info"
command_name uptime = codes "uptime"

-- The tests of the loop, one for each entry.
tests :
    (word : List ℕ)
    → ((is_word_arg word "help" ≡ true) ↔ (cstr word ≡ codes "help"))
      × ((is_word_arg word "peek" ≡ true) ↔ (cstr word ≡ codes "peek"))
      × ((is_word_arg word "poke" ≡ true) ↔ (cstr word ≡ codes "poke"))
      × ((is_word_arg word "load" ≡ true) ↔ (cstr word ≡ codes "load"))
      × ((is_word_arg word "go" ≡ true) ↔ (cstr word ≡ codes "go"))
      × ((is_word_arg word "rtos" ≡ true) ↔ (cstr word ≡ codes "rtos"))
      × ((is_word_arg word "gpio" ≡ true) ↔ (cstr word ≡ codes "gpio"))
      × ((is_word_arg word "uart" ≡ true) ↔ (cstr word ≡ codes "uart"))
      × ((is_word_arg word "info" ≡ true) ↔ (cstr word ≡ codes "info"))
      × ((is_word_arg word "uptime" ≡ true) ↔ (cstr word ≡ codes "uptime"))
tests word = (
  is_word_arg_iff word "help",
  is_word_arg_iff word "peek",
  is_word_arg_iff word "poke",
  is_word_arg_iff word "load",
  is_word_arg_iff word "go",
  is_word_arg_iff word "rtos",
  is_word_arg_iff word "gpio",
  is_word_arg_iff word "uart",
  is_word_arg_iff word "info",
  is_word_arg_iff word "uptime",
)

-- The loop over the table finds a command exactly if the word is that command's name; so the table
-- has every command once, and no name hides another.
pub find_command_iff :
    (word : List ℕ) (c : Command)
    → (find_command cmd_table word ≡ some c) ↔ (cstr word ≡ command_name c)
unfolding find_command command_name
find_command_iff word help = (ground (arith, tests word), ground (arith, tests word))
find_command_iff word _ = (ground (arith, tests word), ground (arith, tests word))
