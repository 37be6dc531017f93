-- ===== src/Commands/Shows.antt =====
-- Which registers the commands that show and set device registers touch.
use vsync.Prelude.{
  Bool-cases, List, Option, [], arith, codes, cstr, false, inl, inr, leb, map, none, some, sym,
  true, ℕ, ◌%◌, ◌+◌, ◌/◌, ◌<◌, ◌^◌, ◌∙◌, ◌∷◌, ◌≡◌, ◌≢◌, ◌≤◌,
}
use Prim.Native.String.{String}
use vsync.Machine.{Io, IoLaws}
use vsync.Hex.{hex_to_uint32}
use vsync.Hex.Parse.{hex_meaning, hex_to_uint32_exact}
use vsync.Commands.ArgWords.{is_word_arg_iff}
use vsync.Commands.{rtos_max_tasks, argc, argv, rtos_base, uart_base, gpio_base}
use vsync.Commands.Registers.{
  cmd_rtos, cmd_uart, cmd_gpio, gpio_show, gpio_read, gpio_write, gpio_mask, is_word_arg,
}
use vsync.Commands.System.{cmd_help, cmd_info}
use vsync.Commands.Accesses.{
  Access, read, write, Accesses, say-Accesses, hex-Accesses, dec-Accesses, newline-Accesses,
  quiet-Accesses, load-Accesses, line-Accesses, store-Accesses,
}

-- The registers at the offsets from a base.
abbrev pub reads : ℕ → List ℕ → List Access
reads base offsets = map (λ o. read (base + o)) offsets

abbrev gpio_registers : List ℕ
gpio_registers = 0x00 ∷ 0x04 ∷ 0x08 ∷ 0x0C ∷ 0x10 ∷ 0x14 ∷ 0x18 ∷ []

abbrev pub rtos_registers : List ℕ
rtos_registers = 0x00 ∷ 0x04 ∷ 0x08 ∷ 0x0C ∷ 0x10 ∷ 0x14 ∷ 0x18 ∷ 0x1C ∷ 0x20 ∷ 0x24 ∷ []

-- What gpio is asked to do; a value that cannot be read is `none`.
pub data GpioUse : Type 0 where
  use_read : GpioUse
  use_write use_dir : Option ℕ → GpioUse
  use_show : GpioUse

abbrev sets : ℕ → Option ℕ → List Access
sets a none = []
sets a (some v) = write a v ∷ []

abbrev pub use_accesses : GpioUse → List Access
use_accesses use_read = read (gpio_base + 0x04) ∷ []
use_accesses (use_write o) = sets (gpio_base + 0x00) o
use_accesses (use_dir o) = sets (gpio_base + 0x08) o
use_accesses use_show = reads gpio_base gpio_registers

-- What the user asks of gpio, by the texts of the arguments.
abbrev pub Asks : List (List ℕ) → GpioUse → Type 0
Asks args use_read = (2 ≤ argc args) × (cstr (argv args 1) ≡ codes "read")
Asks args (use_write o) =
    (3 ≤ argc args) × (cstr (argv args 1) ≡ codes "write") × (hex_meaning (cstr (argv args 2)) ≡ o)
Asks args (use_dir o) =
    (3 ≤ argc args) × (cstr (argv args 1) ≡ codes "dir") × (hex_meaning (cstr (argv args 2)) ≡ o)
Asks args use_show = argc args < 2

other_word :
    (args : List (List ℕ)) (word : String) {text : List ℕ}
    → cstr (argv args 1) ≡ text
    → text ≢ cstr (codes word)
    → is_word_arg (argv args 1) word ≡ false
other_word args word e differs = elim (Bool-cases (is_word_arg (argv args 1) word)) [
  | inl yes_word ↦ absurd (differs (sym e ∙ (is_word_arg_iff (argv args 1) word).0 yes_word))
  | inr no_word ↦ no_word
]

quarter-word : (v : ℕ) → v < 2 ^ 32 → v / 2 ^ 4 < 2 ^ 32
quarter-word v h = omega arith

low-word : (v : ℕ) → v % 16 < 2 ^ 32
low-word v = omega arith

few-tasks : rtos_max_tasks < 2 ^ 32
few-tasks = omega arith

module _ {S : Type 0} (io : Io S) (laws : IoLaws io) where
  pub gpio_show-Accesses : Accesses io laws (gpio_show io) (reads gpio_base gpio_registers)
  unfolding gpio_show
  gpio_show-Accesses =
      search
        (quiet-Accesses, load-Accesses, line-Accesses, say-Accesses, hex-Accesses, newline-Accesses)
        depth 60

  cmd_help-Accesses : Accesses io laws (cmd_help io) []
  unfolding cmd_help
  cmd_help-Accesses = search (quiet-Accesses, say-Accesses) depth 60

  cmd_info-Accesses : Accesses io laws (cmd_info io) []
  unfolding cmd_info
  cmd_info-Accesses = search (quiet-Accesses, say-Accesses, newline-Accesses) depth 60

  cmd_uart-Accesses : Accesses io laws (cmd_uart io) (reads uart_base (0x08 ∷ 0x0C ∷ 0x10 ∷ []))
  unfolding cmd_uart
  cmd_uart-Accesses =
      search
        (
          quiet-Accesses, load-Accesses, say-Accesses, hex-Accesses, dec-Accesses, newline-Accesses,
          quarter-word, low-word,
        )
        depth 100 fits 4000

  cmd_rtos-Accesses : Accesses io laws (cmd_rtos io) (reads rtos_base rtos_registers)
  unfolding cmd_rtos
  cmd_rtos-Accesses =
      search
        (
          quiet-Accesses, load-Accesses, say-Accesses, hex-Accesses, dec-Accesses, newline-Accesses,
          few-tasks,
        )
        depth 100 fits 4000

  pub gpio_read-Accesses : Accesses io laws (gpio_read io) (read (gpio_base + 0x04) ∷ [])
  unfolding gpio_read
  gpio_read-Accesses =
      search (quiet-Accesses, load-Accesses, say-Accesses, hex-Accesses, newline-Accesses)

  pub gpio_write-Accesses :
      (arg : List ℕ) (o : Option ℕ)
      → hex_to_uint32 arg ≡ o
      → Accesses io laws (gpio_write io arg) (sets (gpio_base + 0x00) o)
  unfolding gpio_write
  gpio_write-Accesses arg none e =
      rw (e, gpio_write) (say-Accesses io laws (codes "Error: invalid value\r\n"))
  gpio_write-Accesses arg (some v) e =
      rw (e, gpio_write)
        (search (store-Accesses, quiet-Accesses, say-Accesses, hex-Accesses, newline-Accesses))

  pub gpio_mask-Accesses :
      (arg : List ℕ) (o : Option ℕ)
      → hex_to_uint32 arg ≡ o
      → Accesses io laws (gpio_mask io arg) (sets (gpio_base + 0x08) o)
  unfolding gpio_mask
  gpio_mask-Accesses arg none e =
      rw (e, gpio_mask) (say-Accesses io laws (codes "Error: invalid mask\r\n"))
  gpio_mask-Accesses arg (some v) e =
      rw (e, gpio_mask)
        (search (store-Accesses, quiet-Accesses, say-Accesses, hex-Accesses, newline-Accesses))

  -- help and info touch no register; rtos and uart read each register that they show once, in
  -- order, and write none. No other access is made: no key is taken, and nothing is masked or
  -- jumped to.
  pub status-Accesses :
      Accesses io laws (cmd_help io) []
      × Accesses io laws (cmd_info io) []
      × Accesses io laws (cmd_rtos io) (reads rtos_base rtos_registers)
      × Accesses io laws (cmd_uart io) (reads uart_base (0x08 ∷ 0x0C ∷ 0x10 ∷ []))
  status-Accesses = (cmd_help-Accesses, cmd_info-Accesses, cmd_rtos-Accesses, cmd_uart-Accesses)

  -- gpio with the word "read", "write" and a value, "dir" and a mask, or no more arguments: "read"
  -- reads the input register; "write" and "dir" write the value once to the output and the
  -- direction register, or nothing if it cannot be read; else all seven registers are read, each
  -- once and in order. No other access is made.
  pub cmd_gpio-Accesses :
      (args : List (List ℕ)) (u : GpioUse)
      → Asks args u
      → Accesses io laws (cmd_gpio io args) (use_accesses u)
  unfolding cmd_gpio
  cmd_gpio-Accesses args use_read (n, w) =
      let enough : leb 2 (argc args) ≡ true = ground arith in
      let is_read = (is_word_arg_iff (argv args 1) "read").1 w in
      rw (enough, is_read, cmd_gpio) gpio_read-Accesses
  cmd_gpio-Accesses args (use_write o) (n, w, v) =
      let two : leb 2 (argc args) ≡ true = ground arith in
      let three : leb 3 (argc args) ≡ true = ground arith in
      let is_write = (is_word_arg_iff (argv args 1) "write").1 w in
      let not_read = other_word args "read" w (ground arith) in
      rw (two, three, not_read, is_write, cmd_gpio)
        (gpio_write-Accesses (argv args 2) o (hex_to_uint32_exact (argv args 2) ∙ v))
  cmd_gpio-Accesses args (use_dir o) (n, w, v) =
      let two : leb 2 (argc args) ≡ true = ground arith in
      let three : leb 3 (argc args) ≡ true = ground arith in
      let is_dir = (is_word_arg_iff (argv args 1) "dir").1 w in
      let not_read = other_word args "read" w (ground arith) in
      let not_write = other_word args "write" w (ground arith) in
      rw (two, three, not_read, not_write, is_dir, cmd_gpio)
        (gpio_mask-Accesses (argv args 2) o (hex_to_uint32_exact (argv args 2) ∙ v))
  cmd_gpio-Accesses args use_show n =
      let two : leb 2 (argc args) ≡ false = ground arith in
      let three : leb 3 (argc args) ≡ false = ground arith in
      rw (two, three, cmd_gpio) gpio_show-Accesses
