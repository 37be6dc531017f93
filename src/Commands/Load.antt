-- ===== src/Commands/Load.antt =====
-- sw/examples/shell.c: cmd_load and cmd_go.
use vsync.Prelude.{
  List, Option, get_or, if◌then◌else◌, leb, none, some, suc, zero, ℕ, ◌%◌, ◌*◌, ◌+◌, ◌-◌, ◌==◌, ◌^◌,
  ◌||◌,
}
use vsync.Hw.{uart_st_tx_empty, uart_status}
use vsync.Machine.{M, Io, pure, fault, ◌>>=◌, ◌>>◌}
use vsync.Console.{shell_puts, shell_newline, shell_put_hex, shell_put_dec}
use vsync.Hex.{hex_to_uint32}
use vsync.Readline.{Line, shell_readline}
use vsync.Commands.{argc, argv, say, word_align, imem_base, uart_base, test_bit}

-- CMD_BUF_SIZE
abbrev pub cmd_buf_size : ℕ
cmd_buf_size = 80

-- The optional address argument.
unfoldable pub address_arg : List (List ℕ) → Option ℕ
address_arg args = if leb 2 (argc args) then hex_to_uint32 (argv args 1) else some imem_base

module _ {S : Type 0} (io : Io S) where
  -- What is printed when the loading ends.
  unfoldable pub load_report : ℕ → ℕ → ℕ → M S (Unit {0})
  load_report addr cur_addr count = do
    say io "Loaded "
    shell_put_dec io count
    say io " words ("
    shell_put_dec io (count * 4 % 2 ^ 32)
    say io " bytes) to "
    shell_put_hex io addr
    say io " - "
    shell_put_hex io ((cur_addr + 2 ^ 32 - 4) % 2 ^ 32)
    shell_newline io

  unfoldable pub load_error : List ℕ → M S (Unit {0})
  load_error line_buf = do say io "Error: invalid hex '"; shell_puts io line_buf; say io "'\r\n"

  -- One round of the loop behind its shell_readline; `next` is the next round, with the contents of
  -- line_buf, `cur_addr` and `count`.
  unfoldable pub load_line : (List ℕ → ℕ → ℕ → M S (Unit {0})) → ℕ → ℕ → ℕ → Line → M S (Unit {0})
  load_line next addr cur_addr count line =
      let first = get_or line.buf 0 0 in
      elim line.len [
        | none ↦ say io "Aborted.\r\n"
        | some len ↦
            if len == 0 || first == b'.'
            then load_report addr cur_addr count
            else if first == b'#' || first == b'@'
            then next line.buf cur_addr count
            else elim (hex_to_uint32 line.buf) [
              | none ↦ load_error line.buf >> next line.buf cur_addr count
              | some val ↦
                  io.store cur_addr val
                  >> next line.buf ((cur_addr + 4) % 2 ^ 32) ((count + 1) % 2 ^ 32)
            ]
      ]

  -- The loop `while (1)`, with fuel for the lines; `keys` is the fuel of each shell_readline.
  unfoldable pub load_loop : ℕ → ℕ → List ℕ → ℕ → ℕ → ℕ → M S (Unit {0})
  load_loop zero keys line_buf addr cur_addr count = fault
  load_loop (suc lines) keys line_buf addr cur_addr count =
      shell_readline io keys line_buf cmd_buf_size
      >>= load_line (λ buf cur n. load_loop lines keys buf addr cur n) addr cur_addr count

  unfoldable pub cmd_load : ℕ → ℕ → List ℕ → List (List ℕ) → M S (Unit {0})
  cmd_load lines keys line_buf args = elim (address_arg args) [
    | none ↦ say io "Error: invalid address\r\n"
    | some a ↦ do
      let addr = word_align a
      say io "Loading to "
      shell_put_hex io addr
      say io " ... (empty line or '.' to end)\r\n"
      load_loop lines keys line_buf addr addr 0
  ]

  -- `while (!(REG32(UART_BASE + UART_STATUS) & UART_ST_TX_EMPTY));`, with fuel.
  unfoldable pub drain_tx : ℕ → M S (Unit {0})
  drain_tx zero = fault
  drain_tx (suc polls) = do
    status ← io.load (uart_base + uart_status)
    let again = drain_tx polls
    if test_bit status uart_st_tx_empty then pure tt else again

  unfoldable pub cmd_go : ℕ → List (List ℕ) → M S (Unit {0})
  cmd_go polls args = elim (address_arg args) [
    | none ↦ say io "Error: invalid address\r\n"
    | some addr ↦ do
      say io "Jumping to "
      shell_put_hex io addr
      say io " ...\r\n"
      drain_tx polls
      io.clear_mie
      io.jump addr
  ]
