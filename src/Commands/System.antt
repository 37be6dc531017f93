-- ===== src/Commands/System.antt =====
-- sw/examples/shell.c: cmd_help, cmd_info, cmd_uptime.
use vsync.Prelude.{if◌then◌else◌, ltb, suc, zero, ℕ, ◌+◌, ◌==◌}
use vsync.Hw.{clint_mtime_hi, clint_mtime_lo}
use vsync.Machine.{M, Io, pure, fault, ◌>>=◌, ◌>>◌}
use vsync.Console.{shell_newline, shell_put_hex, shell_put_dec}
use vsync.Div64.{div64by32, uptime_of}
use vsync.Commands.{say, clint_base, sys_clk_hz}

module _ {S : Type 0} (io : Io S) where
  unfoldable pub cmd_help : M S (Unit {0})
  cmd_help = do
    say io "VSync Shell Commands:\r\n"
    say io "  help                  Show this help\r\n"
    say io "  peek <addr> [count]   Read memory (hex addr, max 16 words)\r\n"
    say io "  poke <addr> <value>   Write memory (hex addr & value)\r\n"
    say io "  load [addr]           Load hex words via UART (default: 0x0)\r\n"
    say io "  go [addr]             Jump to address (default: 0x0)\r\n"
    say io "  rtos                  Show RTOS scheduler state\r\n"
    say io "  gpio                  Show all GPIO registers\r\n"
    say io "  gpio read             Read GPIO input value\r\n"
    say io "  gpio write <val>      Set GPIO output (hex)\r\n"
    say io "  gpio dir <mask>       Set GPIO direction (hex, 1=out)\r\n"
    say io "  uart                  Show UART status/control\r\n"
    say io "  info                  System information\r\n"
    say io "  uptime                Show uptime from CLINT mtime\r\n"

  unfoldable pub cmd_info : M S (Unit {0})
  cmd_info = do
    say io "=== VSync System Information ===\r\n"
    say io "  Architecture : RV32IM\r\n"
    say io "  Clock        : 25 MHz\r\n"
    say io "  RTOS         : Hardware Task Scheduler\r\n"
    shell_newline io
    say io "  Memory Map:\r\n"
    say io "    IMEM       : 0x00000000 - 0x0000FFFF (64 KB)\r\n"
    say io "    DMEM       : 0x00010000 - 0x00013FFF (16 KB)\r\n"
    say io "    CLINT      : 0x02000000 - 0x0200FFFF\r\n"
    say io "    PLIC       : 0x0C000000 - 0x0C000FFF\r\n"
    say io "    UART       : 0x10000000 - 0x100000FF\r\n"
    say io "    GPIO       : 0x10000100 - 0x100001FF\r\n"
    say io "    RTOS       : 0x11000000 - 0x1100FFFF\r\n"
    say io "    POSIX      : 0x12000000 - 0x1200FFFF\r\n"
    say io "    HyperRAM   : 0x20000000 - 0x2FFFFFFF (256 MB)\r\n"

  -- The loop `do { … } while (hi1 != hi2);`, with fuel. It returns `hi1` and `lo`.
  unfoldable pub read_mtime : ℕ → M S (ℕ × ℕ)
  read_mtime zero = fault
  read_mtime (suc tries) = do
    hi1 ← io.load (clint_base + clint_mtime_hi)
    lo ← io.load (clint_base + clint_mtime_lo)
    hi2 ← io.load (clint_base + clint_mtime_hi)
    let again = read_mtime tries
    if hi1 == hi2 then pure (hi1, lo) else again

  -- Two digits, with a leading zero.
  abbrev two_digits : ℕ → M S (Unit {0})
  two_digits n = (if ltb n 10 then io.putchar b'0' else pure tt) >> shell_put_dec io n

  unfoldable pub show_uptime : ℕ → ℕ → M S (Unit {0})
  show_uptime hi1 lo = do
    let u = uptime_of (div64by32 hi1 lo sys_clk_hz).q_lo
    say io "Uptime: "
    if ltb 0 u.days then shell_put_dec io u.days >> say io "d " else pure tt
    two_digits u.hours
    io.putchar b':'
    two_digits u.mins
    io.putchar b':'
    two_digits u.secs
    shell_newline io
    say io "Ticks : "
    shell_put_hex io hi1
    io.putchar b'_'
    shell_put_hex io lo
    shell_newline io

  unfoldable pub cmd_uptime : ℕ → M S (Unit {0})
  cmd_uptime tries = do (hi1, lo) ← read_mtime tries; show_uptime hi1 lo
