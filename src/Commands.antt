-- ===== src/Commands.antt =====
-- sw/examples/shell.c: the command handlers, over the console and the registers of `Machine`.
-- A handler takes the arguments as `args`: for each pointer in argv, the memory from there on.
pub mod Memory
pub mod Load
pub mod Registers
pub mod System
pub mod Poke
pub mod Peek
pub mod Stores
pub mod ArgWords
pub mod Accesses
pub mod Shows
pub mod Script
pub mod Round
pub mod LoadLoop
pub mod Loading
pub mod Go
pub mod Uptime
pub mod Mtime
pub mod Worlds
pub mod Texts
pub mod Values
pub mod Returns
use vsync.Prelude.{Bool, List, [], codes, get_or, length, ℕ, ◌%◌, ◌*◌, ◌/◌, ◌==◌, ◌^◌}
use Prim.Native.String.{String}
use vsync.Machine.{M, Io}
use vsync.Console.{shell_puts}

abbrev pub argc : List (List ℕ) → ℕ
argc args = length args

abbrev pub argv : List (List ℕ) → ℕ → List ℕ
argv args i = get_or args i []

-- A literal passed to shell_puts.
abbrev pub say : {S : Type 0} → Io S → String → M S (Unit {0})
say io text = shell_puts io (codes text)

-- `addr &= ~3U`
unfoldable pub word_align : ℕ → ℕ
word_align addr = addr / 4 * 4

-- `status & (1U << k)`
abbrev pub test_bit : ℕ → ℕ → Bool
test_bit word k = word / 2 ^ k % 2 == 1

-- sw/lib/vsync_hw.h: the bases and the offsets that the shell uses.
abbrev pub imem_base : ℕ
imem_base = 0x0000_0000

abbrev pub clint_base : ℕ
clint_base = 0x0200_0000

abbrev pub uart_base : ℕ
uart_base = 0x1000_0000

abbrev pub gpio_base : ℕ
gpio_base = 0x1000_0100

abbrev pub rtos_base : ℕ
rtos_base = 0x1100_0000

abbrev pub sys_clk_hz : ℕ
sys_clk_hz = 25_000_000

abbrev pub rtos_max_tasks : ℕ
rtos_max_tasks = 16
