-- ===== src/Uart.antt =====
-- sw/examples/shell.c: shell_getchar, shell_getchar_blocking, shell_putchar; sw/lib/vsync_hw.h:
-- REG32 and the UART register map; and the shell's console on top of them. The hardware is the
-- parameter `hw`: what a volatile read or write does, what `csrci mstatus` and a jump do, and the
-- kernel.
pub mod Polling
pub mod Console
pub mod Leaves
pub mod Memory
use vsync.Prelude.{Option, [], if◌then◌else◌, none, some, suc, zero, ℕ, ◌%◌, ◌+◌, ◌∷◌}
use vsync.Hw.{uart_rx_data, uart_st_rx_empty, uart_st_tx_full, uart_status}
use vsync.Machine.{M, Io, pure, fault, ◌>>=◌, ◌>>◌}
use vsync.Posix.{Kernel, write, open_fd, is_negative}
use vsync.Commands.{uart_base, test_bit}

pub record Hardware (S : Type 0) : Type 0 where
  pub read : ℕ → S → ℕ × S
  pub set_reg : ℕ → ℕ → S → S
  pub csrci : S → S
  pub jump_to : ℕ → S → S
  pub kernel : Kernel S

module _ {S : Type 0} (hw : Hardware S) where
  -- `REG32(addr)` and `REG32(addr) = val`.
  unfoldable pub reg32 : ℕ → M S ℕ
  reg32 addr s = some (hw.read addr s)

  unfoldable pub set_reg32 : ℕ → ℕ → M S (Unit {0})
  set_reg32 addr val s = some (tt, hw.set_reg addr val s)

  -- `none` is the -1 for "no data".
  unfoldable pub shell_getchar : M S (Option ℕ)
  unfolding reg32
  shell_getchar = do
    status ← reg32 (uart_base + uart_status)
    let char = (do rx ← reg32 (uart_base + uart_rx_data); pure (some (rx % 256)))
    if test_bit status uart_st_rx_empty then pure none else char

  -- `while ((c = shell_getchar()) < 0);`, with fuel.
  unfoldable pub shell_getchar_blocking : ℕ → M S ℕ
  shell_getchar_blocking zero = fault
  shell_getchar_blocking (suc polls) = do
    c ← shell_getchar
    elim c [ none ↦ shell_getchar_blocking polls | some char ↦ pure char ]

  -- `while (REG32(UART_BASE + UART_STATUS) & UART_ST_TX_FULL);`, with fuel.
  unfoldable pub wait_tx : ℕ → M S (Unit {0})
  unfolding reg32
  wait_tx zero = fault
  wait_tx (suc polls) = do
    status ← reg32 (uart_base + uart_status)
    let again = wait_tx polls
    if test_bit status uart_st_tx_full then again else pure tt

  -- The result of `write` is ignored.
  unfoldable pub shell_putchar : ℕ → ℕ → ℕ → M S (Unit {0})
  shell_putchar polls uart_fd c = do
    wait_tx polls
    ret ← write hw.kernel uart_fd (c ∷ []) 1
    pure tt

  -- What the shell runs on, once `uart_fd` is open.
  unfoldable pub uart_io : ℕ → ℕ → Io S
  uart_io polls uart_fd = record {
    getchar_blocking = shell_getchar_blocking polls;
    putchar = shell_putchar polls uart_fd;
    load = reg32;
    store = set_reg32;
    clear_mie = λ s. some (tt, hw.csrci s);
    jump = λ addr s. some (tt, hw.jump_to addr s);
  }
