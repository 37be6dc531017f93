-- ===== src/Shell/Main.antt =====
-- sw/examples/shell.c: main.
use vsync.Prelude.{List, Option, if◌then◌else◌, none, replicate, some, ℕ}
use vsync.Machine.{M, Io, pure, ◌>>=◌, ◌>>◌}
use vsync.Posix.Numbers.{fd_type_uart}
use vsync.Posix.{open_fd, is_negative}
use vsync.Commands.Load.{cmd_buf_size}
use vsync.Uart.{Hardware, uart_io}
use vsync.Shell.{Fuel, banner, shell_loop}

-- The banner, and the loop for `rounds` rounds; what is returned is cmd_buf. The static buffers start
-- as zeros.
unfoldable pub run_shell : {S : Type 0} → Io S → Fuel → (rounds : ℕ) → M S (List ℕ)
run_shell io fuel rounds =
    let zeros = replicate cmd_buf_size 0 in banner io fuel >> shell_loop io fuel rounds zeros zeros

-- FD_TYPE_UART. `none` is the return of -1. The close behind the loop is never reached.
unfoldable pub main :
    {S : Type 0} → Hardware S → (polls : ℕ) → Fuel → (rounds : ℕ) → M S (Option (List ℕ))
main hw polls fuel rounds = do
  uart_fd ← open_fd hw.kernel fd_type_uart 0
  let run = (do cmd_buf ← run_shell (uart_io hw polls uart_fd) fuel rounds; pure (some cmd_buf))
  if is_negative uart_fd then pure none else run
