-- ===== src/Lib.antt =====
-- Verification of the C software of VSync, a RISC-V processor with a hardware RTOS: the monitor
-- shell (sw/examples/shell.c), the other programs in sw/examples, and the POSIX library that they
-- are built on (sw/lib/vsync_posix.c, sw/lib/vsync_posix.h, sw/lib/vsync_hw.h).
--
-- The shell reads a line with its line editor, cuts it into words, looks the first word up in a
-- table of commands and runs the handler, which reads and writes device registers and prints
-- through the library's `write`, one system call per byte. Parts and files:
--   Cstring    shell_strlen, shell_strcmp, shell_memset of shell.c; memcpy and memset of
--              vsync_posix.c
--   Hw         the register offsets and bits of vsync_hw.h that C code names, and
--              UART_BAUD_DIV_CALC (Baud)
--   Hex        hex_to_uint32, uint32_to_hex
--   Decimal    dec_to_uint32, uint32_to_dec
--   Div64      div64by32, and the split into days, hours, minutes and seconds of cmd_uptime
--   Args       parse_args, with argc and argv
--   Machine    the interface to the console and the registers, and the laws of it; Memory, the laws of
--              memory that keeps what is written, and what a run does to the input, the memory and
--              the screen; Kept, a machine restricted to states with a property that it keeps
--   Console    shell_puts, shell_newline, shell_put_hex, shell_put_dec
--   Readline   shell_readline
--   Commands   the base addresses of vsync_hw.h, and the handlers: Memory (cmd_peek, cmd_poke), Load
--              (cmd_load, cmd_go), Registers (cmd_rtos, cmd_gpio, cmd_uart), System (cmd_help,
--              cmd_info, cmd_uptime)
--   Posix      the system call wrappers of vsync_posix.h and the functions of vsync_posix.c
--   Uart       shell_getchar, shell_getchar_blocking, shell_putchar, on a hardware parameter; Console,
--              the interface of Machine made of them; Memory, the same beside a memory
--   Shell      cmd_table, dispatch_command, main and its loop; Monitor, what the shell is for its
--              user: requests, a memory and answers, with no buffer, parser or device
--   Locals     timespec_t, and the memory of a caller's local variables
--   Multitask  sw/examples/multitask.c: the code; Scripts, the calls of each thread; System, the
--              threads as a step relation; Program, the threads with the code's calls; Failures,
--              runs in which calls fail; Traces and Outcomes, Invariant, Order, Safety, Left and
--              Liveness, its proofs
--   Blink      sw/examples/gpio_blink.c
--   Hello      sw/examples/hello_uart.c
--   Tests      runs on concrete inputs
-- Prelude holds what they share. The children of a part hold its specification and its lemmas.
--
-- State. A `char *` is the list of bytes from its address on, and the text ends at the first zero
-- byte. A uint32_t is a natural number, with its wrap-around written out. Code with effects is a
-- function of a machine state, on which `none` is no C value: it stands for a spin loop that ran
-- out of rounds, or for an access outside an array. The machine is a parameter: `Io` for the code
-- above the console, with its laws `IoLaws` (each operation adds one event to a log, reading a
-- character takes it from the input, and an access to a register may change the input); `Hardware`
-- for the polling loops; and `Kernel` for what answers an ecall. What the programs rely on of them is
-- a hypothesis of the theorems that need it: `MemoryLaws` in Machine.Memory, `Receives` in
-- Uart.Console, `Remembers` in Uart.Memory, `Takes` and
-- `Keeps` in Multitask.Traces.
-- The static buffers hex_buf and dec_buf start as zeros on each use, which is sound as every byte that
-- is read was written before.
--
-- Fuel. Structural loops need none. The loops that wait for a device or for the user take a number
-- of rounds: shell_readline one for each character, the polling loops one for each poll; the
-- theorems on them state how many rounds are enough. cmd_load takes one for each line. The endless
-- loops of main, of gpio_blink.c and of pthread_exit run for a given number of rounds.
--
-- Threads. In Multitask a step of the system is one system call of one thread, and any thread that is
-- created and not waiting may make it. sem_init, sem_wait, sem_post, pthread_create and pthread_join
-- do there what sw/lib/vsync_posix.h says of them where they succeed, which for pthread_create is the
-- answer 0. The calls of each thread are those that its code makes when it is run on a kernel on
-- which they do (Program). In Failures a call of these five may also fail at once, and its thread
-- goes on as the code does, which looks at the answer of pthread_create only.
--
-- Not modelled: the close behind the endless loops of shell.c and gpio_blink.c, which is never
-- reached, the addresses and bits of vsync_hw.h that no C file names, the boot code, the linker
-- script, and the hardware under rtl, of which the C code sees the system calls and the registers.
pub mod Prelude
pub mod Hw
pub mod Cstring
pub mod Hex
pub mod Decimal
pub mod Div64
pub mod Args
pub mod Machine
pub mod Console
pub mod Readline
pub mod Commands
pub mod Posix
pub mod Uart
pub mod Shell
pub mod Locals
pub mod Multitask
pub mod Blink
pub mod Hello
pub mod Tests
