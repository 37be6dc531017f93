-- ===== src/Commands/Registers.antt =====
-- sw/examples/shell.c: sched_fsm_name, cmd_rtos, cmd_gpio, cmd_uart.
use vsync.Prelude.{
  Bool, List, codes, false, if◌then◌else◌, leb, negsuc, none, pos, some, ℕ, ◌%◌, ◌&&◌, ◌+◌, ◌/◌,
  ◌==◌, ◌^◌,
}
use vsync.Hw.{
  gpio_dir, gpio_in, gpio_int_en, gpio_int_pol, gpio_int_status, gpio_int_type, gpio_out,
  rtos_current_task, rtos_fsm_state, rtos_irq_status, rtos_next_task, rtos_sched_en,
  rtos_sched_policy, rtos_sched_trigger, rtos_task_active, rtos_task_count, rtos_time_slice,
  sched_fsm_done, sched_fsm_idle, sched_fsm_preempt, sched_fsm_scan, sched_fsm_switch,
  uart_baud_div, uart_ctrl, uart_ctrl_tx_ie, uart_ctrl_rx_ie, uart_ctrl_tx_en, uart_ctrl_rx_en,
  uart_st_tx_full, uart_st_tx_empty, uart_st_rx_full, uart_st_rx_empty, uart_st_tx_busy,
  uart_status,
}
use Prim.Native.String.{String}
use vsync.Machine.{M, Io, ◌>>=◌, ◌>>◌}
use vsync.Console.{shell_newline, shell_put_hex, shell_put_dec}
use vsync.Cstring.{shell_strcmp}
use vsync.Hex.{hex_to_uint32}
use vsync.Commands.{argc, argv, say, uart_base, gpio_base, rtos_base, rtos_max_tasks, test_bit}

unfoldable pub sched_fsm_name : ℕ → String
sched_fsm_name state =
    if state == sched_fsm_idle
    then "IDLE"
    else if state == sched_fsm_scan
    then "SCAN"
    else if state == sched_fsm_preempt
    then "PREEMPT"
    else if state == sched_fsm_switch
    then "SWITCH"
    else if state == sched_fsm_done
    then "DONE"
    else "UNKNOWN"

-- `shell_strcmp(argv[1], word) == 0`
unfoldable pub is_word_arg : List ℕ → String → Bool
is_word_arg s word = elim (shell_strcmp s (codes word)) [ pos n ↦ n == 0 | negsuc n ↦ false ]

module _ {S : Type 0} (io : Io S) where
  -- A label, a value and a newline.
  abbrev hex_line : String → ℕ → M S (Unit {0})
  hex_line label val = say io label >> (shell_put_hex io val >> shell_newline io)

  abbrev dec_line : String → ℕ → M S (Unit {0})
  dec_line label val = say io label >> (shell_put_dec io val >> shell_newline io)

  abbrev text_line : String → String → M S (Unit {0})
  text_line label text = say io label >> (say io text >> shell_newline io)

  unfoldable pub cmd_rtos : M S (Unit {0})
  cmd_rtos = do
    say io "=== RTOS Scheduler State ===\r\n"
    en ← io.load (rtos_base + rtos_sched_en)
    policy ← io.load (rtos_base + rtos_sched_policy)
    cur ← io.load (rtos_base + rtos_current_task)
    next ← io.load (rtos_base + rtos_next_task)
    active ← io.load (rtos_base + rtos_task_active)
    count ← io.load (rtos_base + rtos_task_count)
    tslice ← io.load (rtos_base + rtos_time_slice)
    fsm ← io.load (rtos_base + rtos_fsm_state)
    irq ← io.load (rtos_base + rtos_irq_status)
    trig ← io.load (rtos_base + rtos_sched_trigger)
    text_line "  Scheduler Enable : " (if en == 0 then "OFF" else "ON")
    dec_line "  Policy           : " policy
    dec_line "  Current Task ID  : " cur
    dec_line "  Next Task ID     : " next
    hex_line "  Active Tasks Mask: " active
    say io "  Task Count       : "
    shell_put_dec io count
    dec_line " / " rtos_max_tasks
    say io "  Time Slice       : "
    shell_put_dec io tslice
    say io " cycles"
    shell_newline io
    say io "  FSM State        : "
    say io (sched_fsm_name fsm)
    say io " ("
    shell_put_dec io fsm
    say io ")"
    shell_newline io
    hex_line "  IRQ Status       : " irq
    hex_line "  Sched Trigger    : " trig

  -- `label`, the register at `offset` and a newline.
  abbrev gpio_line : String → ℕ → M S (Unit {0})
  gpio_line label offset = do
    say io label
    val ← io.load (gpio_base + offset)
    shell_put_hex io val
    shell_newline io

  unfoldable pub gpio_read : M S (Unit {0})
  gpio_read = do val ← io.load (gpio_base + gpio_in); hex_line "GPIO IN: " val

  unfoldable pub gpio_write : List ℕ → M S (Unit {0})
  gpio_write arg = elim (hex_to_uint32 arg) [
    | none ↦ say io "Error: invalid value\r\n"
    | some val ↦ io.store (gpio_base + gpio_out) val >> hex_line "GPIO OUT <- " val
  ]

  unfoldable pub gpio_mask : List ℕ → M S (Unit {0})
  gpio_mask arg = elim (hex_to_uint32 arg) [
    | none ↦ say io "Error: invalid mask\r\n"
    | some val ↦ io.store (gpio_base + gpio_dir) val >> hex_line "GPIO DIR <- " val
  ]

  unfoldable pub gpio_show : M S (Unit {0})
  gpio_show = do
    say io "=== GPIO Registers ===\r\n"
    gpio_line "  OUT        : " gpio_out
    gpio_line "  IN         : " gpio_in
    gpio_line "  DIR        : " gpio_dir
    gpio_line "  INT_EN     : " gpio_int_en
    gpio_line "  INT_STATUS : " gpio_int_status
    gpio_line "  INT_TYPE   : " gpio_int_type
    gpio_line "  INT_POL    : " gpio_int_pol

  unfoldable pub cmd_gpio : List (List ℕ) → M S (Unit {0})
  cmd_gpio args =
      if leb 2 (argc args) && is_word_arg (argv args 1) "read"
      then gpio_read
      else if leb 3 (argc args) && is_word_arg (argv args 1) "write"
      then gpio_write (argv args 2)
      else if leb 3 (argc args) && is_word_arg (argv args 1) "dir"
      then gpio_mask (argv args 2)
      else gpio_show

  abbrev flag_line : String → Bool → String → String → M S (Unit {0})
  flag_line label flag on off = text_line label (if flag then on else off)

  unfoldable pub cmd_uart : M S (Unit {0})
  cmd_uart = do
    say io "=== UART Registers ===\r\n"
    status ← io.load (uart_base + uart_status)
    ctrl ← io.load (uart_base + uart_ctrl)
    baud ← io.load (uart_base + uart_baud_div)
    hex_line "  STATUS   : " status
    flag_line "    TX Full  : " (test_bit status uart_st_tx_full) "Yes" "No"
    flag_line "    TX Empty : " (test_bit status uart_st_tx_empty) "Yes" "No"
    flag_line "    RX Full  : " (test_bit status uart_st_rx_full) "Yes" "No"
    flag_line "    RX Empty : " (test_bit status uart_st_rx_empty) "Yes" "No"
    flag_line "    TX Busy  : " (test_bit status uart_st_tx_busy) "Yes" "No"
    hex_line "  CTRL     : " ctrl
    flag_line "    TX IE    : " (test_bit ctrl uart_ctrl_tx_ie) "On" "Off"
    flag_line "    RX IE    : " (test_bit ctrl uart_ctrl_rx_ie) "On" "Off"
    flag_line "    TX En    : " (test_bit ctrl uart_ctrl_tx_en) "On" "Off"
    flag_line "    RX En    : " (test_bit ctrl uart_ctrl_rx_en) "On" "Off"
    say io "  BAUD_DIV : "
    shell_put_dec io baud
    say io " (int="
    shell_put_dec io (baud / 2 ^ 4)
    say io " frac="
    shell_put_dec io (baud % 16)
    say io "/16)"
    shell_newline io
