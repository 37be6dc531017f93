-- ===== src/Hw.antt =====
-- sw/lib/vsync_hw.h: the offsets of the registers that the code reads and writes, and the states of
-- the scheduler. A status or control bit 1U << n is the number n that test_bit takes.
pub mod Baud
use vsync.Prelude.{ℕ, ◌+◌, ◌/◌}

abbrev pub uart_rx_data : ℕ
uart_rx_data = 0x04

abbrev pub uart_status : ℕ
uart_status = 0x08

abbrev pub uart_ctrl : ℕ
uart_ctrl = 0x0C

abbrev pub uart_baud_div : ℕ
uart_baud_div = 0x10

abbrev pub uart_st_tx_full : ℕ
uart_st_tx_full = 0

abbrev pub uart_st_tx_empty : ℕ
uart_st_tx_empty = 1

abbrev pub uart_st_rx_full : ℕ
uart_st_rx_full = 2

abbrev pub uart_st_rx_empty : ℕ
uart_st_rx_empty = 3

abbrev pub uart_st_tx_busy : ℕ
uart_st_tx_busy = 4

abbrev pub uart_ctrl_tx_ie : ℕ
uart_ctrl_tx_ie = 0

abbrev pub uart_ctrl_rx_ie : ℕ
uart_ctrl_rx_ie = 1

abbrev pub uart_ctrl_tx_en : ℕ
uart_ctrl_tx_en = 2

abbrev pub uart_ctrl_rx_en : ℕ
uart_ctrl_rx_en = 3

abbrev pub gpio_out : ℕ
gpio_out = 0x00

abbrev pub gpio_in : ℕ
gpio_in = 0x04

abbrev pub gpio_dir : ℕ
gpio_dir = 0x08

abbrev pub gpio_int_en : ℕ
gpio_int_en = 0x0C

abbrev pub gpio_int_status : ℕ
gpio_int_status = 0x10

abbrev pub gpio_int_type : ℕ
gpio_int_type = 0x14

abbrev pub gpio_int_pol : ℕ
gpio_int_pol = 0x18

abbrev pub rtos_sched_en : ℕ
rtos_sched_en = 0x00

abbrev pub rtos_sched_policy : ℕ
rtos_sched_policy = 0x04

abbrev pub rtos_current_task : ℕ
rtos_current_task = 0x08

abbrev pub rtos_next_task : ℕ
rtos_next_task = 0x0C

abbrev pub rtos_task_active : ℕ
rtos_task_active = 0x10

abbrev pub rtos_task_count : ℕ
rtos_task_count = 0x14

abbrev pub rtos_time_slice : ℕ
rtos_time_slice = 0x18

abbrev pub rtos_fsm_state : ℕ
rtos_fsm_state = 0x1C

abbrev pub rtos_irq_status : ℕ
rtos_irq_status = 0x20

abbrev pub rtos_sched_trigger : ℕ
rtos_sched_trigger = 0x24

abbrev pub sched_fsm_idle : ℕ
sched_fsm_idle = 0

abbrev pub sched_fsm_scan : ℕ
sched_fsm_scan = 1

abbrev pub sched_fsm_preempt : ℕ
sched_fsm_preempt = 2

abbrev pub sched_fsm_switch : ℕ
sched_fsm_switch = 3

abbrev pub sched_fsm_done : ℕ
sched_fsm_done = 4

abbrev pub clint_mtime_lo : ℕ
clint_mtime_lo = 0xBFF8

abbrev pub clint_mtime_hi : ℕ
clint_mtime_hi = 0xBFFC

-- UART_BAUD_DIV_CALC, on numbers whose sum fits the type of its arguments.
unfoldable pub uart_baud_div_calc : ℕ → ℕ → ℕ
uart_baud_div_calc clk_hz baud = (clk_hz + baud / 2) / baud
