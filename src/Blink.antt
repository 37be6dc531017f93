-- ===== src/Blink.antt =====
-- sw/examples/gpio_blink.c.
pub mod Rounds
use vsync.Prelude.{Option, bit_xor, if◌then◌else◌, none, some, suc, zero, ℕ}
use vsync.Machine.{M, pure, fault, ◌>>=◌, ◌>>◌}
use vsync.Locals.{Locals, Timespec, minus_one}
use vsync.Posix.Numbers.{fd_type_gpio, gpio_set_dir, gpio_set_output}
use vsync.Posix.{Kernel, is_negative, open_fd, ioctl, nanosleep}

abbrev pub led_bit : ℕ
led_bit = 0x01

module _ {S : Type 0} (k : Kernel S) (mem : Locals S) (delay : ℕ) where
  -- Rounds of the infinite loop; the result is led_state.
  unfoldable pub blink : ℕ → ℕ → ℕ → M S ℕ
  unfolding ioctl nanosleep
  blink fd zero led_state = pure led_state
  blink fd (suc n) led_state = do
    let led_state' = bit_xor led_state led_bit
    ret ← ioctl k fd gpio_set_output led_state'
    ret' ← nanosleep k delay 0
    blink fd n led_state'

  -- main after open, up to a number of rounds of its loop.
  unfoldable pub start_blinking : ℕ → ℕ → M S ℕ
  unfolding ioctl
  start_blinking fd rounds = do
    ret ← ioctl k fd gpio_set_dir led_bit
    λ s. some (tt, mem.set_timespec delay (record { tv_sec = 0; tv_nsec = 500_000_000 }) s)
    blink fd rounds 0

  -- main up to a number of rounds of its loop: `none` stands for a run that is in the loop still.
  unfoldable pub main : ℕ → M S (Option ℕ)
  unfolding open_fd
  main rounds = do
    fd ← open_fd k fd_type_gpio 0
    let loops = (do led_state ← start_blinking fd rounds; pure none)
    if is_negative fd then pure (some minus_one) else loops
