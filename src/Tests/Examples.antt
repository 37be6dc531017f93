-- ===== src/Tests/Examples.antt =====
-- gpio_blink.c and hello_uart.c on a kernel that answers 5 to all.
use vsync.Prelude.{[], none, refl, some, ℕ, ◌++◌, ◌+◌, ◌∷◌, ◌≡◌}
use vsync.Locals.{Locals}
use vsync.Posix.{Kernel}
use vsync.Posix.Decode.{recording}
use vsync.Multitask.Traces.{push, with_traps}
use vsync.Multitask.Scripts.{says, write_trap}
use vsync.Blink
use vsync.Blink.Rounds.{Ends, main-Blinks, open_trap, direction_trap, flashes}
use vsync.Hello
use vsync.Hello.Greeting
use vsync.Hello.Greeting.{close_trap, main-Greets}

abbrev kernel : Kernel ℕ
kernel = record { ecall = λ num args s. (5, s + 1) }

abbrev memory : Locals ℕ
memory = record { set_timespec = λ a t s. s; word = λ a s. 0 }

main-Blinks_example :
    Ends kernel memory 0x3000
      (Blink.main (recording kernel) (with_traps memory) 0x3000 3)
      0
      []
      none
      (open_trap 5 0x3000 ∷ direction_trap 5 0x3000 ∷ flashes 5 0x3000 0 3)
unfolding Blink.Rounds.main_outcome
main-Blinks_example = main-Blinks kernel memory 0x3000 5 3 0 [] refl

main-Greets_example :
    (s' : ℕ) × (Hello.main (recording kernel) (0, [])
      ≡ some (
        0,
        (
          s',
          push
              (Greeting.open_trap
                ∷ (says 5 "Hello VSync!\n" ++ (write_trap 5 0 ∷ close_trap 5 ∷ [])))
              [],
        ),
      ))
unfolding Greeting.main_outcome
main-Greets_example = main-Greets kernel 5 0 [] refl (λ c s. refl)
