-- ===== src/Hello/Greeting.antt =====
-- What hello_uart.c sends.
use vsync.Prelude.{
  Bool-cases, List, [], false, if◌then◌else◌, inl, inr, length, map, refl, some, ℕ, ◌++◌, ◌∷◌, ◌≡◌,
}
use vsync.Machine.{◌>>=◌}
use vsync.Locals.{minus_one}
use vsync.Posix.{Kernel, is_negative, write, write_loop}
use vsync.Posix.Decode.{Trap, recording}
use vsync.Multitask.Traces.{push}
use vsync.Multitask.Scripts.{write_trap, says}
use vsync.Hello.{msg, greet, main}

abbrev pub open_trap : Trap
open_trap = record { num = 0x50; args = 1 ∷ 0 ∷ [] }

abbrev pub close_trap : ℕ → Trap
close_trap fd = record { num = 0x51; args = fd ∷ [] }

-- What main returns, and the calls that it makes.
unfoldable pub main_outcome : ℕ → ℕ × List Trap
main_outcome fd =
    if is_negative fd
    then (minus_one, open_trap ∷ [])
    else (0, open_trap ∷ (says fd "Hello VSync!\n" ++ (write_trap fd 0 ∷ close_trap fd ∷ [])))

module _ {S : Type 0} (k : Kernel S) (fd : ℕ) where
  -- Each byte is taken.
  abbrev pub Taken : Type 0
  Taken = (c : ℕ) (s : S) → is_negative (k.ecall 0x53 (fd ∷ c ∷ 1 ∷ []) s).0 ≡ false

  write_loop-Sends :
      Taken
      → (p : List ℕ) (count : ℕ) (s : S) (traps : List Trap)
      → (s' : S) × (write_loop (recording k) fd count p (length p) (s, traps)
          ≡ some (count, (s', push (map (write_trap fd) p) traps)))
  unfolding write_loop push
  write_loop-Sends taken [] count s traps = (s, refl)
  write_loop-Sends taken (c ∷ p) count s traps =
      let s1 = (k.ecall 0x53 (fd ∷ c ∷ 1 ∷ []) s).1 in
      let (s2, e) = write_loop-Sends taken p count s1 (write_trap fd c ∷ traps) in
      (s2, rw (taken c s) e)

  greet-Ends :
      Taken
      → (s : S) (traps : List Trap)
      → (s' : S) × (greet (recording k) fd (s, traps)
          ≡ some (
            0,
            (s', push (says fd "Hello VSync!\n" ++ (write_trap fd 0 ∷ close_trap fd ∷ [])) traps),
          ))
  unfolding greet says push write
  greet-Ends taken s traps =
      let (s1, e1) = write_loop-Sends taken msg 14 s traps in
      ((k.ecall 0x51 (fd ∷ []) s1).1, rw (e1, ◌>>=◌) refl)

  -- main, if the device takes each byte: where open fails it returns -1 and does nothing else; else
  -- it sends the text and the NUL that ends it, closes the device and returns 0.
  pub main-Greets :
      (s : S) (traps : List Trap)
      → (k.ecall 0x50 (1 ∷ 0 ∷ []) s).0 ≡ fd
      → Taken
      → let (ret, ts) = main_outcome fd in
        (s' : S) × (main (recording k) (s, traps) ≡ some (ret, (s', push ts traps)))
  unfolding main main_outcome push
  main-Greets s traps e taken =
      let s1 = (k.ecall 0x50 (1 ∷ 0 ∷ []) s).1 in
      let opened : ((recording k).ecall 0x50 (1 ∷ 0 ∷ []) (s, traps)).0 ≡ fd = e in
      let (s2, e2) = greet-Ends taken s1 (open_trap ∷ traps) in
      elim (Bool-cases (is_negative fd)) [
        | inl neg ↦ rw neg (s1, rw (opened, neg) refl)
        | inr pos ↦ rw pos (s2, rw (opened, pos, e2) refl)
      ]
