-- ===== src/Uart/Polling.antt =====
-- The spin loops on the status register.
use vsync.Prelude.{
  Bool, Bool-cases, [], arith, false, if◌then◌else◌, inl, inr, none, not, refl, some, suc, true,
  zero, ℕ, ◌%◌, ◌+◌, ◌<◌, ◌∙◌, ◌∷◌, ◌≡◌,
}
use vsync.Machine.{M, ◌>>=◌}
use vsync.Posix.{write, write_loop, is_negative}
use vsync.Commands.{uart_base, test_bit}
use vsync.Uart.{Hardware, shell_getchar, shell_getchar_blocking, wait_tx, shell_putchar}

module _ {S : Type 0} (hw : Hardware S) where
  -- The answer of the status register, and the state after the read.
  abbrev pub status : S → ℕ
  status s = (hw.read (uart_base + 0x08) s).0

  abbrev pub polled : S → S
  polled s = (hw.read (uart_base + 0x08) s).1

  -- Bit `k` of the status register has the value `b` after `n` polls at which it has the other.
  pub data Turns (k : ℕ) (b : Bool) : ℕ → S → S → Type 0 where
    now : (s : S) → test_bit (status s) k ≡ b → Turns k b 0 s (polled s)
    later :
        {n : ℕ} {t : S} (s : S)
        → test_bit (status s) k ≡ not b
        → Turns k b n (polled s) t
        → Turns k b (suc n) s t

  -- With more polls than the FIFO stays full, the first loop ends, in the state after the poll that
  -- finds room.
  wait_tx-ends :
      (polls : ℕ) {n : ℕ} {s t : S}
      → Turns 0 false n s t
      → n < polls
      → wait_tx hw polls s ≡ some (tt, t)
  unfolding wait_tx
  wait_tx-ends zero turns h = absurd (omega arith)
  wait_tx-ends (suc polls) (now s e) h = rw e
  wait_tx-ends (suc polls) (later s e rest) h = rw e (wait_tx-ends polls rest (omega arith))

  pub write_one :
      (fd c : ℕ) (s : S)
      → write hw.kernel fd (c ∷ []) 1 s
        ≡ some (
          if is_negative (hw.kernel.ecall 0x53 (fd ∷ c ∷ 1 ∷ []) s).0
              then (hw.kernel.ecall 0x53 (fd ∷ c ∷ 1 ∷ []) s).0
              else 1,
          (hw.kernel.ecall 0x53 (fd ∷ c ∷ 1 ∷ []) s).1,
        )
  unfolding write write_loop
  write_one fd c s = elim (Bool-cases (is_negative (hw.kernel.ecall 0x53 (fd ∷ c ∷ 1 ∷ []) s).0)) [
    | inl e ↦ rw e
    | inr e ↦ rw e
  ]

  pub shell_putchar_lem :
      (polls uart_fd c : ℕ) (s : S)
      → shell_putchar hw polls uart_fd c s ≡ elim (wait_tx hw polls s) [
        | none ↦ none
        | some (u, t) ↦ elim (write hw.kernel uart_fd (c ∷ []) 1 t) [
          | none ↦ none
          | some (ret, t') ↦ some (tt, t')
        ]
      ]
  unfolding shell_putchar
  shell_putchar_lem polls uart_fd c s = refl

  -- With more polls than the TX FIFO stays full, `shell_putchar` returns: it makes one SYS_WRITE
  -- call with the byte, in the state after the poll that finds room, whatever the call answers.
  pub shell_putchar_writes :
      (polls uart_fd c : ℕ) {n : ℕ} {s t : S}
      → Turns 0 false n s t
      → n < polls
      → shell_putchar hw polls uart_fd c s
        ≡ some (tt, (hw.kernel.ecall 0x53 (uart_fd ∷ c ∷ 1 ∷ []) t).1)
  shell_putchar_writes polls uart_fd c {t = t} turns h =
      rw (shell_putchar_lem polls uart_fd c, wait_tx-ends polls turns h, write_one uart_fd c t)

  getchar_empty :
      (s : S) → test_bit (status s) 3 ≡ true → shell_getchar hw s ≡ some (none, polled s)
  unfolding shell_getchar
  getchar_empty s e = rw e

  getchar_full :
      (s : S)
      → test_bit (status s) 3 ≡ false
      → shell_getchar hw s
        ≡ some (
          some ((hw.read (uart_base + 0x04) (polled s)).0 % 256),
          (hw.read (uart_base + 0x04) (polled s)).1,
        )
  unfolding shell_getchar
  getchar_full s e = rw e

  >>=-some :
      {A B : Type 0} (m : M S A) (f : A → M S B) {a : A} {s t : S}
      → m s ≡ some (a, t)
      → (m >>= f) s ≡ f a t
  >>=-some m f e = rw (e, ◌>>=◌)

  -- With more polls than the RX FIFO stays empty, `shell_getchar_blocking` returns the low byte of
  -- the data register, which is read once, right after the poll that finds a character.
  pub shell_getchar_blocking_reads :
      (polls : ℕ) {n : ℕ} {s t : S}
      → Turns 3 false n s t
      → n < polls
      → shell_getchar_blocking hw polls s
        ≡ some ((hw.read (uart_base + 0x04) t).0 % 256, (hw.read (uart_base + 0x04) t).1)
  unfolding shell_getchar_blocking
  shell_getchar_blocking_reads zero turns h = absurd (omega arith)
  shell_getchar_blocking_reads (suc polls) (now s e) h =
      >>=-some (shell_getchar hw) _ (getchar_full s e)
  shell_getchar_blocking_reads (suc polls) (later s e rest) h =
      >>=-some (shell_getchar hw) _ (getchar_empty s e)
      ∙ shell_getchar_blocking_reads polls rest (omega arith)
