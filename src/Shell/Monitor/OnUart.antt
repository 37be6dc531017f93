-- ===== src/Shell/Monitor/OnUart.antt =====
-- The shell on its UART.
use vsync.Prelude.{All, List, [], ap, append-nil, length, refl, some, sym, true, ℕ, ◌++◌, ◌∙◌, ◌≡◌}
use vsync.Machine.{Event}
use vsync.Machine.Memory.{World, shown}
use vsync.Uart.{Hardware}
use vsync.Uart.Console.{Receives, uart_laws}
use vsync.Uart.Memory.{Remembers, Agrees, console, console_laws, console_words}
use vsync.Shell.{Fuel}
use vsync.Shell.Main.{run_shell}
use vsync.Shell.Monitor.{Entry, IsEntry, entry_chars, transcript, memory_after_all}
use vsync.Shell.Monitor.Start.{banner_text, run_shell-Refines}

module _ {S : Type 0} (hw : Hardware S) (polls uart_fd : ℕ) (r : Receives hw polls uart_fd)
    (memory : Remembers hw polls uart_fd r) (fuel : Fuel) where
  -- The shell, on the console that its UART access makes with a log of its operations, refines the
  -- monitor. If the hardware gives each character once within the polls that the loops are given,
  -- has room to send within them, keeps the bytes that SYS_WRITE is given for the UART, and its
  -- memory keeps what is written, then on lines that are cancelled, or that are entered and whose words ask for the requests, with fuel for each line:
  -- the shell returns from as many rounds as there are lines. It takes the typed lines from the
  -- hardware's input, the cells of memory are what the requests make of them one after the other,
  -- and what SYS_WRITE has been given is the banner, and then for each line the prompt, the echo and the
  -- monitor's answer, and the log says the same.
  pub uart_shell-Refines :
      (es : List Entry) (rest : List ℕ) (s : S)
      → All (IsEntry r.is_memory fuel) es
      → r.input s ≡ entry_chars es rest
      → let first = memory.cell s in
        let before = r.sent s in
        (buf : List ℕ) × (t : S) × (log : List Event) × (agrees : Agrees hw polls uart_fd r memory
          first before
          (t, log))
        × (run_shell
              (console hw polls uart_fd r memory first before)
              fuel
              (length es)
              ((s, []), (λ b is_word. refl, sym (append-nil (r.sent s))))
            ≡ some (buf, ((t, log), agrees)))
        × (r.input t ≡ rest)
        × ((b : ℕ) → r.is_memory b ≡ true → memory.cell t b ≡ memory_after_all first es b)
        × (r.sent t ≡ r.sent s ++ (banner_text ++ transcript first es))
        × (shown log ≡ banner_text ++ transcript first es)
  unfolding uart_laws console_words
  uart_shell-Refines es rest s ok inp =
      let first = memory.cell s in
      let before = r.sent s in
      let starts : Agrees hw polls uart_fd r memory first before (s, []) =
        (λ b is_word. refl, sym (append-nil (r.sent s))) in
      let (buf, ((t, log), agrees), run, len, now, screen) =
        run_shell-Refines (console hw polls uart_fd r memory first before)
          (console_laws hw polls uart_fd r memory first before) fuel
          (console_words hw polls uart_fd r memory first before) es rest ((s, []), starts) ok inp in
      (
        buf,
        t,
        log,
        agrees,
        run,
        ap (λ (w : World). w.input) now,
        λ b is_word. agrees.0 b is_word ∙ ap (λ (w : World). w.memory b) now,
        agrees.1 ∙ ap (λ l. r.sent s ++ l) screen,
        screen,
      )
