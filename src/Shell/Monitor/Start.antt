-- ===== src/Shell/Monitor/Start.antt =====
-- The shell from its banner on.
use vsync.Prelude.{
  All, List, ap, append_assoc, codes, cstr, if◌then◌else◌, length, refl, replicate, ℕ, ◌++◌, ◌∙◌,
  ◌≡◌,
}
use vsync.Machine.{Io, IoLaws, ◌>>◌}
use vsync.Machine.Effects.{Prints}
use vsync.Machine.Memory.{MemoryLaws, World, Acts-Prints, after, shown}
use vsync.Console.{shell_puts}
use vsync.Console.Says.{◌then◌, Says, says_text, says_newline}
use vsync.Commands.Load.{cmd_buf_size}
use vsync.Shell.{Fuel, banner}
use vsync.Shell.Main.{run_shell}
use vsync.Shell.Monitor.{Entry, IsEntry, entry_chars, transcript, memory_after_all}
use vsync.Shell.Monitor.Session.{Ends, shell_loop-Refines}

unfoldable pub banner_text : List ℕ
banner_text =
    codes "\r\n"
    ++ (codes "========================================\r\n"
        ++ (codes "  VSync Monitor Shell v1.0\r\n"
            ++ (codes "  RISC-V RV32IM Hardware RTOS Processor\r\n"
                ++ (codes "  UART: 115200 8N1\r\n"
                    ++ (codes "========================================\r\n"
                        ++ (codes "Type 'help' for command list.\r\n" ++ codes "\r\n"))))))

abbrev zeros : List ℕ
zeros = replicate cmd_buf_size 0

module _ {S : Type 0} (io : Io S) (laws : IoLaws io) (fuel : Fuel) where
  text : (s : List ℕ) → Says laws.input laws.log (shell_puts io s) (cstr s)
  text = says_text io laws

  banner-Prints : Prints laws.input laws.log (banner io fuel) banner_text
  unfolding banner banner_text
  banner-Prints =
      (text (codes "\r\n")
        then text (codes "========================================\r\n")
        then text (codes "  VSync Monitor Shell v1.0\r\n")
        then text (codes "  RISC-V RV32IM Hardware RTOS Processor\r\n")
        then text (codes "  UART: 115200 8N1\r\n")
        then text (codes "========================================\r\n")
        then text (codes "Type 'help' for command list.\r\n")
        then says_newline io laws).prints

  -- The shell refines the monitor. On lines that are cancelled, or that are entered and whose words
  -- ask for the requests, with fuel for each line: on a console that keeps IoLaws and MemoryLaws,
  -- the shell returns from as many rounds as there are lines; it takes the typed lines from the
  -- input, the memory is what the requests make of it one after the other, and what is shown is the
  -- banner and then, for each line, the prompt, the echo, and the monitor's answer on the memory as
  -- the requests before it left it.
  pub run_shell-Refines :
      (kept : MemoryLaws io laws) (es : List Entry) (rest : List ℕ) (s : S)
      → All (IsEntry laws.is_memory fuel) es
      → laws.input s ≡ entry_chars es rest
      → let mem = after kept.initial (laws.log s) in
        Ends io laws kept
          (run_shell io fuel (length es))
          s
          (banner_text ++ transcript mem es)
          (record { input = rest; memory = memory_after_all mem es })
  unfolding run_shell
  run_shell-Refines kept es rest s ok inp =
      let w : World = record { input = laws.input s; memory = after kept.initial (laws.log s) } in
      let (s1, e1, v1, l1) =
        (Acts-Prints io laws kept (banner io fuel) w banner_text banner-Prints).run s refl in
      let inp1 = ap (λ (w : World). w.input) v1 ∙ inp in
      let mem1 = ap (λ (w : World). w.memory) v1 in
      let (buf, s2, e2, len, v2, l2) =
        shell_loop-Refines io laws kept fuel zeros refl es rest zeros s1 refl ok inp1 in
      (
        buf,
        s2,
        rw (e1, ◌>>◌) e2,
        len,
        v2 ∙ rw mem1 refl,
        l2 ∙ rw (l1, mem1) (append_assoc (shown (laws.log s)) _ _),
      )
