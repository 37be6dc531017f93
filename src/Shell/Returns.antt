-- ===== src/Shell/Returns.antt =====
-- Rounds of the loop of main on lines of any words.
use vsync.Prelude.{
  Bool, List, [], all, ap, append_assoc, arith, codes, cstr, false, inl, inr, length, refl, some,
  sym, true, ℕ, ◌++◌, ◌<◌, ◌∙◌, ◌∷◌, ◌≡◌,
}
use vsync.Machine.{Io, IoLaws, Event, ◌>>◌}
use vsync.Machine.Effects.{Does-pure}
use vsync.Readline.Edit.{is_enter, is_edit, text_of}
use vsync.Args.Words.{words}
use vsync.Commands.Load.{cmd_buf_size}
use vsync.Commands.System.{cmd_help, cmd_info}
use vsync.Commands.Registers.{cmd_rtos, cmd_uart}
use vsync.Commands.Shows.{status-Accesses}
use vsync.Commands.Returns.{
  Returns, Returns-Prints, Returns-Accesses, cmd_gpio-Returns, cmd_poke-Returns, cmd_peek-Returns,
}
use vsync.Shell.{
  Command, Fuel, help, peek, poke, load, go, rtos, gpio, uart, info, uptime, run_command,
  dispatch_command, shell_round,
}
use vsync.Shell.Table.{command_name}
use vsync.Shell.Dispatch.{
  List-cases, names_command, dispatch_command_blank, dispatch_command_runs,
  dispatch_command_unknown,
}
use vsync.Shell.Prompt.{line_events, typed, shell_round-enters}

-- Commands that wait for nothing: neither for the user nor for a device.
abbrev pub is_direct : Command → Bool
is_direct load = false
is_direct go = false
is_direct uptime = false
is_direct _ = true

module _ {S : Type 0} (io : Io S) (laws : IoLaws io) (fuel : Fuel) (line_buf : List ℕ) where
  run_command-Returns :
      (c : Command) (args : List (List ℕ))
      → is_direct c ≡ true
      → Returns io laws (run_command io fuel c line_buf args)
  unfolding run_command
  run_command-Returns help args direct =
      Returns-Accesses io laws (cmd_help io) _ (status-Accesses io laws).0
  run_command-Returns peek args direct = cmd_peek-Returns io laws args
  run_command-Returns poke args direct = cmd_poke-Returns io laws args
  run_command-Returns load args direct = absurd (ground arith)
  run_command-Returns go args direct = absurd (ground arith)
  run_command-Returns rtos args direct =
      Returns-Accesses io laws (cmd_rtos io) _ (status-Accesses io laws).2
  run_command-Returns gpio args direct = cmd_gpio-Returns io laws args
  run_command-Returns uart args direct =
      Returns-Accesses io laws (cmd_uart io) _ (status-Accesses io laws).3
  run_command-Returns info args direct =
      Returns-Accesses io laws (cmd_info io) _ (status-Accesses io laws).1
  run_command-Returns uptime args direct = absurd (ground arith)

  dispatch_command-Returns :
      (line : List ℕ)
      → ((c : Command) (ws : List (List ℕ))
          → words (cstr line) ≡ command_name c ∷ ws
          → is_direct c ≡ true)
      → Returns io laws (dispatch_command io fuel line_buf line)
  dispatch_command-Returns line direct = elim (List-cases (words (cstr line))) [
    | inl blank ↦
        rw (dispatch_command_blank io fuel line_buf line blank)
          (record { from = λ s. ([], laws.input s, Does-pure laws.input laws.log s tt) })
    | inr (w, ws, e) ↦ elim (names_command line w ws e) [
      | inl (c, same) ↦
          let named : words (cstr line) ≡ command_name c ∷ ws = e ∙ ap (λ x. x ∷ ws) same in
          let (args, texts, run) = dispatch_command_runs io fuel line_buf line c ws named in
          rw run (run_command-Returns c args (direct c ws named))
      | inr other ↦
          Returns-Prints io laws (dispatch_command io fuel line_buf line)
            (codes "Unknown command: " ++ (w ++ codes "\r\nType 'help' for command list.\r\n"))
            (dispatch_command_unknown io fuel line_buf line laws w ws e other)
    ]
  ]

  -- A line of any words, entered, of which the first is not "load", "go" or "uptime": the round
  -- returns, whatever the arguments are and whatever the registers answer, given io laws fuel for
  -- each key; it prints the prompt and the echo before all else, and returns a buffer of
  -- CMD_BUF_SIZE bytes, and so the next round can begin.
  pub shell_round_returns :
      (cmd_buf : List ℕ) (s : S) (keys : List ℕ) (c : ℕ) (rest : List ℕ)
      → length cmd_buf ≡ cmd_buf_size
      → all is_edit keys ≡ true
      → is_enter c ≡ true
      → length keys < fuel.keys
      → laws.input s ≡ keys ++ (c ∷ rest)
      → ((cmd : Command) (ws : List (List ℕ))
          → words (text_of (typed keys)) ≡ command_name cmd ∷ ws
          → is_direct cmd ≡ true)
      → (buf : List ℕ) × (s' : S) × (es : List Event) × (shell_round io fuel line_buf cmd_buf s
          ≡ some (buf, s'))
        × (length buf ≡ cmd_buf_size)
        × (laws.log s' ≡ laws.log s ++ (line_events keys c ++ es))
  shell_round_returns cmd_buf s keys c rest size ed e enough inp direct =
      let (s1, buf, round, text, i1, l1, size') =
        shell_round-enters io laws fuel line_buf cmd_buf s keys c rest size ed enough inp e in
      let (es, left, (s2, e2, i2, l2)) =
        (dispatch_command-Returns buf λ cmd ws h. direct cmd ws (ap words (sym text) ∙ h)).from
          s1 in
      (buf, s2, es, round ∙ rw (e2, ◌>>◌) refl, size', l2 ∙ rw (l1, append_assoc) refl)
