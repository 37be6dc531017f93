-- ===== src/Shell/Prompt.antt =====
-- A round of the loop of main, from the keys that are typed to dispatch_command.
use vsync.Prelude.{
  Bool-cases, List, [], all, ap, append_assoc, arith, codes, cstr, inl, inr, length, map, refl,
  true, ℕ, ◌++◌, ◌-◌, ◌<◌, ◌==◌, ◌∙◌, ◌∷◌, ◌≡◌,
}
use vsync.Machine.{Does, Io, IoLaws, Event, put, got, pure, ◌>>=◌, ◌>>◌}
use vsync.Console.Output.{shell_puts-cstr}
use vsync.Readline.Edit.{is_enter, is_cancel, is_edit, edit_line, edit_events, text_of}
use vsync.Readline.Lines.{shell_readline_enters, shell_readline_cancels}
use vsync.Args.Words.{words, words_from}
use vsync.Commands.Load.{cmd_buf_size}
use vsync.Shell.{Fuel, dispatch_command, shell_round}
use vsync.Shell.Dispatch.{dispatch_command_blank}

-- What the user sees while typing a line, from the prompt on.
unfoldable pub line_events : List ℕ → ℕ → List Event
line_events keys c =
    map put (codes "vsync> ")
    ++ (edit_events (cmd_buf_size - 1) [] keys ++ (got c ∷ map put (codes "\r\n")))

-- The line that the keys spell.
abbrev pub typed : List ℕ → List ℕ
typed keys = edit_line (cmd_buf_size - 1) [] keys

empty_line : (line : List ℕ) → (length line == 0) ≡ true → words (text_of line) ≡ []
unfolding words_from
empty_line [] e = refl
empty_line (c ∷ line) e = ground arith

module _ {S : Type 0} (io : Io S) (laws : IoLaws io) (fuel : Fuel) (line_buf cmd_buf : List ℕ)
    (s : S) (keys : List ℕ) (c : ℕ) (rest : List ℕ) (size : length cmd_buf ≡ cmd_buf_size)
    (ed : all is_edit keys ≡ true) (enough : length keys < fuel.keys)
    (inp : laws.input s ≡ keys ++ (c ∷ rest)) where
  -- A line that Enter ends: the round prints the prompt and the echo, and then is dispatch_command
  -- on the text of the line.
  pub shell_round-enters :
      is_enter c ≡ true
      → (s1 : S) × (buf : List ℕ) × (shell_round io fuel line_buf cmd_buf s
          ≡ (dispatch_command io fuel line_buf buf >> pure buf) s1)
        × (cstr buf ≡ text_of (typed keys))
        × (laws.input s1 ≡ rest)
        × (laws.log s1 ≡ laws.log s ++ line_events keys c)
        × (length buf ≡ cmd_buf_size)
  unfolding shell_round line_events
  shell_round-enters e =
      let (s0, e0, i0, l0) = shell_puts-cstr io laws (codes "vsync> ") s in
      let (buf, (s1, e1, i1, l1), text, fits, size') =
        shell_readline_enters io laws fuel.keys cmd_buf cmd_buf_size s0 keys c rest (omega arith)
          size ed e enough (i0 ∙ inp) in
      let log : laws.log s1 ≡ laws.log s ++ line_events keys c = l1 ∙ rw (l0, append_assoc) refl in
      elim (Bool-cases (length (typed keys) == 0)) [
        | inl empty ↦
            let idle =
              dispatch_command_blank io fuel line_buf buf (ap words text ∙ empty_line _ empty) in
            (s1, buf, rw (e0, e1, empty, idle, ◌>>=◌, ◌>>◌) refl, text, i1, log, size')
        | inr more ↦ (s1, buf, rw (e0, e1, more, ◌>>=◌, ◌>>◌) refl, text, i1, log, size')
      ]

  -- A line that Ctrl-C ends: the round prints the prompt, the echo and "^C", and does nothing else.
  pub shell_round-cancels :
      is_cancel c ≡ true
      → (buf : List ℕ) × Does laws.input laws.log
          (shell_round io fuel line_buf cmd_buf)
          s
          buf
          (map put (codes "vsync> ")
            ++ (edit_events (cmd_buf_size - 1) [] keys ++ (got c ∷ map put (codes "^C\r\n"))))
          rest
        × (length buf ≡ cmd_buf_size)
  unfolding shell_round
  shell_round-cancels e =
      let (s0, e0, i0, l0) = shell_puts-cstr io laws (codes "vsync> ") s in
      let (buf, (s1, e1, i1, l1), text, size') =
        shell_readline_cancels io laws fuel.keys cmd_buf cmd_buf_size s0 keys c rest (omega arith)
          size ed e enough (i0 ∙ inp) in
      (buf, (s1, rw (e0, e1, ◌>>=◌, ◌>>◌) refl, i1, l1 ∙ rw (l0, append_assoc) refl), size')
