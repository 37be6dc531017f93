-- ===== src/Shell/Rounds.antt =====
-- A round of the loop of main, from the keys that are typed to the handler.
use vsync.Prelude.{
  List, all, ap, append_assoc, arith, codes, cstr, length, map, refl, some, take, true, ℕ, ◌++◌,
  ◌+◌, ◌<◌, ◌∙◌, ◌∷◌, ◌≡◌, ◌≤◌,
}
use vsync.Hex.{hex_to_uint32}
use vsync.Hex.Parse.{hex_meaning}
use vsync.Commands.Poke.{poke_events, cmd_poke_writes}
use vsync.Machine.{Does, Io, IoLaws, pure, ◌>>◌}
use vsync.Readline.Edit.{is_enter, is_edit, text_of}
use vsync.Args.{max_args}
use vsync.Args.Words.{words}
use vsync.Commands.{argv, argc, word_align}
use vsync.Commands.Load.{cmd_buf_size}
use vsync.Shell.{poke, Command, Fuel, run_command, shell_round}
use vsync.Commands.ArgWords.{argv-hex, argc-Given}
use vsync.Shell.Table.{command_name}
use vsync.Shell.Dispatch.{dispatch_command_runs}
use vsync.Shell.Prompt.{line_events, typed, shell_round-enters}

module _ {S : Type 0} (io : Io S) (laws : IoLaws io) (fuel : Fuel) (line_buf cmd_buf : List ℕ) where
  -- A line whose first word is the name of a command, ended by Enter, on a buffer of CMD_BUF_SIZE
  -- bytes and with fuel for each key: the round prints the prompt and the editor's echo, takes the
  -- keys and Enter from the input, and then is the handler, with arguments whose texts are the
  -- words of the line, at most MAX_ARGS + 1 of them.
  pub shell_round-runs :
      (s : S) (keys : List ℕ) (c : ℕ) (rest : List ℕ) (cmd : Command) (ws : List (List ℕ))
      → length cmd_buf ≡ cmd_buf_size
      → all is_edit keys ≡ true
      → is_enter c ≡ true
      → length keys < fuel.keys
      → laws.input s ≡ keys ++ (c ∷ rest)
      → words (text_of (typed keys)) ≡ command_name cmd ∷ ws
      → (s1 : S) × (args : List (List ℕ)) × (buf : List ℕ) × (shell_round io fuel line_buf cmd_buf s
          ≡ (run_command io fuel cmd line_buf args >> pure buf) s1)
        × (map cstr args ≡ take (max_args + 1) (command_name cmd ∷ ws))
        × (laws.input s1 ≡ rest)
        × (laws.log s1 ≡ laws.log s ++ line_events keys c)
        × (length buf ≡ cmd_buf_size)
  shell_round-runs s keys c rest cmd ws size ed e enough inp h =
      let (s1, buf, round, text, i1, l1, size') =
        shell_round-enters io laws fuel line_buf cmd_buf s keys c rest size ed enough inp e in
      let (args, texts, run) =
        dispatch_command_runs io fuel line_buf buf cmd ws (ap words text ∙ h) in
      (s1, args, buf, round ∙ rw run refl, texts, i1, l1, size')

module _ {S : Type 0} (io : Io S) (laws : IoLaws io) (fuel : Fuel) (line_buf cmd_buf : List ℕ) where
  -- "poke", an address and a value, typed as one line with whatever corrections and ended by Enter:
  -- the round of the loop stores the value once, at the word-aligned address, before it prints the
  -- confirmation of cmd_poke, and does nothing else but print the prompt and the echo; it returns a
  -- buffer of the same size, and so the next round can begin.
  pub shell_round-pokes :
      (s : S) (keys : List ℕ) (c : ℕ) (rest wa wv : List ℕ) (more : List (List ℕ)) (a v : ℕ)
      → length cmd_buf ≡ cmd_buf_size
      → all is_edit keys ≡ true
      → is_enter c ≡ true
      → length keys < fuel.keys
      → laws.input s ≡ keys ++ (c ∷ rest)
      → words (text_of (typed keys)) ≡ codes "poke" ∷ wa ∷ wv ∷ more
      → hex_meaning wa ≡ some a
      → hex_meaning wv ≡ some v
      → (buf : List ℕ) × (r : ℕ × List ℕ) × Does laws.input laws.log
          (shell_round io fuel line_buf cmd_buf)
          s
          buf
          (line_events keys c ++ poke_events (word_align a) v r.0)
          r.1
        × (length buf ≡ cmd_buf_size)
  unfolding command_name run_command
  shell_round-pokes s keys c rest wa wv more a v size ed e enough inp h ha hv =
      let (s1, args, buf, run, texts, i1, l1, size') =
        shell_round-runs io laws fuel line_buf cmd_buf s keys c rest poke (wa ∷ wv ∷ more) size ed e
          enough inp h in
      let line = codes "poke" ∷ wa ∷ wv ∷ more in
      let addr : hex_to_uint32 (argv args 1) ≡ some a = argv-hex args line 1 texts ∙ ha in
      let val : hex_to_uint32 (argv args 2) ≡ some v = argv-hex args line 2 texts ∙ hv in
      let three : 3 ≤ argc args = omega (arith, argc-Given args line texts) in
      let (r, (s2, e2, i2, l2)) = cmd_poke_writes io laws args a v s1 three addr val in
      (buf, r, (s2, run ∙ rw (e2, ◌>>◌) refl, i2, l2 ∙ rw (l1, append_assoc) refl), size')
