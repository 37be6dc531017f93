-- ===== src/Shell/Monitor/Launch.antt =====
-- A session that loads a program and jumps to it.
use vsync.Prelude.{
  All, List, [], ap, append_assoc, arith, codes, get_or, leb, length, map, refl, some, true, ℕ, ◌*◌,
  ◌++◌, ◌<◌, ◌^◌, ◌∙◌, ◌∷◌, ◌≡◌, ◌≤◌,
}
use vsync.Machine.{M, Io, IoLaws, Event, put, loaded, masked, jumped, ◌>>◌}
use vsync.Machine.Memory.{Memory, MemoryLaws, World, after, after-append}
use vsync.Hex.Parse.{hex_meaning}
use vsync.Args.Words.{words}
use vsync.Commands.{argc, word_align}
use vsync.Commands.ArgWords.{argv-hex, argc-Given}
use vsync.Commands.Load.{cmd_buf_size, address_arg}
use vsync.Commands.Go.{Drains, drain_events, cmd_go_jumps}
use vsync.Commands.Peek.{word_at}
use vsync.Commands.Poke.{hex_text}
use vsync.Commands.Script.{Typed, typed_text, IsTyped, words_of, at_words}
use vsync.Commands.Stores.{
  stores, stores-append, stores-put, write_words, after-stores, stores-edit_events,
}
use vsync.Shell.{Fuel, go, run_command, shell_round, shell_loop}
use vsync.Shell.Table.{command_name}
use vsync.Shell.Prompt.{line_events}
use vsync.Shell.Rounds.{shell_round-runs}
use vsync.Shell.Monitor.{
  load_words, Entry, asking, IsEntry, memory_after, entry_chars, memory_after_all,
}
use vsync.Shell.Monitor.Session.{shell_loop-Refines}
use vsync.Shell.Monitor.RoundTrip.{write_words-word_at, words_of-All}

-- What a round of "go" does up to the end of the polling.
abbrev launch_events : Typed → ℕ → List ℕ → ℕ → List Event
launch_events t g busy done =
    line_events t.keys t.enter
    ++ (map put (codes "Jumping to ")
        ++ (map put (hex_text g) ++ (map put (codes " ...\r\n") ++ drain_events busy done)))

stores-loaded : (a : ℕ) (vs : List ℕ) → stores (map (loaded a) vs) ≡ []
stores-loaded a [] = refl
stores-loaded a (v ∷ vs) = stores-loaded a vs

-- It writes nothing.
launch_quiet :
    (t : Typed) (g : ℕ) (busy : List ℕ) (done : ℕ) → stores (launch_events t g busy done) ≡ []
unfolding line_events
launch_quiet t g busy done = simp (stores-append, stores-edit_events, stores-put, stores-loaded)

memory_after_all-append :
    (es fs : List Entry) (mem : Memory)
    → memory_after_all mem (es ++ fs) ≡ memory_after_all (memory_after_all mem es) fs
memory_after_all-append [] fs mem = refl
memory_after_all-append (e ∷ es) fs mem = memory_after_all-append es fs (memory_after mem e.request)

-- What a round of "go" adds to a log, split in front of the jump.
launch_split :
    {A : Type 0} (l n a b c d e : List A)
    → (l ++ n) ++ (a ++ (b ++ (c ++ (d ++ e)))) ≡ (l ++ (n ++ (a ++ (b ++ (c ++ d))))) ++ e
launch_split l n a b c d e = simp append_assoc

module _ {S : Type 0} (io : Io S) (laws : IoLaws io) where
  -- The UART's FIFO is seen to be empty within the polls that cmd_go has.
  abbrev pub CanDrain : Fuel → Type 0
  CanDrain fuel = (s : S) → (n : ℕ) × Drains io laws n s × (n < fuel.polls)

  -- A run that ends with the jump, where the memory in front of it is `mem`.
  abbrev pub Jumps : MemoryLaws io laws → M S (List ℕ) → S → ℕ → Memory → Type 0
  Jumps words_kept m s g mem =
      (buf : List ℕ) × (s' : S) × (es : List Event) × (m s ≡ some (buf, s'))
      × (laws.log s' ≡ es ++ (masked ∷ jumped g ∷ []))
      × (after words_kept.initial es ≡ mem)

module _ {S : Type 0} (io : Io S) (laws : IoLaws io) (words_kept : MemoryLaws io laws) (fuel : Fuel)
    (line_buf : List ℕ) (size : length line_buf ≡ cmd_buf_size) where
  go_round :
      (t : Typed) (rest wa cmd_buf : List ℕ) (more : List (List ℕ)) (g : ℕ) (s : S)
      → length cmd_buf ≡ cmd_buf_size
      → IsTyped fuel.keys t
      → words (typed_text t) ≡ codes "go" ∷ wa ∷ more
      → hex_meaning wa ≡ some g
      → CanDrain io laws fuel
      → laws.input s ≡ t.keys ++ t.enter ∷ rest
      → Jumps io laws words_kept
          (shell_round io fuel line_buf cmd_buf)
          s
          g
          (after words_kept.initial (laws.log s))
  unfolding command_name run_command address_arg
  go_round t rest wa cmd_buf more g s len (edits, enter, enough) named hg drains inp =
      let line = codes "go" ∷ wa ∷ more in
      let (s1, args, buf, run, texts, i1, l1, len1) =
        shell_round-runs io laws fuel line_buf cmd_buf s t.keys t.enter rest go (wa ∷ more) len
          edits enter enough inp named in
      let two : leb 2 (argc args) ≡ true = ground (arith, argc-Given args line texts) in
      let addr : address_arg args ≡ some g =
        rw (two, address_arg) (argv-hex args line 1 texts ∙ hg) in
      let (r, (s2, e2, i2, l2), waiting, done) =
        cmd_go_jumps io laws fuel.polls args g s1 addr drains in
      let es = launch_events t g r.busy r.done in
      let quiet : after (after words_kept.initial (laws.log s)) es
          ≡ after words_kept.initial (laws.log s) =
        after-stores (after words_kept.initial (laws.log s)) es
        ∙ rw (launch_quiet t g r.busy r.done) refl in
      let returns : shell_round io fuel line_buf cmd_buf s ≡ some (buf, s2) =
        run ∙ rw (e2, ◌>>◌) refl in
      let log : laws.log s2 ≡ (laws.log s ++ es) ++ (masked ∷ jumped g ∷ []) =
        l2
        ∙ rw l1 (
            launch_split (laws.log s) (line_events t.keys t.enter) (map put (codes "Jumping to "))
              (map put (hex_text g)) (map put (codes " ...\r\n")) (drain_events r.busy r.done)
              (masked ∷ jumped g ∷ [])) in
      (
        buf,
        s2,
        laws.log s ++ es,
        returns,
        log,
        after-append words_kept.initial (laws.log s) es ∙ quiet,
      )

  -- A session that loads a program last, and then "go": for any lines that are cancelled or whose
  -- words ask for requests, the last of them with the words of a program at a 32-bit address, and
  -- one more line with the command "go" and an address that can be read, on a UART whose FIFO is
  -- seen to be empty within the polls that cmd_go has: the rounds on the lines return, and the next
  -- round returns too. Its last effects are that interrupts are masked and that it jumps to the
  -- address, and in front of them the words at consecutive addresses from the aligned address of
  -- the program on are the words of the program.
  pub program_starts :
      (es : List Entry) (t1 t2 end : Typed) (body : List Typed) (a g : ℕ) (wa rest cmd_buf : List ℕ)
      (more : List (List ℕ)) (s : S)
      → length cmd_buf ≡ cmd_buf_size
      → let vs = words_of (map typed_text body) in
        let lines = es ++ (asking t1 (load_words a body end) ∷ []) in
        All (IsEntry laws.is_memory fuel) lines
        → a < 2 ^ 32
        → length vs * 4 ≤ 2 ^ 32
        → IsTyped fuel.keys t2
        → words (typed_text t2) ≡ codes "go" ∷ wa ∷ more
        → hex_meaning wa ≡ some g
        → CanDrain io laws fuel
        → laws.input s ≡ entry_chars lines (t2.keys ++ t2.enter ∷ rest)
        → (buf : List ℕ) × (s1 : S) × (mem : Memory) × (shell_loop io fuel
              (length lines)
              line_buf
              cmd_buf
              s
            ≡ some (buf, s1))
          × Jumps io laws words_kept (shell_round io fuel line_buf buf) s1 g mem
          × ((i : ℕ) → i < length vs → mem (word_at (word_align a) i) ≡ get_or vs i 0)
  unfolding word_align
  program_starts es t1 t2 end body a g wa rest cmd_buf more s len ok fits short typed2 named hg
        drains inp =
      let vs = words_of (map typed_text body) in
      let lines : List Entry = es ++ (asking t1 (load_words a body end) ∷ []) in
      let mem = after words_kept.initial (laws.log s) in
      let (buf, s1, e1, len1, now, screen) =
        shell_loop-Refines io laws words_kept fuel line_buf size lines (t2.keys ++ t2.enter ∷ rest)
          cmd_buf s len ok inp in
      let held : after words_kept.initial (laws.log s1) ≡ memory_after_all mem lines =
        ap (λ (w : World). w.memory) now in
      let loaded_last : memory_after_all mem lines
          ≡ write_words (memory_after_all mem es) (at_words (word_align a) vs) =
        memory_after_all-append es (asking t1 (load_words a body end) ∷ []) mem in
      (
        buf,
        s1,
        after words_kept.initial (laws.log s1),
        e1,
        go_round t2 rest wa buf more g s1 len1 typed2 named hg drains
            (ap (λ (w : World). w.input) now),
        λ i below.
            ap (λ (m : Memory). m (word_at (word_align a) i)) (held ∙ loaded_last)
            ∙ write_words-word_at vs (memory_after_all mem es) (word_align a) i
                (words_of-All (map typed_text body)) short (omega arith) below,
      )
