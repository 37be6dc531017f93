-- ===== src/Shell/Monitor/Session.antt =====
-- The command loop of main, and the monitor.
use vsync.Prelude.{
  All, List, [], ap, append-nil, append_assoc, arith, codes, inl, inr, length, map, refl, some, sym,
  true, ℕ, ◌++◌, ◌-◌, ◌∙◌, ◌∷◌, ◌≡◌,
}
use vsync.Machine.{M, Io, IoLaws, got, put, ◌>>=◌, ◌>>◌}
use vsync.Machine.Memory.{
  Memory, MemoryLaws, World, world, world-Does, after, after-append, after-put, shown, shown-append,
  shown-put,
}
use vsync.Readline.Edit.{is_enter, edit_events}
use vsync.Args.Words.{words}
use vsync.Commands.Load.{cmd_buf_size}
use vsync.Commands.Stores.{after-stores, stores-edit_events}
use vsync.Commands.Script.{Typed, typed_text, IsTyped, IsCancelled, echo}
use vsync.Shell.{Fuel, shell_round, shell_loop}
use vsync.Shell.Prompt.{line_events, shell_round-enters, shell_round-cancels}
use vsync.Shell.Monitor.{
  Request, Asks, Entry, IsEntry, answer, memory_after, request_chars, entry_chars, line_end,
  prompt_text, transcript, memory_after_all,
}
use vsync.Shell.Monitor.Dispatch.{dispatch_command-Serves}

-- The prompt and the echo, up to the end of the line.
shown_prompt :
    (keys : List ℕ) (c : ℕ) (end : List ℕ)
    → shown (
        map put (codes "vsync> ")
        ++ (edit_events (cmd_buf_size - 1) [] keys ++ (got c ∷ map put end)))
      ≡ codes "vsync> " ++ (echo keys ++ end)
shown_prompt keys c end =
    let line = edit_events (cmd_buf_size - 1) [] keys in
    shown-append (map put (codes "vsync> ")) (line ++ (got c ∷ map put end))
    ∙ ap (λ l. codes "vsync> " ++ l)
        (shown-append line (got c ∷ map put end) ∙ rw (shown-put end) refl)

-- They leave the memory alone.
after_prompt :
    (mem : Memory) (keys : List ℕ) (c : ℕ) (end : List ℕ)
    → after mem (
        map put (codes "vsync> ")
        ++ (edit_events (cmd_buf_size - 1) [] keys ++ (got c ∷ map put end)))
      ≡ mem
after_prompt mem keys c end =
    let line = edit_events (cmd_buf_size - 1) [] keys in
    let quiet : after mem line ≡ mem =
      after-stores mem line ∙ rw (stores-edit_events (cmd_buf_size - 1) [] keys) refl in
    after-append mem line (got c ∷ map put end) ∙ rw quiet (after-put mem end)

enter-line_end : (c : ℕ) → is_enter c ≡ true → line_end c ≡ codes "\r\n"
enter-line_end c e = ground arith

module _ {S : Type 0} (io : Io S) (laws : IoLaws io) (words_kept : MemoryLaws io laws) where
  abbrev pub now : S → World
  now = world io laws words_kept

  -- A run that returns a buffer of CMD_BUF_SIZE bytes, shows `out` and leaves the world `w`.
  abbrev pub Ends : M S (List ℕ) → S → List ℕ → World → Type 0
  Ends m s out w =
      (buf : List ℕ) × (s' : S) × (m s ≡ some (buf, s'))
      × (length buf ≡ cmd_buf_size)
      × (now s' ≡ w)
      × (shown (laws.log s') ≡ shown (laws.log s) ++ out)

module _ {S : Type 0} (io : Io S) (laws : IoLaws io) (words_kept : MemoryLaws io laws) (fuel : Fuel)
    (line_buf : List ℕ) (size : length line_buf ≡ cmd_buf_size) where
  abbrev Ending : M S (List ℕ) → S → List ℕ → World → Type 0
  Ending = Ends io laws words_kept

  module _ (t : Typed) (mem : Memory) (rest cmd_buf : List ℕ) (s : S)
      (len : length cmd_buf ≡ cmd_buf_size) where
    cancel_round :
        IsCancelled fuel.keys t
        → now io laws words_kept s ≡ record { input = t.keys ++ t.enter ∷ rest; memory = mem }
        → Ending
            (shell_round io fuel line_buf cmd_buf)
            s
            (prompt_text t)
            (record { input = rest; memory = mem })
    cancel_round (edits, cancel, enough) h =
        let inp = ap (λ (w : World). w.input) h in
        let end = codes "^C\r\n" in
        let (buf, d, len') =
          shell_round-cancels io laws fuel line_buf cmd_buf s t.keys t.enter rest len edits enough
            inp cancel in
        let (s', e, v, l) =
          world-Does io laws words_kept (shell_round io fuel line_buf cmd_buf) s buf _ rest _ d h in
        let shows : line_end t.enter ≡ end = rw cancel refl in
        (
          buf,
          s',
          e,
          len',
          v ∙ rw (after_prompt mem t.keys t.enter end) refl,
          l ∙ rw (shown_prompt t.keys t.enter end, shows) refl,
        )

    enter_round :
        (r : Request)
        → IsTyped fuel.keys t
        → Asks laws.is_memory fuel (words (typed_text t)) r
        → now io laws words_kept s
          ≡ record { input = t.keys ++ t.enter ∷ request_chars r rest; memory = mem }
        → Ending
            (shell_round io fuel line_buf cmd_buf)
            s
            (prompt_text t ++ answer mem r)
            (record { input = rest; memory = memory_after mem r })
    unfolding line_events
    enter_round r (edits, enter, enough) asks h =
        let inp = ap (λ (w : World). w.input) h in
        let same = ap (λ (w : World). w.memory) h in
        let end = codes "\r\n" in
        let (s1, buf, round, text, i1, l1, len') =
          shell_round-enters io laws fuel line_buf cmd_buf s t.keys t.enter (request_chars r rest)
            len edits enough inp enter in
        let before : now io laws words_kept s1
            ≡ record { input = request_chars r rest; memory = mem } =
          rw (i1, l1, after-append, same, after_prompt) refl in
        let (s2, e2, v2, l2) =
          (dispatch_command-Serves io laws words_kept fuel line_buf size buf (words (typed_text t))
              r asks (ap words text) mem rest).run
            s1 before in
        (
          buf,
          s2,
          round ∙ rw (e2, ◌>>◌) refl,
          len',
          v2,
          l2 ∙ rw (l1, shown-append, shown_prompt, enter-line_end t.enter enter, append_assoc) refl,
        )

  entry_round :
      (e : Entry) (mem : Memory) (rest cmd_buf : List ℕ) (s : S)
      → length cmd_buf ≡ cmd_buf_size
      → IsEntry laws.is_memory fuel e
      → now io laws words_kept s ≡ record {
        input = e.line.keys ++ e.line.enter ∷ request_chars e.request rest;
        memory = mem;
      }
      → Ending
          (shell_round io fuel line_buf cmd_buf)
          s
          (prompt_text e.line ++ answer mem e.request)
          (record { input = rest; memory = memory_after mem e.request })
  entry_round e mem rest cmd_buf s len (inl (cancel, same)) h =
      rw (same, append-nil) (cancel_round e.line mem rest cmd_buf s len cancel (h ∙ rw same refl))
  entry_round e mem rest cmd_buf s len (inr (enter, asks)) h =
      enter_round e.line mem rest cmd_buf s len e.request enter asks h

  -- The loop refines the monitor. On lines that are cancelled, or that are entered and whose words
  -- ask for the requests, with fuel for each line, on buffers of CMD_BUF_SIZE bytes: as many rounds
  -- as there are lines return; they take the typed lines from the input, the memory is what the
  -- requests make of it one after the other, and the prompts, the echoes and the answers are shown,
  -- each answer that of the monitor on the memory as the requests before it left it.
  pub shell_loop-Refines :
      (es : List Entry) (rest cmd_buf : List ℕ) (s : S)
      → length cmd_buf ≡ cmd_buf_size
      → All (IsEntry laws.is_memory fuel) es
      → laws.input s ≡ entry_chars es rest
      → let mem = after words_kept.initial (laws.log s) in
        Ending
          (shell_loop io fuel (length es) line_buf cmd_buf)
          s
          (transcript mem es)
          (record { input = rest; memory = memory_after_all mem es })
  unfolding shell_loop
  shell_loop-Refines [] rest cmd_buf s len ok inp =
      (cmd_buf, s, refl, len, rw inp refl, sym (append-nil _))
  shell_loop-Refines (e ∷ es) rest cmd_buf s len (ok, oks) inp =
      let mem = after words_kept.initial (laws.log s) in
      let more = entry_chars es rest in
      let (buf, s1, e1, len1, v1, l1) = entry_round e mem more cmd_buf s len ok (rw inp refl) in
      let inp1 = ap (λ (w : World). w.input) v1 in
      let mem1 = ap (λ (w : World). w.memory) v1 in
      let (buf2, s2, e2, len2, v2, l2) = shell_loop-Refines es rest buf s1 len1 oks inp1 in
      (
        buf2,
        s2,
        rw (e1, ◌>>=◌) e2,
        len2,
        v2 ∙ rw mem1 refl,
        l2 ∙ rw (l1, mem1) (append_assoc (shown (laws.log s)) _ _),
      )
