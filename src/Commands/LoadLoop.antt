-- ===== src/Commands/LoadLoop.antt =====
-- The loop of cmd_load: what it writes to memory, and what it shows.
use vsync.Prelude.{
  All, Bool-cases, List, Option-cases, [], all, ap, append_assoc, arith, codes, cstr, false, inl,
  inr, length, map, refl, some, subst, suc, true, zero, ℕ, ◌%◌, ◌++◌, ◌+◌, ◌-◌, ◌<◌, ◌^◌, ◌∙◌, ◌∷◌,
  ◌≡◌,
}
use vsync.Machine.{M, Io, IoLaws, got, put, ◌>>=◌}
use vsync.Machine.Memory.{shown, shown-append, shown-put}
use vsync.Hex.Parse.{hex_meaning}
use vsync.Readline.{Line, shell_readline}
use vsync.Readline.Edit.{edit_events}
use vsync.Readline.Buffer.{length-text_of}
use vsync.Readline.Lines.{shell_readline_enters, shell_readline_cancels}
use vsync.Commands.{say}
use vsync.Commands.Load.{cmd_buf_size, load_line, load_loop}
use vsync.Commands.Stores.{
  stores, stores-append, stores-edit_events, stores-put, Writes, Writes-bind, Writes-store,
  Writes-Prints, Writes-print,
}
use vsync.Commands.Script.{
  Typed, typed_line, typed_text, chars, IsTyped, IsBody, IsCancelled, is_last, is_comment, words_of,
  words_of-skip, words_of-word, at_words, echo, line_echo, reply_text, body_text, end_text,
  abort_text, bad_text,
}
use vsync.Commands.Round.{
  load_error-Prints, load_report-Prints, given, load_line-last, load_line-comment, load_line-bad,
  load_line-word, puts-Prints,
}

-- What a round of the loop leads to.
abbrev next_round : {S : Type 0} → Io S → ℕ → ℕ → ℕ → List ℕ → ℕ → ℕ → M S (Unit {0})
next_round io lines fuel addr buf cur count = load_loop io lines fuel buf addr cur count

-- The echo of keys writes nothing, and neither does the end of the line.
quiet_echo :
    (keys : List ℕ) (c : ℕ) (end : List ℕ)
    → (stores (edit_events (cmd_buf_size - 1) [] keys ++ got c ∷ map put end) ≡ [])
      × (shown (edit_events (cmd_buf_size - 1) [] keys ++ got c ∷ map put end) ≡ echo keys ++ end)
quiet_echo keys c end = (
  stores-append (edit_events (cmd_buf_size - 1) [] keys) (got c ∷ map put end)
      ∙ rw (stores-edit_events (cmd_buf_size - 1) [] keys) (stores-put end),
  shown-append (edit_events (cmd_buf_size - 1) [] keys) (got c ∷ map put end)
      ∙ rw (shown-put end) refl,
)

module _ {S : Type 0} (io : Io S) (laws : IoLaws io) where
  abbrev pub InMemory : List (ℕ × ℕ) → Type 0
  InMemory ps = all (λ p. laws.is_memory p.0) ps ≡ true

  abbrev Writing : M S (Unit {0}) → S → List (ℕ × ℕ) → List ℕ → List ℕ → Type 0
  Writing = Writes laws.input laws.log

  -- A line that is read writes nothing; `f` is what follows.
  typed-Writes :
      (fuel : ℕ) (buf : List ℕ) (s : S) (t : Typed) (rest rest' out : List ℕ) (ps : List (ℕ × ℕ))
      (f : Line → M S (Unit {0}))
      → length buf ≡ cmd_buf_size
      → IsTyped fuel t
      → laws.input s ≡ t.keys ++ t.enter ∷ rest
      → ((s' : S) (buf' : List ℕ)
          → cstr buf' ≡ typed_text t
          → length buf' ≡ cmd_buf_size
          → laws.input s' ≡ rest
          → Writing (f (record { len = some (length (cstr buf')); buf = buf' })) s' ps out rest')
      → Writing (shell_readline io fuel buf cmd_buf_size >>= f) s ps (line_echo t ++ out) rest'
  typed-Writes fuel buf s t rest rest' out ps f len (edits, enter, enough) inp k =
      let line = typed_line t in
      let (buf', d, text, fits, len') =
        shell_readline_enters io laws fuel buf cmd_buf_size s t.keys t.enter rest (omega arith) len
          edits enter enough inp in
      let size : length (cstr buf') ≡ length line = ap length text ∙ length-text_of line in
      let (quiet, screen) = quiet_echo t.keys t.enter (codes "\r\n") in
      rw (← screen) (
        Writes-bind laws.input laws.log (shell_readline io fuel buf cmd_buf_size) f s _ _ rest rest'
          out [] ps d quiet λ s' i'. rw (← size) (k s' buf' text len' i'))

  -- A round before the last one, where `next` writes the words of the lines behind it, and shows
  -- `out`.
  load_line-Writes :
      (next : List ℕ → ℕ → ℕ → M S (Unit {0})) (addr cur count : ℕ) (buf : List ℕ) (s : S)
      (rest rest' : List ℕ) (texts : List (List ℕ)) (out : ℕ → ℕ → List ℕ)
      → is_last (cstr buf) ≡ false
      → laws.input s ≡ rest
      → count < 2 ^ 32
      → InMemory (at_words cur (words_of (cstr buf ∷ texts)))
      → ((s' : S) (cur' count' : ℕ)
          → laws.input s' ≡ rest
          → count' < 2 ^ 32
          → InMemory (at_words cur' (words_of texts))
          → Writing
              (next buf cur' count')
              s'
              (at_words cur' (words_of texts))
              (out cur' count')
              rest')
      → Writing
          (load_line io next addr cur count (given io laws next addr cur count buf))
          s
          (at_words cur (words_of (cstr buf ∷ texts)))
          (reply_text out cur count (cstr buf))
          rest'
  unfolding reply_text
  load_line-Writes next addr cur count buf s rest rest' texts out more inp fits mem k =
      elim (Bool-cases (is_comment (cstr buf))) [
        | inl comment ↦
            let same : words_of (cstr buf ∷ texts) ≡ words_of texts =
              words_of-skip (cstr buf) texts (ground (arith, comment)) in
            let line = load_line-comment io laws next addr cur count buf more comment in
            rw (line, same, comment, reply_text) (k s cur count inp fits (rw (← same) mem))
        | inr other ↦ elim (Option-cases (hex_meaning (cstr buf))) [
          | inl bad ↦
              let same : words_of (cstr buf ∷ texts) ≡ words_of texts =
                words_of-skip (cstr buf) texts (ground (arith, other, bad)) in
              let line = load_line-bad io laws next addr cur count buf more other bad in
              rw (line, same, other, bad, reply_text)
                (Writes-print laws.input laws.log _ _ s (bad_text (cstr buf)) rest rest'
                  (out cur count) _ (load_error-Prints io laws buf) inp
                  λ s' i'. k s' cur count i' fits (rw (← same) mem))
          | inr (v, good) ↦
              let same : words_of (cstr buf ∷ texts) ≡ v ∷ words_of texts =
                words_of-word (cstr buf) texts v (ground (arith, other, good)) in
              let line = load_line-word io laws next addr cur count buf v more other good in
              let mem' = subst (λ (vs : List ℕ). InMemory (at_words cur vs)) same mem in
              let here : laws.is_memory cur ≡ true = ground (arith, mem') in
              let there : InMemory (at_words ((cur + 4) % 2 ^ 32) (words_of texts)) =
                ground (arith, mem') in
              rw (line, same, other, good, reply_text)
                (Writes-store laws.input laws.log (io.store cur v) _ s cur v rest rest'
                  (out ((cur + 4) % 2 ^ 32) ((count + 1) % 2 ^ 32)) _
                  (rw (← inp) (laws.memory_law s cur v here))
                  λ s' i'. k s' ((cur + 4) % 2 ^ 32) ((count + 1) % 2 ^ 32) i' (omega arith) there)
        ]
      ]

  -- The loop of cmd_load writes the words of the lines before the last one, one after the other.
  -- `finish` is what the round behind these lines shows.
  pub load_loop-Writes :
      (lines fuel addr : ℕ) (tail rest : List ℕ) (finish : ℕ → ℕ → List ℕ)
      → ((lines : ℕ) (buf : List ℕ) (cur count : ℕ) (s : S)
          → length buf ≡ cmd_buf_size
          → count < 2 ^ 32
          → laws.input s ≡ tail
          → Writing (load_loop io (suc lines) fuel buf addr cur count) s [] (finish cur count) rest)
      → (buf : List ℕ) (cur count : ℕ) (s : S) (body : List Typed) → length buf ≡ cmd_buf_size
      → count < 2 ^ 32
      → All (IsBody fuel) body
      → length body < lines
      → InMemory (at_words cur (words_of (map typed_text body)))
      → laws.input s ≡ chars body tail
      → Writing
          (load_loop io lines fuel buf addr cur count)
          s
          (at_words cur (words_of (map typed_text body)))
          (body_text finish cur count body)
          rest
  unfolding load_loop words_of body_text
  load_loop-Writes zero fuel addr tail rest finish last buf cur count s body len fits ok enough mem
        inp =
      absurd (omega arith)
  load_loop-Writes (suc lines) fuel addr tail rest finish last buf cur count s [] len fits ok enough
        mem inp =
      last lines buf cur count s len fits inp
  load_loop-Writes (suc lines) fuel addr tail rest finish last buf cur count s (t ∷ body) len fits
        ((ok, more), oks) enough mem inp =
      let next = next_round io lines fuel addr in
      let after = λ (a n : ℕ). body_text finish a n body in
      typed-Writes fuel buf s t (chars body tail) rest (reply_text after cur count (typed_text t)) _
        (load_line io next addr cur count) len ok inp
        λ s' buf' text len' i'. rw (← text) (
          load_line-Writes next addr cur count buf' s' (chars body tail) rest (map typed_text body)
            after (rw text more) i' fits (rw text mem)
            λ s2 cur' count' i2 fits' mem'.
              load_loop-Writes lines fuel addr tail rest finish last buf' cur' count' s2 body len'
                fits' oks (omega arith) mem' i2)

  -- The round that ends the loop on a last line, and on Ctrl-C.
  pub last-Writes :
      (fuel addr : ℕ) (end : Typed) (rest : List ℕ)
      → IsTyped fuel end
      → is_last (typed_text end) ≡ true
      → (lines : ℕ) (buf : List ℕ) (cur count : ℕ) (s : S) → length buf ≡ cmd_buf_size
      → count < 2 ^ 32
      → laws.input s ≡ end.keys ++ end.enter ∷ rest
      → Writing
          (load_loop io (suc lines) fuel buf addr cur count)
          s
          []
          (end_text addr end cur count)
          rest
  unfolding load_loop
  last-Writes fuel addr end rest ok last lines buf cur count s len fits inp =
      let next = next_round io lines fuel addr in
      typed-Writes fuel buf s end rest rest _ [] (load_line io next addr cur count) len ok inp
        λ s' buf' text len' i'.
          rw (load_line-last io laws next addr cur count buf' (rw text last)) (
            Writes-Prints laws.input laws.log _ s' _ rest
              (load_report-Prints io laws addr cur count fits) i')

  pub abort-Writes :
      (fuel addr : ℕ) (end : Typed) (rest : List ℕ)
      → IsCancelled fuel end
      → (lines : ℕ) (buf : List ℕ) (cur count : ℕ) (s : S) → length buf ≡ cmd_buf_size
      → count < 2 ^ 32
      → laws.input s ≡ end.keys ++ end.enter ∷ rest
      → Writing (load_loop io (suc lines) fuel buf addr cur count) s [] (abort_text end.keys) rest
  unfolding load_loop load_line
  abort-Writes fuel addr end rest (edits, cancel, enough) lines buf cur count s len fits inp =
      let next = next_round io lines fuel addr in
      let (buf', d, text, len') =
        shell_readline_cancels io laws fuel buf cmd_buf_size s end.keys end.enter rest (omega arith)
          len edits cancel enough inp in
      let (quiet, screen) = quiet_echo end.keys end.enter (codes "^C\r\n") in
      rw (← append_assoc, ← screen)
        (Writes-bind laws.input laws.log (shell_readline io fuel buf cmd_buf_size)
          (load_line io next addr cur count) s _ _ rest rest (codes "Aborted.\r\n") [] [] d quiet
          λ s' i'.
            Writes-Prints laws.input laws.log (say io "Aborted.\r\n") s' (codes "Aborted.\r\n") rest
              (puts-Prints io laws (codes "Aborted.\r\n")) i')
