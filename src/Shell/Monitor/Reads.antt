-- ===== src/Shell/Monitor/Reads.antt =====
-- Lines that write memory, and lines that show it.
use vsync.Prelude.{
  All, List, [], ap, append-nil, arith, length, map, subst, ℕ, ◌++◌, ◌+◌, ◌<◌, ◌^◌, ◌∙◌, ◌∷◌, ◌≡◌,
  ◌≤◌,
}
use vsync.Machine.{Io, IoLaws}
use vsync.Machine.Memory.{Memory, MemoryLaws, World, after}
use vsync.Commands.{word_align}
use vsync.Commands.Load.{cmd_buf_size}
use vsync.Commands.Memory.{clamp_count, peek_max_words}
use vsync.Commands.Script.{Typed, typed_text, words_of}
use vsync.Shell.{Fuel, shell_loop}
use vsync.Shell.Monitor.{
  peek_words, load_words, Entry, asking, IsEntry, answer, memory_after, entry_chars, prompt_text,
  transcript, memory_after_all,
}
use vsync.Shell.Monitor.Session.{Ends, shell_loop-Refines}
use vsync.Shell.Monitor.RoundTrip.{lines_of, write_words-word_at, peek_text-lines_of, words_of-All}

clamp_count-fits : (n : ℕ) → 1 ≤ n → n ≤ peek_max_words → clamp_count n ≡ n
unfolding clamp_count
clamp_count-fits n some_words few = ground arith

-- The words that were loaded.
loaded_answer :
    (mem : Memory) (a : ℕ) (body : List Typed) (end : Typed)
    → let vs = words_of (map typed_text body) in
      a < 2 ^ 32
      → 1 ≤ length vs
      → length vs ≤ peek_max_words
      → answer (memory_after mem (load_words a body end)) (peek_words a (length vs))
        ≡ lines_of (word_align a) 0 vs
unfolding word_align
loaded_answer mem a body end fits some_words few =
    let vs = words_of (map typed_text body) in
    let at = word_align a in
    rw (clamp_count-fits (length vs) some_words few) (
      peek_text-lines_of vs (memory_after mem (load_words a body end)) at 0 λ i below.
        let e : 0 + i ≡ i = omega arith in
        rw e (
          write_words-word_at vs mem at i (words_of-All (map typed_text body)) (omega arith)
            (omega arith) below))

module _ {S : Type 0} (io : Io S) (laws : IoLaws io) (words_kept : MemoryLaws io laws) (fuel : Fuel)
    (line_buf : List ℕ) (size : length line_buf ≡ cmd_buf_size) (cmd_buf rest : List ℕ) (s : S)
    (len : length cmd_buf ≡ cmd_buf_size) where
  abbrev Ending : (n : ℕ) → List ℕ → World → Type 0
  Ending n out w = Ends io laws words_kept (shell_loop io fuel n line_buf cmd_buf) s out w

  -- Two lines, where the answer to the second is known.
  two_rounds :
      (e1 e2 : Entry) (out : List ℕ)
      → All (IsEntry laws.is_memory fuel) (e1 ∷ e2 ∷ [])
      → laws.input s ≡ entry_chars (e1 ∷ e2 ∷ []) rest
      → let mem = after words_kept.initial (laws.log s) in
        answer (memory_after mem e1.request) e2.request ≡ out
        → Ending 2
            ((prompt_text e1.line ++ answer mem e1.request) ++ (prompt_text e2.line ++ out))
            (record { input = rest; memory = memory_after_all mem (e1 ∷ e2 ∷ []) })
  two_rounds e1 e2 out ok inp h =
      let mem = after words_kept.initial (laws.log s) in
      let first = prompt_text e1.line ++ answer mem e1.request in
      let world : World = record { input = rest; memory = memory_after_all mem (e1 ∷ e2 ∷ []) } in
      let same : transcript mem (e1 ∷ e2 ∷ []) ≡ first ++ (prompt_text e2.line ++ out) =
        ap (λ l. first ++ l) (append-nil _ ∙ ap (λ l. prompt_text e2.line ++ l) h) in
      subst (λ l. Ending 2 l world) same
        (shell_loop-Refines io laws words_kept fuel line_buf size (e1 ∷ e2 ∷ []) rest cmd_buf s len
          ok inp)

  -- A line that asks to load words, with the lines that spell from one to 16 words, and a line that
  -- asks to peek as many words at the same address: behind the second prompt, the shell shows the
  -- words that were typed, in order, each with its address.
  pub load_then_peek :
      (t1 t2 end : Typed) (body : List Typed) (a : ℕ)
      → let vs = words_of (map typed_text body) in
        let es = asking t1 (load_words a body end) ∷ asking t2 (peek_words a (length vs)) ∷ [] in
        All (IsEntry laws.is_memory fuel) es
        → laws.input s ≡ entry_chars es rest
        → a < 2 ^ 32
        → 1 ≤ length vs
        → length vs ≤ peek_max_words
        → let mem = after words_kept.initial (laws.log s) in
          Ending 2
            ((prompt_text t1 ++ answer mem (load_words a body end))
              ++ (prompt_text t2 ++ lines_of (word_align a) 0 vs))
            (record { input = rest; memory = memory_after_all mem es })
  load_then_peek t1 t2 end body a ok inp fits some_words few =
      let vs = words_of (map typed_text body) in
      let mem = after words_kept.initial (laws.log s) in
      two_rounds (asking t1 (load_words a body end)) (asking t2 (peek_words a (length vs)))
        (lines_of (word_align a) 0 vs) ok inp (loaded_answer mem a body end fits some_words few)
