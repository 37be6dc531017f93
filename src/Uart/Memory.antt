-- ===== src/Uart/Memory.antt =====
-- The console of shell.c beside memory that keeps what is written, restricted to the states at which
-- the log of the operations tells what the memory holds and what has been sent.
use vsync.Prelude.{
  List, Option, [], ap, append-nil, append_assoc, if◌then◌else◌, none, refl, some, subst, sym, true,
  ℕ, ◌%◌, ◌++◌, ◌==◌, ◌^◌, ◌∙◌, ◌∷◌, ◌≡◌,
}
use vsync.Machine.{Does, M, Io, IoLaws, Event, got, put, loaded, stored, masked, jumped}
use vsync.Machine.Memory.{Memory, update, after, after-append, shown, shown-append, MemoryLaws}
use vsync.Machine.Kept.{Keeping, Kept, kept_io, kept_laws, carry-Does}
use vsync.Uart.{Hardware, uart_io, reg32, set_reg32}
use vsync.Uart.Leaves.{
  Leaves, Leaves-some, reg32-Leaves, shell_getchar_blocking-Leaves, shell_putchar-Leaves,
  shell_putchar-adds,
}
use vsync.Uart.Console.{traced, logged, logged-returns, Receives, uart_laws}

-- Memory that keeps what is written: a read at an address of memory gives the cell there and takes no
-- character, a write sets the cell, and nothing else changes a cell.
pub record Remembers {S : Type 0} (hw : Hardware S) (polls uart_fd : ℕ)
    (r : Receives hw polls uart_fd) : Type 0 where
  pub cell : S → Memory
  pub holds : (a : ℕ) (s : S) → r.is_memory a ≡ true → (hw.read a s).0 ≡ cell s a
  pub quiet : (a : ℕ) (s : S) → r.is_memory a ≡ true → r.input (hw.read a s).1 ≡ r.input s
  pub read_cell : (a b : ℕ) (s : S) → r.is_memory b ≡ true → cell (hw.read a s).1 b ≡ cell s b
  pub set_cell :
      (a v b : ℕ) (s : S) → r.is_memory b ≡ true → cell (hw.set_reg a v s) b ≡ update (cell s) a v b
  pub send_cell :
      (fd c b : ℕ) (s : S)
      → r.is_memory b ≡ true
      → cell (hw.kernel.ecall 0x53 (fd ∷ c ∷ 1 ∷ []) s).1 b ≡ cell s b
  pub mask_cell : (b : ℕ) (s : S) → r.is_memory b ≡ true → cell (hw.csrci s) b ≡ cell s b
  pub jump_cell : (a b : ℕ) (s : S) → r.is_memory b ≡ true → cell (hw.jump_to a s) b ≡ cell s b

module _ {S : Type 0} (hw : Hardware S) (polls uart_fd : ℕ) (r : Receives hw polls uart_fd)
    (memory : Remembers hw polls uart_fd r) (first : Memory) (before : List ℕ) where
  -- The cells of memory are as `f` says.
  abbrev pub Cells : Memory → S → Type 0
  Cells f s = (b : ℕ) → r.is_memory b ≡ true → memory.cell s b ≡ f b

  -- The log tells what the memory holds, which held `first` at the start of the log, and what has
  -- been sent to the UART, which was `before` at the start.
  abbrev pub Agrees : S × List Event → Type 0
  Agrees (s, es) = Cells (after first es) s × (r.sent s ≡ before ++ shown es)

  pub reads-Cells : (f : Memory) (a : ℕ) (s : S) → Cells f s → Cells f (hw.read a s).1
  reads-Cells f a s h b is_word = memory.read_cell a b s is_word ∙ h b is_word

  pub sends-Cells :
      (f : Memory) (fd c : ℕ) (s : S)
      → Cells f s
      → Cells f (hw.kernel.ecall 0x53 (fd ∷ c ∷ 1 ∷ []) s).1
  sends-Cells f fd c s h b is_word = memory.send_cell fd c b s is_word ∙ h b is_word

  shows :
      (s t : S) (es fs : List Event)
      → r.sent t ≡ r.sent s ++ shown fs
      → r.sent s ≡ before ++ shown es
      → r.sent t ≡ before ++ shown (es ++ fs)
  shows s t es fs e h =
      e
      ∙ (ap (λ l. l ++ shown fs) h
          ∙ (append_assoc before (shown es) (shown fs)
              ∙ ap (λ l. before ++ l) (sym (shown-append es fs))))

  -- An operation that leaves the cells alone, whose event is no write, and that sends what its event
  -- says.
  pub logged-Agrees :
      {A : Type 0} (m : M S A) (event : A → Event)
      → ((f : Memory) → Leaves (Cells f) m)
      → ((f : Memory) (a : A) → after f (event a ∷ []) ≡ f)
      → ((s t : S) (a : A) → m s ≡ some (a, t) → r.sent t ≡ r.sent s ++ shown (event a ∷ []))
      → (p q : S × List Event) (a : A) → logged m event p ≡ some (a, q)
      → Agrees p
      → Agrees q
  logged-Agrees m event leaves no_write sends (s, es) q a e (h, out) =
      let (a', t, run, same) = logged-returns m event s es a q e in
      let cells : Cells (after first (es ++ (event a' ∷ []))) t = λ b is_word.
        (leaves (after first es)).at s t a' run h b is_word ∙ rw (after-append, no_write) refl in
      subst Agrees same (cells, shows s t es (event a' ∷ []) (sends s t a' run) out)

  -- An operation that sends nothing.
  pub silent :
      {A : Type 0} (m : M S A)
      → ((l : List ℕ) → Leaves (λ s. r.sent s ≡ l) m)
      → (s t : S) (a : A) → m s ≡ some (a, t)
      → r.sent t ≡ r.sent s ++ []
  silent m leaves s t a run = (leaves (r.sent s)).at s t a run refl ∙ sym (append-nil (r.sent s))

  pub sent-Reads : (l : List ℕ) (a : ℕ) (s : S) → r.sent s ≡ l → r.sent (hw.read a s).1 ≡ l
  sent-Reads l a s h = r.reads_sent a s ∙ h

  -- A write.
  pub stored-Agrees :
      (a v : ℕ) (p q : S × List Event) (u : Unit {0})
      → logged (set_reg32 hw a v) (λ x. stored a v) p ≡ some (u, q)
      → Agrees p
      → Agrees q
  unfolding set_reg32
  stored-Agrees a v (s, es) q u e (h, out) =
      let t = hw.set_reg a v s in
      let next : S × List Event = (t, es ++ (stored a v ∷ [])) in
      let same : next ≡ q =
        ap (λ (o : Option (Unit {0} × (S × List Event))). elim o [ none ↦ next | some x ↦ x.1 ])
          e in
      let cells : Cells (after first (es ++ (stored a v ∷ []))) t = λ b is_word.
        memory.set_cell a v b s is_word
        ∙ (ap (λ x. if a == b then v % 2 ^ 32 else x) (h b is_word) ∙ rw after-append refl) in
      let quiet = r.writes_sent a v s ∙ sym (append-nil (r.sent s)) in
      subst Agrees same (cells, shows s t es (stored a v ∷ []) quiet out)

  unfoldable pub keeping : Keeping Agrees (traced (uart_io hw polls uart_fd))
  unfolding uart_io
  keeping = record {
    keeps_getchar =
        logged-Agrees _ got (λ f. shell_getchar_blocking-Leaves hw (Cells f) (reads-Cells f) polls)
          (λ f a. refl)
          (silent _ λ l. shell_getchar_blocking-Leaves hw (λ s. r.sent s ≡ l) (sent-Reads l) polls);
    keeps_putchar = λ c.
        logged-Agrees _ (λ x. put c)
          (λ f. shell_putchar-Leaves hw (Cells f) (reads-Cells f) (sends-Cells f) polls uart_fd c)
          (λ f a. refl)
          (shell_putchar-adds hw r.sent (λ l. l ++ (c ∷ [])) r.reads_sent polls uart_fd c
            (r.sends_byte c));
    keeps_load = λ a.
        logged-Agrees _ (loaded a) (λ f. reg32-Leaves hw (Cells f) (reads-Cells f) a) (λ f v. refl)
          (silent _ λ l. reg32-Leaves hw (λ s. r.sent s ≡ l) (sent-Reads l) a);
    keeps_store = stored-Agrees;
    keeps_mask =
        logged-Agrees _ (λ x. masked)
          (λ f.
            Leaves-some (λ s. (tt, hw.csrci s))
              (λ s h b is_word. memory.mask_cell b s is_word ∙ h b is_word))
          (λ f a. refl)
          (silent _ λ l. Leaves-some (λ s. (tt, hw.csrci s)) (λ s h. r.masks_sent s ∙ h));
    keeps_jump = λ a.
        logged-Agrees _ (λ x. jumped a)
          (λ f.
            Leaves-some (λ s. (tt, hw.jump_to a s))
              (λ s h b is_word. memory.jump_cell a b s is_word ∙ h b is_word))
          (λ f v. refl)
          (silent _ λ l. Leaves-some (λ s. (tt, hw.jump_to a s)) (λ s h. r.jumps_sent a s ∙ h));
  }

  -- The console on the states at which the log tells what the memory holds and what has been sent.
  abbrev pub console : Io (Kept Agrees)
  console = kept_io Agrees (traced (uart_io hw polls uart_fd)) keeping

  abbrev pub console_laws : IoLaws console
  console_laws =
      kept_laws Agrees (traced (uart_io hw polls uart_fd)) keeping (uart_laws hw polls uart_fd r)

  pub loads :
      (s : S) (es : List Event) (a : ℕ)
      → Agrees (s, es)
      → r.is_memory a ≡ true
      → let v = after first es a in
        let laws = uart_laws hw polls uart_fd r in
        Does laws.input laws.log
          ((traced (uart_io hw polls uart_fd)).load a)
          (s, es)
          v
          (loaded a v ∷ [])
          (laws.input (s, es))
  unfolding uart_laws uart_io reg32
  loads s es a h is_word =
      let laws = uart_laws hw polls uart_fd r in
      let load = (traced (uart_io hw polls uart_fd)).load a in
      let (v, next) = hw.read a s in
      let same : v ≡ after first es a = memory.holds a s is_word ∙ h.0 a is_word in
      subst (λ x. Does laws.input laws.log load (s, es) x (loaded a x ∷ []) (laws.input (s, es)))
        same ((next, es ++ (loaded a v ∷ [])), refl, memory.quiet a s is_word, refl)

  unfoldable pub console_words : MemoryLaws console console_laws
  unfolding uart_laws
  console_words = record {
    initial = first;
    read_law = λ s a is_word.
        let laws = uart_laws hw polls uart_fd r in
        carry-Does Agrees ((traced (uart_io hw polls uart_fd)).load a) (keeping.keeps_load a)
          laws.input laws.log s.0 s.1 _ _ _ (loads s.0.0 s.0.1 a s.1 is_word);
  }
