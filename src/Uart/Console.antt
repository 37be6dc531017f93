-- ===== src/Uart/Console.antt =====
-- The UART access of shell.c is a console as the rest of the shell takes it: it fulfils IoLaws of
-- Machine, if the hardware does what the register map says.
use vsync.Prelude.{
  Bool, List, Option, Option-cases, [], ap, arith, false, inl, inr, none, refl, some, sym, true, ℕ,
  ◌%◌, ◌++◌, ◌+◌, ◌<◌, ◌^◌, ◌∙◌, ◌∷◌, ◌≡◌,
}
use vsync.Machine.{M, Io, IoLaws, Event, got, put, loaded, stored, masked, jumped}
use vsync.Commands.{uart_base}
use vsync.Uart.{Hardware, uart_io, reg32, set_reg32, shell_getchar_blocking, shell_putchar}
use vsync.Uart.Leaves.{shell_putchar-adds}
use vsync.Uart.Polling.{Turns, shell_putchar_writes, shell_getchar_blocking_reads}

-- An operation that also keeps a log, the earliest event first.
abbrev pub logged : {S A : Type 0} → M S A → (A → Event) → M (S × List Event) A
logged m event (s, es) = elim (m s) [
  | none ↦ none
  | some (a, t) ↦ some (a, (t, es ++ (event a ∷ [])))
]

abbrev pub traced : {S : Type 0} → Io S → Io (S × List Event)
traced io = record {
  getchar_blocking = logged io.getchar_blocking got;
  putchar = λ c. logged (io.putchar c) (λ _. put c);
  load = λ a. logged (io.load a) (loaded a);
  store = λ a v. logged (io.store a v) (λ _. stored a v);
  clear_mie = logged io.clear_mie (λ _. masked);
  jump = λ a. logged (io.jump a) (λ _. jumped a);
}

pub logged-some :
    {S A : Type 0} (m : M S A) (event : A → Event) (s t : S) (es : List Event) (a : A)
    → m s ≡ some (a, t)
    → logged m event (s, es) ≡ some (a, (t, es ++ (event a ∷ [])))
logged-some m event s t es a e = rw (e, logged) refl

-- The hardware: the characters that it will receive, and how soon. In fewer polls than the spin
-- loops are given, a character that is to come sets the status register, and the data register
-- gives it once; and the transmitter has room. Nothing else takes a character, but a read of a
-- register may.
pub record Receives {S : Type 0} (hw : Hardware S) (polls uart_fd : ℕ) : Type 0 where
  pub input : S → List ℕ
  pub arrives :
      (s : S) (c : ℕ) (rest : List ℕ)
      → input s ≡ c ∷ rest
      → (n : ℕ) × (t : S) × Turns hw 3 false n s t
        × (n < polls)
        × ((hw.read (uart_base + 0x04) t).0 % 256 ≡ c)
        × (input (hw.read (uart_base + 0x04) t).1 ≡ rest)
  pub drains :
      (s : S) → (n : ℕ) × (t : S) × Turns hw 0 false n s t × (n < polls) × (input t ≡ input s)
  pub sends : (c : ℕ) (s : S) → input (hw.kernel.ecall 0x53 (uart_fd ∷ c ∷ 1 ∷ []) s).1 ≡ input s
  pub is_word : (a : ℕ) (s : S) → (hw.read a s).0 < 2 ^ 32
  pub is_memory : ℕ → Bool
  pub writes : (a v : ℕ) (s : S) → is_memory a ≡ true → input (hw.set_reg a v s) ≡ input s
  pub masks : (s : S) → input (hw.csrci s) ≡ input s
  pub jumps : (a : ℕ) (s : S) → input (hw.jump_to a s) ≡ input s
  -- The bytes that the kernel has been given to write to the UART, the earliest first.
  pub sent : S → List ℕ
  pub sends_byte :
      (c : ℕ) (s : S) → sent (hw.kernel.ecall 0x53 (uart_fd ∷ c ∷ 1 ∷ []) s).1 ≡ sent s ++ (c ∷ [])
  pub reads_sent : (a : ℕ) (s : S) → sent (hw.read a s).1 ≡ sent s
  pub writes_sent : (a v : ℕ) (s : S) → sent (hw.set_reg a v s) ≡ sent s
  pub masks_sent : (s : S) → sent (hw.csrci s) ≡ sent s
  pub jumps_sent : (a : ℕ) (s : S) → sent (hw.jump_to a s) ≡ sent s

-- The laws of the console on such hardware, with the hardware's input, the log of its operations and
-- the hardware's memory.
unfoldable pub uart_laws :
    {S : Type 0} (hw : Hardware S) (polls uart_fd : ℕ)
    → Receives hw polls uart_fd
    → IoLaws (traced (uart_io hw polls uart_fd))
unfolding uart_io reg32 set_reg32
uart_laws hw polls uart_fd r = record {
  input = λ s. r.input s.0;
  log = λ s. s.1;
  getchar_law = λ s c rest e.
      let (n, t, turns, h, same, after) = r.arrives s.0 c rest e in
      let next = (hw.read (uart_base + 0x04) t).1 in
      let reads = shell_getchar_blocking_reads hw polls turns h ∙ ap (λ x. some (x, next)) same in
      let run = logged-some (shell_getchar_blocking hw polls) got s.0 next s.1 c reads in
      ((next, s.1 ++ (got c ∷ [])), run, after, refl);
  putchar_law = λ s c.
      let (n, t, turns, h, same) = r.drains s.0 in
      let next = (hw.kernel.ecall 0x53 (uart_fd ∷ c ∷ 1 ∷ []) t).1 in
      let sent = shell_putchar_writes hw polls uart_fd c turns h in
      let run = logged-some (shell_putchar hw polls uart_fd c) (λ _. put c) s.0 next s.1 tt sent in
      ((next, s.1 ++ (put c ∷ [])), run, r.sends c t ∙ same, refl);
  load_law = λ s a.
      let (v, next) = hw.read a s.0 in
      ((v, r.input next), r.is_word a s.0, ((next, s.1 ++ (loaded a v ∷ [])), refl, refl, refl));
  store_law = λ s a v.
      let next = hw.set_reg a v s.0 in
      (r.input next, ((next, s.1 ++ (stored a v ∷ [])), refl, refl, refl));
  is_memory = r.is_memory;
  memory_law =
      λ s a v e. ((hw.set_reg a v s.0, s.1 ++ (stored a v ∷ [])), refl, r.writes a v s.0 e, refl);
  mask_law = λ s. ((hw.csrci s.0, s.1 ++ (masked ∷ [])), refl, r.masks s.0, refl);
  jump_law = λ s a. ((hw.jump_to a s.0, s.1 ++ (jumped a ∷ [])), refl, r.jumps a s.0, refl);
}

-- An operation with a log that returns: the operation has returned, and its event ends the log.
pub logged-returns :
    {S A : Type 0} (m : M S A) (event : A → Event) (s : S) (es : List Event) (a : A)
    (q : S × List Event)
    → logged m event (s, es) ≡ some (a, q)
    → (b : A) × (t : S) × (m s ≡ some (b, t)) × ((t, es ++ (event b ∷ [])) ≡ q)
logged-returns {S} {A} m event s es a q e = elim (Option-cases (m s)) [
  | inl stuck ↦
      let fails : logged m event (s, es) ≡ none = rw (stuck, logged) in
      absurd (ground (arith, fails, e))
  | inr ((b, t), run) ↦
      let next : S × List Event = (t, es ++ (event b ∷ [])) in
      let same : next ≡ q =
        ap (λ (o : Option (A × (S × List Event))). elim o [ none ↦ next | some x ↦ x.1 ])
          (sym (logged-some m event s t es b run) ∙ e) in
      (b, t, run, same)
]

pub putchar-sends :
    {S : Type 0} (hw : Hardware S) (polls uart_fd : ℕ) (r : Receives hw polls uart_fd) (c : ℕ)
    (s : S) (es : List Event) (q : S × List Event) (u : Unit {0})
    → logged (shell_putchar hw polls uart_fd c) (λ x. put c) (s, es) ≡ some (u, q)
    → r.sent q.0 ≡ r.sent s ++ (c ∷ [])
putchar-sends hw polls uart_fd r c s es q u e =
    let (v, t, run, same) =
      logged-returns (shell_putchar hw polls uart_fd c) (λ x. put c) s es u q e in
    ap (λ x. r.sent x.0) (sym same)
    ∙ shell_putchar-adds hw r.sent (λ l. l ++ (c ∷ [])) r.reads_sent polls uart_fd c
        (r.sends_byte c) s t v run

-- The console of the shell on such hardware, with a log of its operations, fulfils the laws, with
-- the hardware's input and memory: so each theorem that has the laws for a hypothesis holds of the
-- shell on the UART. The log is that of what happens to the hardware: each putchar that returns has
-- given its byte to the kernel once and no other byte, and load, store, the masking of interrupts
-- and the jump are the hardware's read, write, csrci and jump at that address.
pub uart_io-Refines :
    {S : Type 0} (hw : Hardware S) (polls uart_fd : ℕ) (r : Receives hw polls uart_fd)
    → let io = traced (uart_io hw polls uart_fd) in
      ((laws : IoLaws io) × (laws.input ≡ (λ s. r.input s.0))
        × (laws.log ≡ (λ s. s.1))
        × (laws.is_memory ≡ r.is_memory))
      × ((c : ℕ) (s : S) (es : List Event) (q : S × List Event) (u : Unit {0})
          → io.putchar c (s, es) ≡ some (u, q)
          → r.sent q.0 ≡ r.sent s ++ (c ∷ []))
      × ((a : ℕ) (s : S) (es : List Event)
          → io.load a (s, es)
            ≡ some ((hw.read a s).0, ((hw.read a s).1, es ++ (loaded a (hw.read a s).0 ∷ []))))
      × ((a v : ℕ) (s : S) (es : List Event)
          → io.store a v (s, es) ≡ some (tt, (hw.set_reg a v s, es ++ (stored a v ∷ []))))
      × ((s : S) (es : List Event)
          → io.clear_mie (s, es) ≡ some (tt, (hw.csrci s, es ++ (masked ∷ []))))
      × ((a : ℕ) (s : S) (es : List Event)
          → io.jump a (s, es) ≡ some (tt, (hw.jump_to a s, es ++ (jumped a ∷ []))))
unfolding uart_laws uart_io reg32 set_reg32
uart_io-Refines hw polls uart_fd r = (
  (uart_laws hw polls uart_fd r, refl, refl, refl),
  λ c s es q u e. putchar-sends hw polls uart_fd r c s es q u e,
  λ a s es. refl,
  λ a v s es. refl,
  λ s es. refl,
  λ a s es. refl,
)
