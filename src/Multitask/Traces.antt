-- ===== src/Multitask/Traces.antt =====
-- The code of each thread makes the calls of its script, whatever the kernel answers, if it takes the
-- bytes that are written to the UART.
use vsync.Prelude.{
  List, [], ap, arith, codes, cstr, false, length, map, refl, some, ℕ, ◌++◌, ◌+◌, ◌∙◌, ◌∷◌, ◌≡◌,
  ◌≢◌,
}
use Prim.Native.String.{String}
use vsync.Machine.{M, ◌>>=◌, ◌>>◌}
use vsync.Locals.{Locals, Timespec}
use vsync.Posix.{Kernel, is_negative, write, write_loop}
use vsync.Posix.Decode.{Trap, recording}
use vsync.Posix.Write.{after_bytes}
use vsync.Multitask.{Places, strlen_simple, scan_simple, uart_puts, task1_func, task2_func}
use vsync.Multitask.Scripts.{
  write_trap, says, task1_script, task1_after, task2_before, task2_script, wait_trap, post_trap,
  yield_trap, sleep_trap,
}

-- Calls on top of the earlier ones, the latest first.
unfoldable pub push : List Trap → List Trap → List Trap
push [] traps = traps
push (t ∷ ts) traps = push ts (t ∷ traps)

pub push-append : (ts us traps : List Trap) → push (ts ++ us) traps ≡ push us (push ts traps)
unfolding push
push-append [] us traps = refl
push-append (t ∷ ts) us traps = push-append ts us (t ∷ traps)

-- The local variables of a caller whose calls are recorded.
abbrev pub with_traps : {S : Type 0} → Locals S → Locals (S × List Trap)
with_traps mem = record {
  set_timespec = λ a t s. (mem.set_timespec a t s.0, s.1);
  word = λ a s. mem.word a s.0;
}

scan_simple-cstr : (s : List ℕ) (len : ℕ) → scan_simple s len ≡ len + length (cstr s)
unfolding scan_simple
scan_simple-cstr [] len = omega arith
scan_simple-cstr (c ∷ s) len = ground (arith, scan_simple-cstr s (len + 1))

pub strlen_simple-cstr : (s : List ℕ) → strlen_simple s ≡ length (cstr s)
unfolding strlen_simple
strlen_simple-cstr s = omega (arith, scan_simple-cstr s 0)

-- A run that returns ret after the calls ts.
abbrev pub Makes : {S : Type 0} → M (S × List Trap) ℕ → S → List Trap → ℕ → List Trap → Type 0
Makes {S} run s traps ret ts = (s' : S) × (run (s, traps) ≡ some (ret, (s', push ts traps)))

module _ {S : Type 0} (k : Kernel S) (mem : Locals S) (at : Places) (fd : ℕ) where
  -- The kernel takes each byte.
  abbrev pub Takes : Type 0
  Takes = (c : ℕ) (s : S) → is_negative (k.ecall 0x53 (fd ∷ c ∷ 1 ∷ []) s).0 ≡ false

  -- The variables task1 and task2 of main are unchanged.
  abbrev pub Kept : S → S → Type 0
  Kept s t =
      (mem.word at.task1 t ≡ mem.word at.task1 s) × (mem.word at.task2 t ≡ mem.word at.task2 s)

  -- No call but pthread_create changes them.
  abbrev pub Keeps : Type 0
  Keeps = (num : ℕ) (args : List ℕ) (s : S) → num ≢ 0x00 → Kept s (k.ecall num args s).1

  -- The state after a text.
  abbrev pub after_says : String → S → S
  after_says text s = after_bytes k fd (codes text) s

  after_bytes-Kept : Keeps → (p : List ℕ) (s : S) → Kept s (after_bytes k fd p s)
  after_bytes-Kept keeps [] s = (refl, refl)
  after_bytes-Kept keeps (c ∷ p) s =
      let (kept1, kept2) = keeps 0x53 (fd ∷ c ∷ 1 ∷ []) s (omega arith) in
      let (more1, more2) = after_bytes-Kept keeps p (k.ecall 0x53 (fd ∷ c ∷ 1 ∷ []) s).1 in
      (more1 ∙ kept1, more2 ∙ kept2)

  pub after_says-Kept : Keeps → (text : String) (s : S) → Kept s (after_says text s)
  after_says-Kept keeps text s = after_bytes-Kept keeps (codes text) s

  module _ (takes : Takes) where
    write_loop-says :
        (p : List ℕ) (count : ℕ) (s : S) (traps : List Trap)
        → write_loop (recording k) fd count p (length p) (s, traps)
          ≡ some (count, (after_bytes k fd p s, push (map (write_trap fd) p) traps))
    unfolding write_loop push
    write_loop-says [] count s traps = refl
    write_loop-says (c ∷ p) count s traps =
        rw (takes c s)
          (write_loop-says p count (k.ecall 0x53 (fd ∷ c ∷ 1 ∷ []) s).1 (write_trap fd c ∷ traps))

    pub puts :
        (text : String) (s : S) (traps : List Trap)
        → cstr (codes text) ≡ codes text
        → uart_puts (recording k) (with_traps mem) at fd text (s, traps)
          ≡ some (tt, (after_says text s, push (says fd text) traps))
    unfolding uart_puts write says
    puts text s traps clean =
        let len : strlen_simple (codes text) ≡ length (codes text) =
          strlen_simple-cstr (codes text) ∙ ap length clean in
        rw (len, write_loop-says (codes text) (length (codes text)) s traps, ◌>>=◌) refl

    task1_func-Makes :
        (s : S) (traps : List Trap)
        → Makes (task1_func (recording k) (with_traps mem) at fd) s traps 0 (task1_script at fd)
    unfolding task1_func task1_script task1_after push
    task1_func-Makes s traps =
        let t1 = push (says fd "Task1: Waiting for semaphore...\n") traps in
        let s1 = after_says "Task1: Waiting for semaphore...\n" s in
        let e1 = puts "Task1: Waiting for semaphore...\n" s traps refl in
        let s2 = (k.ecall 0x21 (at.sync_sem ∷ []) s1).1 in
        let t2 = wait_trap at fd ∷ t1 in
        let s3 = after_says "Task1: Semaphore acquired! Running.\n" s2 in
        let e3 = puts "Task1: Semaphore acquired! Running.\n" s2 t2 refl in
        let t3 = push (says fd "Task1: Semaphore acquired! Running.\n") t2 in
        let s4 = (k.ecall 0x05 [] s3).1 in
        let t4 = yield_trap at fd ∷ t3 in
        let e5 = puts "Task1: Done.\n" s4 t4 refl in
        (after_says "Task1: Done.\n" s4, rw (e1, e3, e5, push-append, push-append, ◌>>◌))

    task2_func-Makes :
        (s : S) (traps : List Trap)
        → Makes (task2_func (recording k) (with_traps mem) at fd) s traps 0 (task2_script at fd)
    unfolding task2_func task2_script task2_before push
    task2_func-Makes s traps =
        let t1 = push (says fd "Task2: Starting work...\n") traps in
        let s1 = after_says "Task2: Starting work...\n" s in
        let e1 = puts "Task2: Starting work...\n" s traps refl in
        let delay : Timespec = record { tv_sec = 0; tv_nsec = 100_000_000 } in
        let s2 = (k.ecall 0x42 (at.delay ∷ 0 ∷ []) (mem.set_timespec at.delay delay s1)).1 in
        let t2 = sleep_trap at fd ∷ t1 in
        let s3 = after_says "Task2: Signaling Task1.\n" s2 in
        let e3 = puts "Task2: Signaling Task1.\n" s2 t2 refl in
        let t3 = push (says fd "Task2: Signaling Task1.\n") t2 in
        let s4 = (k.ecall 0x24 (at.sync_sem ∷ []) s3).1 in
        let t4 = post_trap at fd ∷ t3 in
        let e5 = puts "Task2: Done.\n" s4 t4 refl in
        (after_says "Task2: Done.\n" s4, rw (e1, e3, e5, push-append, push-append, ◌>>◌))

    -- Under any kernel that answers no SYS_WRITE call for the UART with a negative number, whatever
    -- else it answers, the functions of the tasks return NULL, and have then made exactly the calls
    -- of their scripts, in order; they go on even if a wait or a sleep fails.
    pub tasks-Make :
        (s : S) (traps : List Trap)
        → Makes (task1_func (recording k) (with_traps mem) at fd) s traps 0 (task1_script at fd)
          × Makes (task2_func (recording k) (with_traps mem) at fd) s traps 0 (task2_script at fd)
    tasks-Make s traps = (task1_func-Makes s traps, task2_func-Makes s traps)
