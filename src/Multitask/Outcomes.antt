-- ===== src/Multitask/Outcomes.antt =====
-- main of multitask.c makes the calls of its script, or of one that ends early.
use vsync.Prelude.{
  Bool-cases, List, [], arith, codes, cstr, false, inl, inr, refl, some, true, ℕ, ◌==◌, ◌∙◌, ◌∷◌,
  ◌≡◌,
}
use Prim.Native.String.{String}
use vsync.Machine.{◌>>◌}
use vsync.Locals.{minus_one, Locals}
use vsync.Posix.{Kernel, is_negative}
use vsync.Posix.Decode.{Trap, recording}
use vsync.Multitask.{
  Places, uart_puts, wait_for_tasks, create_task1, create_task2, start_demo, main,
}
use vsync.Multitask.Scripts.{
  says, main_script, main_outcome, failed1_script, failed2_script, open_trap, init_trap,
  create1_trap, create2_trap, join_trap, wait_script, demo_script,
}
use vsync.Multitask.Traces.{
  Takes, Keeps, Makes, push, push-append, with_traps, puts, after_says, after_says-Kept,
}

module _ {S : Type 0} (k : Kernel S) (mem : Locals S) (at : Places) where
  -- The answers to open and to the two calls of pthread_create, with the states behind them.
  abbrev pub opened : S → ℕ × S
  opened s = k.ecall 0x50 (1 ∷ 0 ∷ []) s

  abbrev pub created1 : ℕ → S → ℕ × S
  created1 fd s =
      let named = after_says k mem at fd "Main: VSync Multitask Demo\n" s in
      k.ecall 0x00 (at.task1 ∷ 0 ∷ at.task1_func ∷ 0 ∷ [])
        (k.ecall 0x20 (at.sync_sem ∷ 0 ∷ 0 ∷ []) named).1

  abbrev pub created2 : ℕ → S → ℕ × S
  created2 fd s = k.ecall 0x00 (at.task2 ∷ 0 ∷ at.task2_func ∷ 0 ∷ []) (created1 fd s).1

  module _ (fd : ℕ) (takes : Takes k mem at fd) (keeps : Keeps k mem at fd) where
    said :
        (text : String) (s : S) (traps : List Trap)
        → cstr (codes text) ≡ codes text
        → uart_puts (recording k) (with_traps mem) at fd text (s, traps)
          ≡ some (tt, (after_says k mem at fd text s, push (says fd text) traps))
    said = puts k mem at fd takes

    wait_for_tasks-script :
        (s : S) (traps : List Trap)
        → (s' : S) × (wait_for_tasks (recording k) (with_traps mem) at fd (s, traps)
            ≡ some (
              0,
              (s', push (wait_script at fd (mem.word at.task1 s) (mem.word at.task2 s)) traps),
            ))
    unfolding wait_for_tasks wait_script push
    wait_for_tasks-script s traps =
        let id1 = mem.word at.task1 s in
        let id2 = mem.word at.task2 s in
        let text : String = "Main: Tasks created. Waiting for completion.\n" in
        let t1 = push (says fd text) traps in
        let s1 = after_says k mem at fd text s in
        let e1 = said text s traps refl in
        let (kept1, kept2) = after_says-Kept k mem at fd keeps text s in
        let s2 = (k.ecall 0x02 (id1 ∷ 0 ∷ []) s1).1 in
        let s3 = (k.ecall 0x02 (id2 ∷ 0 ∷ []) s2).1 in
        let t3 = join_trap at fd id2 ∷ join_trap at fd id1 ∷ t1 in
        let joined = keeps 0x02 (id1 ∷ 0 ∷ []) s1 (omega arith) in
        let v2 : mem.word at.task2 s2 ≡ id2 = joined.1 ∙ kept2 in
        let e4 = said "Main: All tasks completed.\n" s3 t3 refl in
        let s4 = after_says k mem at fd "Main: All tasks completed.\n" s3 in
        let s5 = (k.ecall 0x26 (at.sync_sem ∷ []) s4).1 in
        let s6 = (k.ecall 0x51 (fd ∷ []) s5).1 in
        (s6, rw (e1, kept1, v2, e4, push-append, push-append, ◌>>◌))

    abbrev DemoMakes : S → List Trap → ℕ → List Trap → Type 0
    DemoMakes s traps ret ts =
        Makes (start_demo (recording k) (with_traps mem) at fd) s traps ret ts

    failed1-Makes :
        (s : S) (traps : List Trap)
        → ((created1 fd s).0 == 0) ≡ false
        → DemoMakes s traps minus_one (failed1_script at fd)
    unfolding start_demo create_task1 failed1_script push
    failed1-Makes s traps no1 =
        let e2 = said "Main: VSync Multitask Demo\n" s traps refl in
        let t2 = init_trap at fd ∷ push (says fd "Main: VSync Multitask Demo\n") traps in
        let s4 = (created1 fd s).1 in
        let e5 = said "Main: Failed to create Task1\n" s4 (create1_trap at fd ∷ t2) refl in
        (
          after_says k mem at fd "Main: Failed to create Task1\n" s4,
          rw (e2, no1, e5, push-append, ◌>>◌),
        )

    failed2-Makes :
        (s : S) (traps : List Trap)
        → ((created1 fd s).0 == 0) ≡ true
        → ((created2 fd s).0 == 0) ≡ false
        → DemoMakes s traps minus_one (failed2_script at fd)
    unfolding start_demo create_task1 create_task2 failed2_script push
    failed2-Makes s traps yes1 no2 =
        let e2 = said "Main: VSync Multitask Demo\n" s traps refl in
        let t2 = init_trap at fd ∷ push (says fd "Main: VSync Multitask Demo\n") traps in
        let t5 = create2_trap at fd ∷ create1_trap at fd ∷ t2 in
        let s5 = (created2 fd s).1 in
        let e6 = said "Main: Failed to create Task2\n" s5 t5 refl in
        (
          after_says k mem at fd "Main: Failed to create Task2\n" s5,
          rw (e2, yes1, no2, e6, push-append, ◌>>◌),
        )

    started-Makes :
        (s : S) (traps : List Trap)
        → ((created1 fd s).0 == 0) ≡ true
        → ((created2 fd s).0 == 0) ≡ true
        → let t = (created2 fd s).1 in
          DemoMakes s traps 0 (demo_script at fd (mem.word at.task1 t) (mem.word at.task2 t))
    unfolding start_demo create_task1 create_task2 demo_script push
    started-Makes s traps yes1 yes2 =
        let e2 = said "Main: VSync Multitask Demo\n" s traps refl in
        let t2 = init_trap at fd ∷ push (says fd "Main: VSync Multitask Demo\n") traps in
        let t5 = create2_trap at fd ∷ create1_trap at fd ∷ t2 in
        let (s6, e6) = wait_for_tasks-script (created2 fd s).1 t5 in
        (s6, rw (e2, yes1, yes2, e6, push-append, ◌>>◌))

  -- main, if the kernel takes each byte that is written to the descriptor that open answers, and no
  -- call but pthread_create changes the variables task1 and task2: what it returns and the system
  -- calls that it makes, by the answers of open and of the two calls of pthread_create, each in the
  -- state in which it is made. On a negative answer of open it returns -1 and does nothing more; on
  -- an answer of pthread_create that is not 0 it prints one message, returns -1 and leaves the UART
  -- open and the semaphore, and the task that it has created, as they are; else it joins the ids
  -- that the variables hold behind the second pthread_create, and returns 0.
  pub main-Makes :
      (s : S) (traps : List Trap)
      → let (fd, start) = opened s in
        Takes k mem at fd
        → Keeps k mem at fd
        → let last = (created2 fd start).1 in
          let (ret, ts) =
            main_outcome at fd
              (mem.word at.task1 last)
              (mem.word at.task2 last)
              (created1 fd start).0
              (created2 fd start).0 in
          Makes (main (recording k) (with_traps mem) at) s traps ret ts
  unfolding main_outcome main_script main push
  main-Makes s traps takes keeps =
      let (fd, start) = opened s in
      let later = open_trap at fd ∷ traps in
      elim (Bool-cases (is_negative fd)) [
        | inl e ↦ rw e (start, refl)
        | inr e ↦ elim (Bool-cases ((created1 fd start).0 == 0)) [
          | inl yes1 ↦ elim (Bool-cases ((created2 fd start).0 == 0)) [
            | inl yes2 ↦
                let (t, run) = started-Makes fd takes keeps start later yes1 yes2 in
                rw (e, yes1, yes2) (t, run)
            | inr no2 ↦
                let (t, run) = failed2-Makes fd takes keeps start later yes1 no2 in
                rw (e, yes1, no2) (t, run)
          ]
          | inr no1 ↦
              let (t, run) = failed1-Makes fd takes keeps start later no1 in rw (e, no1) (t, run)
        ]
      ]
