-- ===== src/Tests/Threads.antt =====
-- The threads of multitask.c on a kernel that keeps two ids, and under two schedules.
use vsync.Prelude.{
  List, Option, [], arith, get_or, if◌then◌else◌, map, none, refl, some, suc, true, zero, ℕ, ◌++◌,
  ◌==◌, ◌∷◌, ◌≡◌,
}
use vsync.Posix.{Kernel}
use vsync.Posix.Decode.{Trap, recording}
use vsync.Locals.{Locals}
use vsync.Multitask.{Places, task1_func, task2_func, main}
use vsync.Multitask.Scripts.{
  open_trap, init_trap, create1_trap, create2_trap, wait_trap, post_trap, says, task1_before,
  task1_after, task1_script, task2_before, task2_script, main_outcome, up_to_joins, main_script,
  demo_script, wait_script,
}
use vsync.Multitask.Traces.{Takes, Keeps, tasks-Make, Makes, with_traps}
use vsync.Multitask.Scripts.{open_trap, failed2_script}
use vsync.Multitask.Outcomes.{main-Makes}
use vsync.Multitask.System.{
  Thread, main_thread, thread1, thread2, System, Demo, start, effect, kind, task1_goes,
}
use vsync.Multitask.Program.{Runs, start-Runs}
use vsync.Multitask.Failures.{Tries, Runs-Tries, errs, task1_fails, behind_failure}
use vsync.Multitask.Order.{made}
use vsync.Multitask.Schedule.{turn, run, run-Runs}
use vsync.Multitask.Invariant.Kinds.{Apart}
use vsync.Multitask.Safety.{semaphore-Orders, joins-Wait}

abbrev places : Places
places = record {
  sync_sem = 0x2000;
  task1 = 0x3000;
  task2 = 0x3004;
  delay = 0x3010;
  task1_func = 0x100;
  task2_func = 0x200;
}

abbrev demo : Demo
demo = record { at = places; fd = 3; id1 = 1; id2 = 2 }

demo-Apart : Apart demo
demo-Apart = record {
  functions = omega arith;
  ids = omega arith;
  variables = omega arith;
  is_fd = refl;
}

-- The calls of main before it waits for the tasks.
abbrev up_to_tasks : Places → ℕ → List Trap
up_to_tasks at fd =
    open_trap at fd
    ∷ (says fd "Main: VSync Multitask Demo\n"
        ++ (init_trap at fd
            ∷ create1_trap at fd
            ∷ create2_trap at fd
            ∷ says fd "Main: Tasks created. Waiting for completion.\n"))

abbrev turns : Thread → List Trap → List Thread
turns x ts = map (λ _. x) ts

-- Both tasks are created; task 2 runs until it has posted, then task 1 until it has waited.
abbrev to_wait : List Thread
to_wait =
    turns main_thread (
      open_trap places 3
      ∷ (says 3 "Main: VSync Multitask Demo\n"
          ++ (init_trap places 3 ∷ create1_trap places 3 ∷ create2_trap places 3 ∷ [])))
    ++ (turns thread2 (task2_before places 3 ++ (post_trap places 3 ∷ []))
        ++ turns thread1 (task1_before places 3 ++ (wait_trap places 3 ∷ [])))

abbrev result : Option System → System
result none = start demo 0
result (some s) = s

abbrev waited : System
waited = result (run demo to_wait (start demo 7))

to_wait-runs : run demo to_wait (start demo 7) ≡ some waited
unfolding run turn effect kind task2_before task1_script task2_script main_script demo_script
    wait_script says
to_wait-runs = refl

to_wait-Runs : Runs demo 7 waited
to_wait-Runs =
    run-Runs demo to_wait (start demo 7) waited (start-Runs demo 7 demo-Apart) to_wait-runs

waited-made : made thread1 waited.log ≡ task1_before places 3 ++ (wait_trap places 3 ∷ [])
unfolding made run turn effect kind task2_before task1_script task2_script main_script demo_script
    wait_script says
waited-made = refl

semaphore-Orders_example :
    (done : List Trap) × (made thread2 waited.log
      ≡ task2_before places 3 ++ (post_trap places 3 ∷ done))
semaphore-Orders_example =
    semaphore-Orders demo waited demo-Apart (Runs-Tries demo to_wait-Runs) [] waited-made

-- Both tasks are created, and task 1 runs up to its sem_wait.
abbrev to_failure : List Thread
to_failure =
    turns main_thread (
      open_trap places 3
      ∷ (says 3 "Main: VSync Multitask Demo\n"
          ++ (init_trap places 3 ∷ create1_trap places 3 ∷ create2_trap places 3 ∷ [])))
    ++ turns thread1 (task1_before places 3)

abbrev stopped : System
stopped = result (run demo to_failure (start demo 7))

to_failure-runs : run demo to_failure (start demo 7) ≡ some stopped
unfolding run turn effect kind task2_before task1_script task2_script main_script demo_script
    wait_script says
to_failure-runs = refl

-- If sem_wait fails, task 1 goes on before task 2 has done anything.
failed_wait-Passes :
    (s : System) × Tries demo 7 true s
    × (made thread1 s.log ≡ task1_before places 3 ++ (wait_trap places 3 ∷ []))
    × (made thread2 s.log ≡ [])
unfolding behind_failure made run turn effect kind task2_before task1_script task1_after
    task2_script main_script demo_script wait_script says
failed_wait-Passes =
    let run_to =
      run-Runs demo to_failure (start demo 7) stopped (start-Runs demo 7 demo-Apart)
        to_failure-runs in
    (
      task1_goes stopped (wait_trap places 3) (task1_after places 3),
      errs (Runs-Tries demo run_to) (task1_fails refl refl refl),
      refl,
      refl,
    )

-- All calls up to the second pthread_join: the tasks run when main waits.
abbrev to_joins : List Thread
to_joins =
    turns main_thread (up_to_tasks places 3)
    ++ (turns thread2 (task2_script places 3)
        ++ (turns thread1 (task1_script places 3) ++ (main_thread ∷ main_thread ∷ [])))

abbrev joined : System
joined = result (run demo to_joins (start demo 7))

to_joins-runs : run demo to_joins (start demo 7) ≡ some joined
unfolding run turn effect kind task2_before task1_script task1_after task2_script main_script
    demo_script wait_script says
to_joins-runs = refl

to_joins-Runs : Runs demo 7 joined
to_joins-Runs =
    run-Runs demo to_joins (start demo 7) joined (start-Runs demo 7 demo-Apart) to_joins-runs

joined-made : made main_thread joined.log ≡ up_to_joins places 3 1 2 ++ []
unfolding made run turn effect kind task2_before task1_script task1_after task2_script main_script
    demo_script wait_script up_to_joins says
joined-made = refl

joins-Wait_example :
    (made thread1 joined.log ≡ task1_script places 3)
    × (made thread2 joined.log ≡ task2_script places 3)
joins-Wait_example =
    joins-Wait demo joined demo-Apart (Runs-Tries demo to_joins-Runs) [] joined-made

-- A kernel that has room for one more task, whose id is 1, and takes each byte; its state is the ids
-- that it has stored, and the number of tasks. Every other call answers -1.
abbrev kernel : Kernel ((ℕ × ℕ) × ℕ)
kernel = record {
  ecall = λ num args s.
      if num == 0x50
      then (3, s)
      else if num == 0x53
      then (1, s)
      else if num == 0x00
      then elim s.1 [
        | zero ↦ (0, ((if get_or args 0 0 == 0x3000 then (1, s.0.1) else (s.0.0, 1)), 1))
        | suc n ↦ (11, s)
      ]
      else (0xFFFF_FFFF, s);
}

abbrev memory : Locals ((ℕ × ℕ) × ℕ)
memory = record { set_timespec = λ a t s. s; word = λ a s. if a == 0x3000 then s.0.0 else s.0.1 }

kernel-Takes : Takes kernel memory places 3
kernel-Takes c s = refl

kernel-Keeps : Keeps kernel memory places 3
kernel-Keeps num args s h = (ground arith, ground arith)

tasks-Make_example :
    Makes
      (task1_func (recording kernel) (with_traps memory) places 3)
      ((0, 0), 0)
      []
      0
      (task1_script places 3)
    × Makes
        (task2_func (recording kernel) (with_traps memory) places 3)
        ((0, 0), 0)
        []
        0
        (task2_script places 3)
tasks-Make_example = tasks-Make kernel memory places 3 kernel-Takes ((0, 0), 0) []

main-Makes_example :
    Makes
      (main (recording kernel) (with_traps memory) places)
      ((0, 0), 0)
      []
      0xFFFF_FFFF
      (open_trap places 3 ∷ failed2_script places 3)
unfolding main_outcome
main-Makes_example = main-Makes kernel memory places ((0, 0), 0) [] kernel-Takes kernel-Keeps
