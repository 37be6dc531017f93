-- ===== src/Multitask/Scripts.antt =====
-- The system calls of each thread of multitask.c, in order.
use vsync.Prelude.{List, [], codes, if◌then◌else◌, map, not, ℕ, ◌++◌, ◌==◌, ◌∷◌}
use Prim.Native.String.{String}
use vsync.Posix.Decode.{Trap}
use vsync.Posix.{is_negative}
use vsync.Locals.{minus_one}
use vsync.Multitask.{Places}

-- The calls of uart_puts.
abbrev pub write_trap : ℕ → ℕ → Trap
write_trap fd c = record { num = 0x53; args = fd ∷ c ∷ 1 ∷ [] }

unfoldable pub says : ℕ → String → List Trap
says fd text = map (write_trap fd) (codes text)

module _ (at : Places) (fd : ℕ) where
  abbrev pub open_trap : Trap
  open_trap = record { num = 0x50; args = 1 ∷ 0 ∷ [] }

  abbrev pub init_trap : Trap
  init_trap = record { num = 0x20; args = at.sync_sem ∷ 0 ∷ 0 ∷ [] }

  abbrev pub wait_trap : Trap
  wait_trap = record { num = 0x21; args = at.sync_sem ∷ [] }

  abbrev pub post_trap : Trap
  post_trap = record { num = 0x24; args = at.sync_sem ∷ [] }

  abbrev pub yield_trap : Trap
  yield_trap = record { num = 0x05; args = [] }

  abbrev pub sleep_trap : Trap
  sleep_trap = record { num = 0x42; args = at.delay ∷ 0 ∷ [] }

  abbrev pub create1_trap : Trap
  create1_trap = record { num = 0x00; args = at.task1 ∷ 0 ∷ at.task1_func ∷ 0 ∷ [] }

  abbrev pub create2_trap : Trap
  create2_trap = record { num = 0x00; args = at.task2 ∷ 0 ∷ at.task2_func ∷ 0 ∷ [] }

  abbrev pub join_trap : ℕ → Trap
  join_trap id = record { num = 0x02; args = id ∷ 0 ∷ [] }

  abbrev pub destroy_trap : Trap
  destroy_trap = record { num = 0x26; args = at.sync_sem ∷ [] }

  abbrev pub close_trap : Trap
  close_trap = record { num = 0x51; args = fd ∷ [] }

  -- What task 1 does before it waits.
  abbrev pub task1_before : List Trap
  task1_before = says fd "Task1: Waiting for semaphore...\n"

  -- What task 1 does once it has the semaphore.
  unfoldable pub task1_after : List Trap
  task1_after =
      says fd "Task1: Semaphore acquired! Running.\n" ++ (yield_trap ∷ says fd "Task1: Done.\n")

  unfoldable pub task1_script : List Trap
  task1_script = says fd "Task1: Waiting for semaphore...\n" ++ (wait_trap ∷ task1_after)

  -- What task 2 does before it posts, and after.
  unfoldable pub task2_before : List Trap
  task2_before =
      says fd "Task2: Starting work...\n" ++ (sleep_trap ∷ says fd "Task2: Signaling Task1.\n")

  unfoldable pub task2_script : List Trap
  task2_script = task2_before ++ (post_trap ∷ says fd "Task2: Done.\n")

  abbrev pub cleanup : List Trap
  cleanup = destroy_trap ∷ close_trap ∷ []

  abbrev pub joins : ℕ → ℕ → List Trap
  joins id1 id2 =
      join_trap id1 ∷ join_trap id2 ∷ (says fd "Main: All tasks completed.\n" ++ cleanup)

  -- What main does up to the second pthread_join, and after.
  unfoldable pub up_to_joins : ℕ → ℕ → List Trap
  up_to_joins id1 id2 =
      open_trap
      ∷ (says fd "Main: VSync Multitask Demo\n"
          ++ (init_trap
              ∷ create1_trap
              ∷ create2_trap
              ∷ (says fd "Main: Tasks created. Waiting for completion.\n"
                  ++ (join_trap id1 ∷ join_trap id2 ∷ []))))

  unfoldable pub after_joins : List Trap
  after_joins = says fd "Main: All tasks completed.\n" ++ cleanup

  -- The calls of main once both tasks are created.
  unfoldable pub wait_script : ℕ → ℕ → List Trap
  wait_script id1 id2 = says fd "Main: Tasks created. Waiting for completion.\n" ++ joins id1 id2

  abbrev pub creates : ℕ → ℕ → List Trap
  creates id1 id2 = init_trap ∷ create1_trap ∷ create2_trap ∷ wait_script id1 id2

  unfoldable pub demo_script : ℕ → ℕ → List Trap
  demo_script id1 id2 = says fd "Main: VSync Multitask Demo\n" ++ creates id1 id2

  unfoldable pub main_script : ℕ → ℕ → List Trap
  main_script id1 id2 = open_trap ∷ demo_script id1 id2

  -- The calls of main after open if the first pthread_create fails, and if the second does.
  unfoldable pub failed1_script : List Trap
  failed1_script =
      says fd "Main: VSync Multitask Demo\n"
      ++ (init_trap ∷ create1_trap ∷ says fd "Main: Failed to create Task1\n")

  unfoldable pub failed2_script : List Trap
  failed2_script =
      says fd "Main: VSync Multitask Demo\n"
      ++ (init_trap ∷ create1_trap ∷ create2_trap ∷ says fd "Main: Failed to create Task2\n")

-- What main returns and the calls that it makes, by the answers to open and to pthread_create.
unfoldable pub main_outcome : Places → ℕ → ℕ → ℕ → ℕ → ℕ → ℕ × List Trap
main_outcome at fd id1 id2 r1 r2 =
    if is_negative fd
    then (minus_one, open_trap at fd ∷ [])
    else if not (r1 == 0)
    then (minus_one, open_trap at fd ∷ failed1_script at fd)
    else if not (r2 == 0)
    then (minus_one, open_trap at fd ∷ failed2_script at fd)
    else (0, main_script at fd id1 id2)
