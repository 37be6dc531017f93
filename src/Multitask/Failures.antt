-- ===== src/Multitask/Failures.antt =====
-- Runs of the threads of multitask.c in which a call may also fail at once, with the error return that
-- sw/lib/vsync_posix.h allows. The code ignores those of sem_init, sem_wait, sem_post and
-- pthread_join; when pthread_create fails, that is, answers anything but 0, main ends with a message.
use vsync.Prelude.{Bool, List, Option, arith, false, none, some, true, ℕ, ◌∷◌, ◌≡◌}
use vsync.Posix.Decode.{Trap}
use vsync.Multitask.Scripts.{says}
use vsync.Multitask.System.{
  System, Demo, Kind, Step, kind, other, init, wait, post, create1, create2, join1, join2,
  main_goes, task1_goes, task2_goes,
}
use vsync.Multitask.Program.{Runs, begins, goes_on, code_start}

module _ (d : Demo) where
  -- What a thread still does behind a call of that kind that fails; the others are taken not to.
  unfoldable pub behind_failure : Kind → List Trap → Option (List Trap)
  behind_failure other rest = none
  behind_failure create1 rest = some (says d.fd "Main: Failed to create Task1\n")
  behind_failure create2 rest = some (says d.fd "Main: Failed to create Task2\n")
  behind_failure init rest = some rest
  behind_failure wait rest = some rest
  behind_failure post rest = some rest
  behind_failure join1 rest = some rest
  behind_failure join2 rest = some rest

  -- The next call of a thread fails: it has no effect on the others, and nothing waits.
  pub data Fails (s : System) : System → Type 0 where
    main_fails :
        {t : Trap} {rest more : List Trap}
        → s.main ≡ t ∷ rest
        → behind_failure (kind d t) rest ≡ some more
        → Fails s (main_goes s t more)
    task1_fails :
        {t : Trap} {rest more : List Trap}
        → s.created1 ≡ true
        → s.task1 ≡ t ∷ rest
        → behind_failure (kind d t) rest ≡ some more
        → Fails s (task1_goes s t more)
    task2_fails :
        {t : Trap} {rest more : List Trap}
        → s.created2 ≡ true
        → s.task2 ≡ t ∷ rest
        → behind_failure (kind d t) rest ≡ some more
        → Fails s (task2_goes s t more)

  -- The states that the threads can reach, and whether a call has failed on the way.
  pub data Tries (garbage : ℕ) : Bool → System → Type 0 where
    starts : Tries garbage false (code_start d garbage)
    succeeds :
        {failed : Bool} {s u : System}
        → Tries garbage failed s
        → Step d s u
        → Tries garbage failed u
    errs :
        {failed : Bool} {s u : System} → Tries garbage failed s → Fails s u → Tries garbage true u

  pub Tries-Runs :
      {garbage : ℕ} {failed : Bool} {s : System}
      → failed ≡ false
      → Tries garbage failed s
      → Runs d garbage s
  Tries-Runs e starts = begins
  Tries-Runs e (succeeds run step) = goes_on (Tries-Runs e run) step
  Tries-Runs e (errs run failure) = absurd (ground (arith, e))

  pub Runs-Tries : {garbage : ℕ} {s : System} → Runs d garbage s → Tries garbage false s
  Runs-Tries begins = starts
  Runs-Tries (goes_on run step) = succeeds (Runs-Tries run) step
