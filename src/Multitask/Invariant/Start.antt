-- ===== src/Multitask/Invariant/Start.antt =====
-- The calls of each thread of multitask.c, by what they do to the others.
use vsync.Prelude.{
  All, All-append, List, [], ap, append-nil, arith, refl, subst, sym, ℕ, ◌++◌, ◌+◌, ◌∙◌, ◌∷◌, ◌≡◌,
}
use Prim.Native.String.{String}
use vsync.Posix.Decode.{Trap}
use vsync.Multitask.Scripts.{
  open_trap, cleanup, joins, creates, task1_after, yield_trap, sleep_trap, init_trap, wait_trap,
  post_trap, create1_trap, create2_trap, join_trap, says, task1_script, task2_before, task2_script,
  wait_script, demo_script, main_script,
}
use vsync.Multitask.System.{
  Demo, Kind, other, init, wait, post, create1, create2, join1, join2, kind,
}
use vsync.Multitask.Invariant.Defs.{
  is_init, is_create1, is_create2, In1, In2, kind_of, tally, Fits, Ordered,
}
use vsync.Multitask.Invariant.Kinds.{
  Apart, init-Kind, wait-Kind, post-Kind, create1-Kind, create2-Kind, join1-Kind, join2-Kind,
  yield-Kind, open-Kind, sleep-Kind, cleanup-Tally, cleanup-Ordered, says-tally, says-Ordered,
  says-All,
}

module _ (d : Demo) where
  -- How many of the calls of wait_for_tasks are of a kind.
  wait_script-Tally :
      (w : Kind → ℕ)
      → Apart d
      → w other ≡ 0
      → tally d w (wait_script d.at d.fd d.id1 d.id2) ≡ w join1 + w join2
  unfolding wait_script kind
  wait_script-Tally w a e =
      let last = says-tally d w "Main: All tasks completed.\n" (cleanup d.at d.fd) e in
      let later = joins d.at d.fd d.id1 d.id2 in
      let first = says-tally d w "Main: Tasks created. Waiting for completion.\n" later e in
      omega (arith, first, last, ap w (join1-Kind d), ap w (join2-Kind d a))

  pub main_script-Tally :
      (w : Kind → ℕ)
      → Apart d
      → w other ≡ 0
      → tally d w (main_script d.at d.fd d.id1 d.id2)
        ≡ w init + w create1 + w create2 + w join1 + w join2
  unfolding main_script demo_script kind
  main_script-Tally w a e =
      let first = says-tally d w "Main: VSync Multitask Demo\n" (creates d.at d.fd d.id1 d.id2) e in
      let later = wait_script-Tally w a e in
      omega
        (arith, first, later, ap w (init-Kind d), ap w (create1-Kind d), ap w (create2-Kind d a))

  pub task1_script-Tally :
      (w : Kind → ℕ) → w other ≡ 0 → tally d w (task1_script d.at d.fd) ≡ w wait
  unfolding task1_script task1_after kind
  task1_script-Tally w e =
      let done = says d.fd "Task1: Done.\n" in
      let first =
        says-tally d w "Task1: Waiting for semaphore...\n"
          (wait_trap d.at d.fd ∷ task1_after d.at d.fd) e in
      let second =
        says-tally d w "Task1: Semaphore acquired! Running.\n" (yield_trap d.at d.fd ∷ done) e in
      let third = says-tally d w "Task1: Done.\n" [] e in
      omega (arith, first, second, third, ap w (wait-Kind d), ap (tally d w) (append-nil done))

  pub tally-append :
      (w : Kind → ℕ) (ts us : List Trap) → tally d w (ts ++ us) ≡ tally d w ts + tally d w us
  tally-append w [] us = omega arith
  tally-append w (t ∷ ts) us = omega (arith, tally-append w ts us)

  task2_before-Tally : (w : Kind → ℕ) → w other ≡ 0 → tally d w (task2_before d.at d.fd) ≡ 0
  unfolding task2_before kind
  task2_before-Tally w e =
      let last = says d.fd "Task2: Signaling Task1.\n" in
      let first = says-tally d w "Task2: Starting work...\n" (sleep_trap d.at d.fd ∷ last) e in
      let second = says-tally d w "Task2: Signaling Task1.\n" [] e in
      omega (arith, first, second, ap (tally d w) (append-nil last))

  pub task2_script-Tally :
      (w : Kind → ℕ) → w other ≡ 0 → tally d w (task2_script d.at d.fd) ≡ w post
  unfolding task2_script
  task2_script-Tally w e =
      let done = says d.fd "Task2: Done.\n" in
      let all = tally-append w (task2_before d.at d.fd) (post_trap d.at d.fd ∷ done) in
      let last = says-tally d w "Task2: Done.\n" [] e in
      let first = task2_before-Tally w e in
      omega (arith, all, first, last, ap w (post-Kind d), ap (tally d w) (append-nil done))

  kinds-All :
      (P : Kind → Type 0) (k : Kind) (t : Trap) (ts us : List Trap)
      → kind d t ≡ k
      → P k
      → All (λ x. P (kind_of d x)) ts
      → All (λ x. P (kind_of d x)) us
      → All (λ x. P (kind_of d x)) (ts ++ (t ∷ us))
  kinds-All P k t ts us e p ats aus =
      All-append (λ x. P (kind_of d x)) ts (t ∷ us) ats (subst P (sym e) p, aus)

  pub task1_script-All : All (λ x. In1 (kind_of d x)) (task1_script d.at d.fd)
  unfolding task1_script task1_after
  task1_script-All =
      let quiet = λ (text : String). says-All d In1 text tt in
      let first = says d.fd "Task1: Waiting for semaphore...\n" in
      let second = says d.fd "Task1: Semaphore acquired! Running.\n" in
      let third = says d.fd "Task1: Done.\n" in
      let yielded =
        kinds-All In1 other (yield_trap d.at d.fd) second third (yield-Kind d) tt
          (quiet "Task1: Semaphore acquired! Running.\n") (quiet "Task1: Done.\n") in
      kinds-All In1 wait (wait_trap d.at d.fd) first _ (wait-Kind d) tt
        (quiet "Task1: Waiting for semaphore...\n") yielded

  pub task2_script-All : All (λ x. In2 (kind_of d x)) (task2_script d.at d.fd)
  unfolding task2_script task2_before
  task2_script-All =
      let quiet = λ (text : String). says-All d In2 text tt in
      let first = says d.fd "Task2: Starting work...\n" in
      let second = says d.fd "Task2: Signaling Task1.\n" in
      let third = says d.fd "Task2: Done.\n" in
      let slept =
        kinds-All In2 other (sleep_trap d.at d.fd) first second (sleep-Kind d) tt
          (quiet "Task2: Starting work...\n") (quiet "Task2: Signaling Task1.\n") in
      kinds-All In2 post (post_trap d.at d.fd) (first ++ (sleep_trap d.at d.fd ∷ second)) third
        (post-Kind d) tt slept (quiet "Task2: Done.\n")

  fits :
      (k : Kind) (t : Trap) (ts : List Trap)
      → kind d t ≡ k
      → Fits d k t ts
      → Ordered d ts
      → Ordered d (t ∷ ts)
  fits k t ts e f o = (subst (λ x. Fits d x t ts) (sym e) f, o)

  skip-tally :
      (w : Kind → ℕ) (k : Kind) (t : Trap) (ts : List Trap)
      → kind d t ≡ k
      → w k ≡ 0
      → tally d w ts ≡ 0
      → tally d w (t ∷ ts) ≡ 0
  skip-tally w k t ts e z n = omega (arith, ap w e)

  wait_script-Ordered : Apart d → Ordered d (wait_script d.at d.fd d.id1 d.id2)
  unfolding wait_script
  wait_script-Ordered a =
      let t1 = join_trap d.at d.fd d.id1 in
      let t2 = join_trap d.at d.fd d.id2 in
      let last = says d.fd "Main: All tasks completed.\n" ++ cleanup d.at d.fd in
      let o =
        says-Ordered d "Main: All tasks completed.\n" (cleanup d.at d.fd) (cleanup-Ordered d) in
      let end1 = says-tally d is_create1 "Main: All tasks completed.\n" (cleanup d.at d.fd) refl in
      let end2 = says-tally d is_create2 "Main: All tasks completed.\n" (cleanup d.at d.fd) refl in
      let none1 = end1 ∙ cleanup-Tally d is_create1 refl in
      let none2 = end2 ∙ cleanup-Tally d is_create2 refl in
      let o2 = fits join2 t2 last (join2-Kind d a) (none1, none2) o in
      let n1 = skip-tally is_create1 join2 t2 last (join2-Kind d a) refl none1 in
      let n2 = skip-tally is_create2 join2 t2 last (join2-Kind d a) refl none2 in
      let o1 = fits join1 t1 (t2 ∷ last) (join1-Kind d) (n1, n2) o2 in
      says-Ordered d "Main: Tasks created. Waiting for completion.\n" (t1 ∷ t2 ∷ last) o1

  pub main_script-Ordered : Apart d → Ordered d (main_script d.at d.fd d.id1 d.id2)
  unfolding main_script demo_script
  main_script-Ordered a =
      let later = wait_script d.at d.fd d.id1 d.id2 in
      let t1 = create1_trap d.at d.fd in
      let t2 = create2_trap d.at d.fd in
      let none = wait_script-Tally is_init a refl in
      let o2 = fits create2 t2 later (create2-Kind d a) none (wait_script-Ordered a) in
      let n2 = skip-tally is_init create2 t2 later (create2-Kind d a) refl none in
      let o1 = fits create1 t1 (t2 ∷ later) (create1-Kind d) n2 o2 in
      let o = fits init (init_trap d.at d.fd) (t1 ∷ t2 ∷ later) (init-Kind d) refl o1 in
      fits other (open_trap d.at d.fd) _ (open-Kind d) tt
        (says-Ordered d "Main: VSync Multitask Demo\n" (creates d.at d.fd d.id1 d.id2) o)
