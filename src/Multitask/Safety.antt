-- ===== src/Multitask/Safety.antt =====
-- What the semaphore and pthread_join of multitask.c are for.
use vsync.Prelude.{
  List, [], ap, append-nil, append_assoc, arith, false, inl, inr, refl, sym, ℕ, ◌++◌, ◌+◌, ◌∙◌, ◌∷◌,
  ◌≡◌,
}
use mathlib.Core.List.{append_cancel_left, head-eq_of_cons-eq, tail-eq_of_cons-eq}
use vsync.Posix.Decode.{Trap}
use vsync.Multitask.Scripts.{
  main_script, demo_script, wait_script, cleanup, says, task1_script, task1_before, task2_script,
  task2_before, wait_trap, post_trap, up_to_joins, after_joins,
}
use vsync.Multitask.System.{Thread, System, Demo, Kind, main_thread, thread1, thread2, Reach, other}
use vsync.Multitask.Program.{Runs-Reach}
use vsync.Multitask.Failures.{Tries, Tries-Runs}
use vsync.Multitask.Order.{made, calls, script, script-order}
use vsync.Multitask.Invariant.{Reach-Inv}
use vsync.Multitask.Invariant.Kinds.{Apart, wait-Kind, post-Kind, says-tally, cleanup-Tally}
use vsync.Multitask.Invariant.Start.{task1_script-Tally, tally-append}
use vsync.Multitask.Invariant.Defs.{
  tally, is_wait, is_post, is_init, is_join1, is_join2, kind_of, zero-or-positive,
}

module _ (d : Demo) where
  nothing-left : {n : ℕ} (m : ℕ) → n ≡ 1 + m → n ≡ 0 → ⊥
  nothing-left m e z = omega arith

  -- A call that is not to come has been made, after what stands before it.
  made-part :
      (w : Kind → ℕ) (p : Trap) (ps qs xs ys : List Trap)
      → w (kind_of d p) ≡ 1
      → tally d w ys ≡ 0
      → xs ++ ys ≡ ps ++ (p ∷ qs)
      → (more : List Trap) × (xs ≡ ps ++ (p ∷ more))
  made-part w p [] qs [] ys one z e =
      absurd (nothing-left (tally d w qs) (omega (arith, ap (tally d w) e)) z)
  made-part w p [] qs (x ∷ xs) ys one z e = (xs, ap (λ q. q ∷ xs) (head-eq_of_cons-eq e))
  made-part w p (a ∷ ps) qs [] ys one z e =
      let all = tally-append d w (a ∷ ps) (p ∷ qs) in
      absurd
        (nothing-left (tally d w (a ∷ ps) + tally d w qs) (omega (arith, ap (tally d w) e, all)) z)
  made-part w p (a ∷ ps) qs (x ∷ xs) ys one z e =
      let (more, q) = made-part w p ps qs xs ys one z (tail-eq_of_cons-eq e) in
      (more, λ i. head-eq_of_cons-eq e i ∷ q i)

  no-waits-left :
      {garbage : ℕ} (s : System)
      → Reach d garbage s
      → (more : List Trap)
      → made thread1 s.log ≡ task1_before d.at d.fd ++ (wait_trap d.at d.fd ∷ more)
      → tally d is_wait s.task1 ≡ 0
  no-waits-left s r more e =
      let ordered = ap (tally d is_wait) (script-order d thread1 r) in
      let all = tally-append d is_wait (made thread1 s.log) s.task1 in
      let script1 = task1_script-Tally d is_wait refl in
      let first = tally-append d is_wait (task1_before d.at d.fd) (wait_trap d.at d.fd ∷ more) in
      omega (arith, ordered, all, script1, first, ap (tally d is_wait) e, ap is_wait (wait-Kind d))

  -- If the functions and the variables have addresses of their own, the tasks two ids and the UART
  -- a descriptor that is not negative: in every state that the threads can reach with the calls of
  -- the code while none of sem_init, sem_wait, sem_post, pthread_create and pthread_join fails,
  -- whatever the value of the semaphore before main sets it, if task 1 has got past its sem_wait,
  -- task 2 has made its sem_post, and before that all its earlier calls.
  pub semaphore-Orders :
      {garbage : ℕ} (s : System)
      → Apart d
      → Tries d garbage false s
      → (more : List Trap)
      → made thread1 s.log ≡ task1_before d.at d.fd ++ (wait_trap d.at d.fd ∷ more)
      → (done : List Trap) × (made thread2 s.log
          ≡ task2_before d.at d.fd ++ (post_trap d.at d.fd ∷ done))
  unfolding task2_script
  semaphore-Orders s apart run more e =
      let r = Runs-Reach d apart (Tries-Runs d refl run) in
      let inv = Reach-Inv d apart r in
      let none_left = no-waits-left s r more e in
      let posted : tally d is_post s.task2 ≡ 0 = elim (zero-or-positive (tally d is_init s.main)) [
        | inl z ↦ let b = inv.balance z in omega arith
        | inr p ↦ let (no1, no2, even) = inv.fresh p in even ∙ none_left
      ] in
      made-part is_post (post_trap d.at d.fd) (task2_before d.at d.fd) (says d.fd "Task2: Done.\n")
        (made thread2 s.log) s.task2 (ap is_post (post-Kind d)) posted (script-order d thread2 r)

  main_script-parts :
      main_script d.at d.fd d.id1 d.id2 ≡ up_to_joins d.at d.fd d.id1 d.id2 ++ after_joins d.at d.fd
  unfolding main_script demo_script wait_script up_to_joins after_joins
  main_script-parts = simp append_assoc refl

  after_joins-Tally : (w : Kind → ℕ) → w other ≡ 0 → tally d w (after_joins d.at d.fd) ≡ 0
  unfolding after_joins
  after_joins-Tally w e =
      says-tally d w "Main: All tasks completed.\n" (cleanup d.at d.fd) e ∙ cleanup-Tally d w e

  joins-done :
      {garbage : ℕ} (s : System) (w : Kind → ℕ)
      → Reach d garbage s
      → (more : List Trap) → made main_thread s.log ≡ up_to_joins d.at d.fd d.id1 d.id2 ++ more
      → w other ≡ 0
      → tally d w s.main ≡ 0
  joins-done s w r more e z =
      let up_to = up_to_joins d.at d.fd d.id1 d.id2 in
      let whole : up_to ++ (more ++ s.main) ≡ up_to ++ after_joins d.at d.fd =
        sym (append_assoc up_to more s.main)
        ∙ (ap (λ l. l ++ s.main) (sym e) ∙ (script-order d main_thread r ∙ main_script-parts)) in
      let rest = append_cancel_left up_to (more ++ s.main) (after_joins d.at d.fd) whole in
      let all = tally-append d w more s.main in
      let none = after_joins-Tally w z in omega (arith, ap (tally d w) rest, all, none)

  pub all-made :
      {garbage : ℕ} {s : System} (x : Thread)
      → Reach d garbage s
      → calls x s ≡ []
      → made x s.log ≡ script d x
  all-made {s = s} x r e =
      sym (append-nil (made x s.log)) ∙ (ap (λ l. made x s.log ++ l) (sym e) ∙ script-order d x r)

  -- Under the same conditions, in every state that the threads can reach while none of these calls
  -- fails: once main is past its
  -- second pthread_join, both tasks have made all their calls, so it is after them that main
  -- destroys the semaphore and closes the UART.
  pub joins-Wait :
      {garbage : ℕ} (s : System)
      → Apart d
      → Tries d garbage false s
      → (more : List Trap) → made main_thread s.log ≡ up_to_joins d.at d.fd d.id1 d.id2 ++ more
      → (made thread1 s.log ≡ task1_script d.at d.fd)
        × (made thread2 s.log ≡ task2_script d.at d.fd)
  joins-Wait s apart run more e =
      let r = Runs-Reach d apart (Tries-Runs d refl run) in
      let inv = Reach-Inv d apart r in
      let over1 = inv.joined1 (joins-done s is_join1 r more e refl) in
      let over2 = inv.joined2 (joins-done s is_join2 r more e refl) in
      (all-made thread1 r over1, all-made thread2 r over2)
