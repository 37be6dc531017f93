-- ===== src/Multitask/Program.antt =====
-- The threads of multitask.c with the calls that the code makes, on a kernel that answers as
-- sw/lib/vsync_posix.h says.
use vsync.Prelude.{
  List, Option, [], ap, append-nil, arith, false, get_or, if◌then◌else◌, none, refl, some, subst,
  sym, ℕ, ◌++◌, ◌==◌, ◌∙◌, ◌∷◌, ◌≡◌,
}
use vsync.Locals.{Locals}
use vsync.Posix.{Kernel}
use vsync.Posix.Decode.{Trap, recording}
use vsync.Multitask.{task1_func, task2_func, main}
use vsync.Multitask.Scripts.{main_outcome, main_script, task1_script, task2_script}
use vsync.Multitask.Traces.{Takes, Keeps, push, with_traps, tasks-Make}
use vsync.Multitask.Outcomes.{main-Makes, created2}
use vsync.Multitask.System.{System, Demo, start, Step, Reach, here, next}
use vsync.Multitask.Invariant.Kinds.{Apart}

-- A kernel whose state is the two ids that it has stored, and the memory that holds them.
abbrev header_kernel : Demo → Kernel (ℕ × ℕ)
header_kernel d = record {
  ecall = λ num args s.
      if num == 0x50
      then (d.fd, s)
      else if num == 0x00
      then (0, if get_or args 0 0 == d.at.task1 then (d.id1, s.1) else (s.0, d.id2))
      else (0, s);
}

abbrev header_memory : Demo → Locals (ℕ × ℕ)
header_memory d = record {
  set_timespec = λ a t s. s;
  word = λ a s. if a == d.at.task1 then s.0 else s.1;
}

header_kernel-Keeps : (d : Demo) → Apart d → Keeps (header_kernel d) (header_memory d) d.at d.fd
header_kernel-Keeps d a num args s h = (ground arith, ground arith)

-- The variables hold the two ids behind the second pthread_create.
header_kernel-stores :
    (d : Demo)
    → Apart d
    → (s : ℕ × ℕ)
    → let mem = header_memory d in
      let last = (created2 (header_kernel d) mem d.at d.fd s).1 in
      (mem.word d.at.task1 last ≡ d.id1) × (mem.word d.at.task2 last ≡ d.id2)
header_kernel-stores d a s = let v = a.variables in (ground arith, ground arith)

-- The calls that a run makes, the earliest first.
unfoldable recorded : Option (ℕ × ((ℕ × ℕ) × List Trap)) → List Trap
recorded none = []
recorded (some (ret, (s, traps))) = push traps []

push-push : (ts later out : List Trap) → push (push ts later) out ≡ push later (ts ++ out)
unfolding push
push-push [] later out = refl
push-push (t ∷ ts) later out = push-push ts (t ∷ later) out

recorded-push :
    (run : Option (ℕ × ((ℕ × ℕ) × List Trap))) (ret : ℕ) (s : ℕ × ℕ) (ts : List Trap)
    → run ≡ some (ret, (s, push ts []))
    → recorded run ≡ ts
unfolding recorded push
recorded-push run ret s ts e = ap recorded e ∙ (push-push ts [] [] ∙ append-nil ts)

-- The calls of each thread's code, as if it ran alone; the semaphore holds an arbitrary value.
unfoldable pub code_start : Demo → ℕ → System
unfolding recorded
code_start d garbage =
    let k = recording (header_kernel d) in
    let mem = with_traps (header_memory d) in
    let blank : (ℕ × ℕ) × List Trap = ((0, 0), []) in
    record {
      count = garbage;
      created1 = false;
      created2 = false;
      main = recorded (main k mem d.at blank);
      task1 = recorded (task1_func k mem d.at d.fd blank);
      task2 = recorded (task2_func k mem d.at d.fd blank);
      log = [];
    }

good_outcome :
    (d : Demo)
    → Apart d
    → (id1 id2 : ℕ) → id1 ≡ d.id1
    → id2 ≡ d.id2
    → main_outcome d.at d.fd id1 id2 0 0 ≡ (0, main_script d.at d.fd d.id1 d.id2)
unfolding main_outcome
good_outcome d a id1 id2 same1 same2 = let f = a.is_fd in rw (f, same1, same2) refl

code_start-start : (d : Demo) (garbage : ℕ) → Apart d → code_start d garbage ≡ start d garbage
unfolding code_start
code_start-start d garbage a =
    let k = header_kernel d in
    let mem = header_memory d in
    let takes : Takes k mem d.at d.fd = λ c s. refl in
    let ((s1, e1), (s2, e2)) = tasks-Make k mem d.at d.fd takes (0, 0) [] in
    let (s0, e0) = main-Makes k mem d.at (0, 0) [] takes (header_kernel-Keeps d a) in
    let last = (created2 k mem d.at d.fd (0, 0)).1 in
    let id1 = mem.word d.at.task1 last in
    let id2 = mem.word d.at.task2 last in
    let (stored1, stored2) = header_kernel-stores d a (0, 0) in
    let (ret, ts) = main_outcome d.at d.fd id1 id2 0 0 in
    let good = good_outcome d a id1 id2 stored1 stored2 in
    let c0 = recorded-push _ ret s0 ts e0 ∙ ap (λ x. x.1) good in
    let c1 = recorded-push _ 0 s1 (task1_script d.at d.fd) e1 in
    let c2 = recorded-push _ 0 s2 (task2_script d.at d.fd) e2 in
    λ i. record (start d garbage) { main = c0 i; task1 = c1 i; task2 = c2 i }

module _ (d : Demo) where
  -- The states that the threads can reach.
  pub data Runs (garbage : ℕ) : System → Type 0 where
    begins : Runs garbage (code_start d garbage)
    goes_on : {s u : System} → Runs garbage s → Step d s u → Runs garbage u

  pub Runs-Reach : {garbage : ℕ} {s : System} → Apart d → Runs garbage s → Reach d garbage s
  Runs-Reach {garbage} a begins = subst (Reach d garbage) (sym (code_start-start d garbage a)) here
  Runs-Reach a (goes_on r m) = next (Runs-Reach a r) m

  pub start-Runs : (garbage : ℕ) → Apart d → Runs garbage (start d garbage)
  start-Runs garbage a = subst (Runs garbage) (code_start-start d garbage a) begins
