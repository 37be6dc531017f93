-- ===== src/Multitask.antt =====
-- sw/examples/multitask.c.
pub mod Scripts
pub mod Traces
pub mod Outcomes
pub mod System
pub mod Invariant
pub mod Order
pub mod Program
pub mod Failures
pub mod Schedule
pub mod Safety
pub mod Left
pub mod Liveness
use vsync.Prelude.{List, [], codes, if◌then◌else◌, some, ℕ, ◌+◌, ◌==◌, ◌∷◌}
use Prim.Native.String.{String}
use vsync.Machine.{M, pure, fault, ◌>>=◌, ◌>>◌}
use vsync.Locals.{Locals, Timespec, minus_one}
use vsync.Posix.Numbers.{fd_type_uart}
use vsync.Posix.{
  Kernel, is_negative, open_fd, close, write, pthread_create, pthread_yield, pthread_join, sem_init,
  sem_wait, sem_post, sem_destroy, nanosleep,
}

-- `while (s[len] != '\0') { len++; }`: the list is what `len` has not passed.
scan_simple : List ℕ → ℕ → ℕ
scan_simple [] len = len
scan_simple (c ∷ s) len = let rest = scan_simple s (len + 1) in if c == 0 then len else rest

unfoldable pub strlen_simple : List ℕ → ℕ
unfolding scan_simple
strlen_simple s = scan_simple s 0

-- Where the linker and the stack have the variables and the functions whose addresses are taken.
pub record Places : Type 0 where
  pub sync_sem : ℕ
  pub task1 : ℕ
  pub task2 : ℕ
  pub delay : ℕ
  pub task1_func : ℕ
  pub task2_func : ℕ

module _ {S : Type 0} (k : Kernel S) (mem : Locals S) (at : Places) where
  unfoldable pub uart_puts : ℕ → String → M S (Unit {0})
  uart_puts uart_fd str = do ret ← write k uart_fd (codes str) (strlen_simple (codes str)); pure tt

  unfoldable pub task1_func : ℕ → M S ℕ
  unfolding sem_wait pthread_yield
  task1_func uart_fd = do
    uart_puts uart_fd "Task1: Waiting for semaphore...\n"
    ret ← sem_wait k at.sync_sem
    uart_puts uart_fd "Task1: Semaphore acquired! Running.\n"
    ret' ← pthread_yield k
    uart_puts uart_fd "Task1: Done.\n"
    pure 0

  unfoldable pub task2_func : ℕ → M S ℕ
  unfolding nanosleep sem_post
  task2_func uart_fd = do
    uart_puts uart_fd "Task2: Starting work...\n"
    λ s. some (tt, mem.set_timespec at.delay (record { tv_sec = 0; tv_nsec = 100_000_000 }) s)
    ret ← nanosleep k at.delay 0
    uart_puts uart_fd "Task2: Signaling Task1.\n"
    ret' ← sem_post k at.sync_sem
    uart_puts uart_fd "Task2: Done.\n"
    pure 0

  -- main, from the first message on.
  unfoldable pub wait_for_tasks : ℕ → M S ℕ
  unfolding pthread_join sem_destroy close
  wait_for_tasks uart_fd = do
    uart_puts uart_fd "Main: Tasks created. Waiting for completion.\n"
    ret ← λ s. pthread_join k (mem.word at.task1 s) 0 s
    ret' ← λ s. pthread_join k (mem.word at.task2 s) 0 s
    uart_puts uart_fd "Main: All tasks completed.\n"
    ret'' ← sem_destroy k at.sync_sem
    ret''' ← close k uart_fd
    pure 0

  unfoldable pub create_task2 : ℕ → M S ℕ
  unfolding pthread_create
  create_task2 uart_fd = do
    ret ← pthread_create k at.task2 0 at.task2_func 0
    let failed = (do uart_puts uart_fd "Main: Failed to create Task2\n"; pure minus_one)
    if ret == 0 then wait_for_tasks uart_fd else failed

  unfoldable pub create_task1 : ℕ → M S ℕ
  unfolding pthread_create
  create_task1 uart_fd = do
    ret ← pthread_create k at.task1 0 at.task1_func 0
    let failed = (do uart_puts uart_fd "Main: Failed to create Task1\n"; pure minus_one)
    if ret == 0 then create_task2 uart_fd else failed

  unfoldable pub start_demo : ℕ → M S ℕ
  unfolding sem_init
  start_demo uart_fd = do
    uart_puts uart_fd "Main: VSync Multitask Demo\n"
    ret ← sem_init k at.sync_sem 0 0
    create_task1 uart_fd

  unfoldable pub main : M S ℕ
  unfolding open_fd
  main = do
    uart_fd ← open_fd k fd_type_uart 0
    if is_negative uart_fd then pure minus_one else start_demo uart_fd
