-- ===== src/Posix.antt =====
-- sw/lib/vsync_posix.h: syscall0 to syscall4; sw/lib/vsync_posix.c: the API functions.
-- A `long` or `int` is its 32-bit pattern, and a pointer its address. The kernel behind `ecall` is
-- the parameter `k`: it takes a7 and the argument registers that are set, and returns a0.
pub mod Numbers
pub mod Decode
pub mod Calls
pub mod Write
use vsync.Prelude.{Bool, List, [], if◌then◌else◌, leb, some, suc, zero, ℕ, ◌^◌, ◌∷◌}
use vsync.Posix.Numbers.{
  sys_clock_gettime, sys_close, sys_ioctl, sys_lseek, sys_mq_close, sys_mq_open, sys_mq_receive,
  sys_mq_send, sys_mutex_destroy, sys_mutex_init, sys_mutex_lock, sys_mutex_trylock,
  sys_mutex_unlock, sys_nanosleep, sys_open, sys_pthread_create, sys_pthread_detach,
  sys_pthread_exit, sys_pthread_join, sys_pthread_self, sys_pthread_yield, sys_read,
  sys_sem_destroy, sys_sem_getvalue, sys_sem_init, sys_sem_post, sys_sem_trywait, sys_sem_wait,
  sys_write,
}
use vsync.Machine.{M, pure, fault, ◌>>=◌, ◌>>◌}

pub record Kernel (S : Type 0) : Type 0 where
  pub ecall : ℕ → List ℕ → S → ℕ × S

-- `ret < 0`, on a 32-bit pattern.
abbrev pub is_negative : ℕ → Bool
is_negative w = leb (2 ^ 31) w

module _ {S : Type 0} (k : Kernel S) where
  unfoldable pub syscall0 : ℕ → M S ℕ
  syscall0 num s = some (k.ecall num [] s)

  unfoldable pub syscall1 : ℕ → ℕ → M S ℕ
  syscall1 num a0 s = some (k.ecall num (a0 ∷ []) s)

  unfoldable pub syscall2 : ℕ → ℕ → ℕ → M S ℕ
  syscall2 num a0 a1 s = some (k.ecall num (a0 ∷ a1 ∷ []) s)

  unfoldable pub syscall3 : ℕ → ℕ → ℕ → ℕ → M S ℕ
  syscall3 num a0 a1 a2 s = some (k.ecall num (a0 ∷ a1 ∷ a2 ∷ []) s)

  unfoldable pub syscall4 : ℕ → ℕ → ℕ → ℕ → ℕ → M S ℕ
  syscall4 num a0 a1 a2 a3 s = some (k.ecall num (a0 ∷ a1 ∷ a2 ∷ a3 ∷ []) s)

  unfoldable pub pthread_create : ℕ → ℕ → ℕ → ℕ → M S ℕ
  unfolding syscall4
  pthread_create thread attr start_routine arg =
      syscall4 sys_pthread_create thread attr start_routine arg

  unfoldable pub pthread_yield : M S ℕ
  unfolding syscall0
  pthread_yield = syscall0 sys_pthread_yield

  unfoldable pub pthread_self : M S ℕ
  unfolding syscall0
  pthread_self = syscall0 sys_pthread_self

  unfoldable pub pthread_join : ℕ → ℕ → M S ℕ
  unfolding syscall2
  pthread_join thread retval = syscall2 sys_pthread_join thread retval

  unfoldable pub pthread_detach : ℕ → M S ℕ
  unfolding syscall1
  pthread_detach thread = syscall1 sys_pthread_detach thread

  unfoldable pub pthread_mutex_init : ℕ → ℕ → M S ℕ
  unfolding syscall2
  pthread_mutex_init mutex attr = syscall2 sys_mutex_init mutex attr

  unfoldable pub pthread_mutex_lock : ℕ → M S ℕ
  unfolding syscall1
  pthread_mutex_lock mutex = syscall1 sys_mutex_lock mutex

  unfoldable pub pthread_mutex_trylock : ℕ → M S ℕ
  unfolding syscall1
  pthread_mutex_trylock mutex = syscall1 sys_mutex_trylock mutex

  unfoldable pub pthread_mutex_unlock : ℕ → M S ℕ
  unfolding syscall1
  pthread_mutex_unlock mutex = syscall1 sys_mutex_unlock mutex

  unfoldable pub pthread_mutex_destroy : ℕ → M S ℕ
  unfolding syscall1
  pthread_mutex_destroy mutex = syscall1 sys_mutex_destroy mutex

  unfoldable pub sem_init : ℕ → ℕ → ℕ → M S ℕ
  unfolding syscall3
  sem_init sem pshared value = syscall3 sys_sem_init sem pshared value

  unfoldable pub sem_wait : ℕ → M S ℕ
  unfolding syscall1
  sem_wait sem = syscall1 sys_sem_wait sem

  unfoldable pub sem_trywait : ℕ → M S ℕ
  unfolding syscall1
  sem_trywait sem = syscall1 sys_sem_trywait sem

  unfoldable pub sem_post : ℕ → M S ℕ
  unfolding syscall1
  sem_post sem = syscall1 sys_sem_post sem

  unfoldable pub sem_getvalue : ℕ → ℕ → M S ℕ
  unfolding syscall2
  sem_getvalue sem sval = syscall2 sys_sem_getvalue sem sval

  unfoldable pub sem_destroy : ℕ → M S ℕ
  unfolding syscall1
  sem_destroy sem = syscall1 sys_sem_destroy sem

  unfoldable pub mq_open : ℕ → ℕ → M S ℕ
  unfolding syscall2
  mq_open name oflag = syscall2 sys_mq_open name oflag

  unfoldable pub mq_send : ℕ → ℕ → ℕ → ℕ → M S ℕ
  unfolding syscall4
  mq_send mqdes msg_ptr msg_len msg_prio = syscall4 sys_mq_send mqdes msg_ptr msg_len msg_prio

  unfoldable pub mq_receive : ℕ → ℕ → ℕ → ℕ → M S ℕ
  unfolding syscall4
  mq_receive mqdes msg_ptr msg_len msg_prio = syscall4 sys_mq_receive mqdes msg_ptr msg_len msg_prio

  unfoldable pub mq_close : ℕ → M S ℕ
  unfolding syscall1
  mq_close mqdes = syscall1 sys_mq_close mqdes

  unfoldable pub open_fd : ℕ → ℕ → M S ℕ
  unfolding syscall2
  open_fd fd_type flags = syscall2 sys_open fd_type flags

  unfoldable pub close : ℕ → M S ℕ
  unfolding syscall1
  close fd = syscall1 sys_close fd

  unfoldable pub read : ℕ → ℕ → ℕ → M S ℕ
  unfolding syscall3
  read fd buf count = syscall3 sys_read fd buf count

  unfoldable pub ioctl : ℕ → ℕ → ℕ → M S ℕ
  unfolding syscall3
  ioctl fd request arg = syscall3 sys_ioctl fd request arg

  unfoldable pub lseek : ℕ → ℕ → ℕ → M S ℕ
  unfolding syscall3
  lseek fd offset whence = syscall3 sys_lseek fd offset whence

  unfoldable pub clock_gettime : ℕ → ℕ → M S ℕ
  unfolding syscall2
  clock_gettime clk_id tp = syscall2 sys_clock_gettime clk_id tp

  unfoldable pub nanosleep : ℕ → ℕ → M S ℕ
  unfolding syscall2
  nanosleep req rem = syscall2 sys_nanosleep req rem

  -- The system call of pthread_exit.
  unfoldable pub exit_call : ℕ → M S ℕ
  unfolding syscall1
  exit_call retval = syscall1 sys_pthread_exit retval

  -- The loop `while (1)` behind it, for a number of rounds; `wfi` is what the instruction does.
  unfoldable pub exit_loop : (S → S) → ℕ → S → S
  exit_loop wfi zero s = s
  exit_loop wfi (suc rounds) s = exit_loop wfi rounds (wfi s)

  unfoldable pub pthread_exit : (S → S) → (rounds : ℕ) → ℕ → M S (Unit {0})
  pthread_exit wfi rounds retval = do ret ← exit_call retval; λ s. some (tt, exit_loop wfi rounds s)

  -- The loop of `write`, with the bytes at `p` and `n` rounds left; `none` is a read past the
  -- memory.
  unfoldable pub write_loop : ℕ → ℕ → List ℕ → ℕ → M S ℕ
  unfolding syscall3
  write_loop fd count p zero = pure count
  write_loop fd count [] (suc n) = fault
  write_loop fd count (c ∷ p) (suc n) = do
    ret ← syscall3 sys_write fd c 1
    let rest = write_loop fd count p n
    if is_negative ret then pure ret else rest

  unfoldable pub write : ℕ → List ℕ → ℕ → M S ℕ
  write fd buf count = write_loop fd count buf count
