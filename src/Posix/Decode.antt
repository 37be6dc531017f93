-- ===== src/Posix/Decode.antt =====
-- The traps that the API functions make, and how the calls are read back from them, by the system
-- call numbers of rtl/core/vsync_pkg.sv.
use vsync.Prelude.{List, Option, [], get_or, if◌then◌else◌, none, refl, some, ℕ, ◌==◌, ◌∷◌, ◌≡◌}
use vsync.Posix.{Kernel}
use vsync.Posix.Calls.{
  Call, perform, call_pthread_create, call_pthread_yield, call_pthread_self, call_pthread_join,
  call_pthread_detach, call_pthread_mutex_init, call_pthread_mutex_lock, call_pthread_mutex_trylock,
  call_pthread_mutex_unlock, call_pthread_mutex_destroy, call_sem_init, call_sem_wait,
  call_sem_trywait, call_sem_post, call_sem_getvalue, call_sem_destroy, call_mq_open, call_mq_send,
  call_mq_receive, call_mq_close, call_open_fd, call_close, call_read, call_ioctl, call_lseek,
  call_clock_gettime, call_nanosleep, call_pthread_exit,
}

-- A trap: a7 and the argument registers.
pub record Trap : Type 0 where
  pub num : ℕ
  pub args : List ℕ

-- The registers of a trap, missing ones read as 0.
abbrev arg : List ℕ → ℕ → ℕ
arg args i = get_or args i 0

-- The call that a number and the registers come from: the numbers of rtl/core/vsync_pkg.sv, and the
-- arguments in the order of the C prototypes, which for some calls is not the hardware's (see
-- doc/posix_mapping.md).
unfoldable pub decode : ℕ → List ℕ → Option Call
decode num args =
    if num == 0x00
    then some (call_pthread_create (arg args 0) (arg args 1) (arg args 2) (arg args 3))
    else if num == 0x01
    then some (call_pthread_exit (arg args 0))
    else if num == 0x02
    then some (call_pthread_join (arg args 0) (arg args 1))
    else if num == 0x03
    then some (call_pthread_detach (arg args 0))
    else if num == 0x04
    then some call_pthread_self
    else if num == 0x05
    then some call_pthread_yield
    else if num == 0x10
    then some (call_pthread_mutex_init (arg args 0) (arg args 1))
    else if num == 0x11
    then some (call_pthread_mutex_lock (arg args 0))
    else if num == 0x12
    then some (call_pthread_mutex_trylock (arg args 0))
    else if num == 0x13
    then some (call_pthread_mutex_unlock (arg args 0))
    else if num == 0x14
    then some (call_pthread_mutex_destroy (arg args 0))
    else if num == 0x20
    then some (call_sem_init (arg args 0) (arg args 1) (arg args 2))
    else if num == 0x21
    then some (call_sem_wait (arg args 0))
    else if num == 0x22
    then some (call_sem_trywait (arg args 0))
    else if num == 0x24
    then some (call_sem_post (arg args 0))
    else if num == 0x25
    then some (call_sem_getvalue (arg args 0) (arg args 1))
    else if num == 0x26
    then some (call_sem_destroy (arg args 0))
    else if num == 0x30
    then some (call_mq_open (arg args 0) (arg args 1))
    else if num == 0x31
    then some (call_mq_send (arg args 0) (arg args 1) (arg args 2) (arg args 3))
    else if num == 0x32
    then some (call_mq_receive (arg args 0) (arg args 1) (arg args 2) (arg args 3))
    else if num == 0x33
    then some (call_mq_close (arg args 0))
    else if num == 0x40
    then some (call_clock_gettime (arg args 0) (arg args 1))
    else if num == 0x42
    then some (call_nanosleep (arg args 0) (arg args 1))
    else if num == 0x50
    then some (call_open_fd (arg args 0) (arg args 1))
    else if num == 0x51
    then some (call_close (arg args 0))
    else if num == 0x52
    then some (call_read (arg args 0) (arg args 1) (arg args 2))
    else if num == 0x54
    then some (call_ioctl (arg args 0) (arg args 1) (arg args 2))
    else if num == 0x55
    then some (call_lseek (arg args 0) (arg args 1) (arg args 2))
    else none

-- A kernel that also keeps the traps, the latest first.
abbrev pub recording : {S : Type 0} → Kernel S → Kernel (S × List Trap)
recording k = record {
  ecall = λ num args s.
      let r = k.ecall num args s.0 in (r.0, (r.1, record { num = num; args = args } ∷ s.1));
}

-- Every API function makes exactly one system call, from whose number and registers `decode` reads
-- back the function and its arguments, so that no two calls of the API make the same trap; and the
-- function returns what the kernel returns.
pub decode-perform :
    {S : Type 0} (k : Kernel S) (c : Call) (s : S) (traps : List Trap)
    → (t : Trap) × (perform (recording k) c (s, traps)
        ≡ some ((k.ecall t.num t.args s).0, ((k.ecall t.num t.args s).1, t ∷ traps)))
      × (decode t.num t.args ≡ some c)
unfolding perform decode
decode-perform k (call_pthread_create thread attr start_routine arg) s traps =
    (record { num = 0x00; args = thread ∷ attr ∷ start_routine ∷ arg ∷ [] }, refl, refl)
decode-perform k (call_pthread_yield) s traps = (record { num = 0x05; args = [] }, refl, refl)
decode-perform k (call_pthread_self) s traps = (record { num = 0x04; args = [] }, refl, refl)
decode-perform k (call_pthread_join thread retval) s traps =
    (record { num = 0x02; args = thread ∷ retval ∷ [] }, refl, refl)
decode-perform k (call_pthread_detach thread) s traps =
    (record { num = 0x03; args = thread ∷ [] }, refl, refl)
decode-perform k (call_pthread_mutex_init mutex attr) s traps =
    (record { num = 0x10; args = mutex ∷ attr ∷ [] }, refl, refl)
decode-perform k (call_pthread_mutex_lock mutex) s traps =
    (record { num = 0x11; args = mutex ∷ [] }, refl, refl)
decode-perform k (call_pthread_mutex_trylock mutex) s traps =
    (record { num = 0x12; args = mutex ∷ [] }, refl, refl)
decode-perform k (call_pthread_mutex_unlock mutex) s traps =
    (record { num = 0x13; args = mutex ∷ [] }, refl, refl)
decode-perform k (call_pthread_mutex_destroy mutex) s traps =
    (record { num = 0x14; args = mutex ∷ [] }, refl, refl)
decode-perform k (call_sem_init sem pshared value) s traps =
    (record { num = 0x20; args = sem ∷ pshared ∷ value ∷ [] }, refl, refl)
decode-perform k (call_sem_wait sem) s traps = (record { num = 0x21; args = sem ∷ [] }, refl, refl)
decode-perform k (call_sem_trywait sem) s traps =
    (record { num = 0x22; args = sem ∷ [] }, refl, refl)
decode-perform k (call_sem_post sem) s traps = (record { num = 0x24; args = sem ∷ [] }, refl, refl)
decode-perform k (call_sem_getvalue sem sval) s traps =
    (record { num = 0x25; args = sem ∷ sval ∷ [] }, refl, refl)
decode-perform k (call_sem_destroy sem) s traps =
    (record { num = 0x26; args = sem ∷ [] }, refl, refl)
decode-perform k (call_mq_open name oflag) s traps =
    (record { num = 0x30; args = name ∷ oflag ∷ [] }, refl, refl)
decode-perform k (call_mq_send mqdes msg_ptr msg_len msg_prio) s traps =
    (record { num = 0x31; args = mqdes ∷ msg_ptr ∷ msg_len ∷ msg_prio ∷ [] }, refl, refl)
decode-perform k (call_mq_receive mqdes msg_ptr msg_len msg_prio) s traps =
    (record { num = 0x32; args = mqdes ∷ msg_ptr ∷ msg_len ∷ msg_prio ∷ [] }, refl, refl)
decode-perform k (call_mq_close mqdes) s traps =
    (record { num = 0x33; args = mqdes ∷ [] }, refl, refl)
decode-perform k (call_open_fd fd_type flags) s traps =
    (record { num = 0x50; args = fd_type ∷ flags ∷ [] }, refl, refl)
decode-perform k (call_close fd) s traps = (record { num = 0x51; args = fd ∷ [] }, refl, refl)
decode-perform k (call_read fd buf count) s traps =
    (record { num = 0x52; args = fd ∷ buf ∷ count ∷ [] }, refl, refl)
decode-perform k (call_ioctl fd request arg) s traps =
    (record { num = 0x54; args = fd ∷ request ∷ arg ∷ [] }, refl, refl)
decode-perform k (call_lseek fd offset whence) s traps =
    (record { num = 0x55; args = fd ∷ offset ∷ whence ∷ [] }, refl, refl)
decode-perform k (call_clock_gettime clk_id tp) s traps =
    (record { num = 0x40; args = clk_id ∷ tp ∷ [] }, refl, refl)
decode-perform k (call_nanosleep req rem) s traps =
    (record { num = 0x42; args = req ∷ rem ∷ [] }, refl, refl)
decode-perform k (call_pthread_exit retval) s traps =
    (record { num = 0x01; args = retval ∷ [] }, refl, refl)
