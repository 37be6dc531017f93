-- ===== src/Posix/Calls.antt =====
-- The API functions as one type of calls, so that statements can range over them.
use vsync.Prelude.{ℕ}
use vsync.Machine.{M}
use vsync.Posix.{
  Kernel, pthread_create, pthread_yield, pthread_self, pthread_join, pthread_detach,
  pthread_mutex_init, pthread_mutex_lock, pthread_mutex_trylock, pthread_mutex_unlock,
  pthread_mutex_destroy, sem_init, sem_wait, sem_trywait, sem_post, sem_getvalue, sem_destroy,
  mq_open, mq_send, mq_receive, mq_close, open_fd, close, read, ioctl, lseek, clock_gettime,
  nanosleep, exit_call,
}

-- One constructor for each function but `write`, with its arguments.
pub data Call : Type 0 where
  call_pthread_create : ℕ → ℕ → ℕ → ℕ → Call
  call_pthread_yield : Call
  call_pthread_self : Call
  call_pthread_join : ℕ → ℕ → Call
  call_pthread_detach : ℕ → Call
  call_pthread_mutex_init : ℕ → ℕ → Call
  call_pthread_mutex_lock : ℕ → Call
  call_pthread_mutex_trylock : ℕ → Call
  call_pthread_mutex_unlock : ℕ → Call
  call_pthread_mutex_destroy : ℕ → Call
  call_sem_init : ℕ → ℕ → ℕ → Call
  call_sem_wait : ℕ → Call
  call_sem_trywait : ℕ → Call
  call_sem_post : ℕ → Call
  call_sem_getvalue : ℕ → ℕ → Call
  call_sem_destroy : ℕ → Call
  call_mq_open : ℕ → ℕ → Call
  call_mq_send : ℕ → ℕ → ℕ → ℕ → Call
  call_mq_receive : ℕ → ℕ → ℕ → ℕ → Call
  call_mq_close : ℕ → Call
  call_open_fd : ℕ → ℕ → Call
  call_close : ℕ → Call
  call_read : ℕ → ℕ → ℕ → Call
  call_ioctl : ℕ → ℕ → ℕ → Call
  call_lseek : ℕ → ℕ → ℕ → Call
  call_clock_gettime : ℕ → ℕ → Call
  call_nanosleep : ℕ → ℕ → Call
  call_pthread_exit : ℕ → Call

module _ {S : Type 0} (k : Kernel S) where
  -- The function that a call stands for.
  unfoldable pub perform : Call → M S ℕ
  unfolding pthread_create pthread_yield pthread_self pthread_join pthread_detach pthread_mutex_init
      pthread_mutex_lock pthread_mutex_trylock pthread_mutex_unlock pthread_mutex_destroy sem_init
      sem_wait sem_trywait sem_post sem_getvalue sem_destroy mq_open mq_send mq_receive mq_close
      open_fd close read ioctl lseek clock_gettime nanosleep exit_call
  perform (call_pthread_create thread attr start_routine arg) =
      pthread_create k thread attr start_routine arg
  perform (call_pthread_yield) = pthread_yield k
  perform (call_pthread_self) = pthread_self k
  perform (call_pthread_join thread retval) = pthread_join k thread retval
  perform (call_pthread_detach thread) = pthread_detach k thread
  perform (call_pthread_mutex_init mutex attr) = pthread_mutex_init k mutex attr
  perform (call_pthread_mutex_lock mutex) = pthread_mutex_lock k mutex
  perform (call_pthread_mutex_trylock mutex) = pthread_mutex_trylock k mutex
  perform (call_pthread_mutex_unlock mutex) = pthread_mutex_unlock k mutex
  perform (call_pthread_mutex_destroy mutex) = pthread_mutex_destroy k mutex
  perform (call_sem_init sem pshared value) = sem_init k sem pshared value
  perform (call_sem_wait sem) = sem_wait k sem
  perform (call_sem_trywait sem) = sem_trywait k sem
  perform (call_sem_post sem) = sem_post k sem
  perform (call_sem_getvalue sem sval) = sem_getvalue k sem sval
  perform (call_sem_destroy sem) = sem_destroy k sem
  perform (call_mq_open name oflag) = mq_open k name oflag
  perform (call_mq_send mqdes msg_ptr msg_len msg_prio) = mq_send k mqdes msg_ptr msg_len msg_prio
  perform (call_mq_receive mqdes msg_ptr msg_len msg_prio) =
      mq_receive k mqdes msg_ptr msg_len msg_prio
  perform (call_mq_close mqdes) = mq_close k mqdes
  perform (call_open_fd fd_type flags) = open_fd k fd_type flags
  perform (call_close fd) = close k fd
  perform (call_read fd buf count) = read k fd buf count
  perform (call_ioctl fd request arg) = ioctl k fd request arg
  perform (call_lseek fd offset whence) = lseek k fd offset whence
  perform (call_clock_gettime clk_id tp) = clock_gettime k clk_id tp
  perform (call_nanosleep req rem) = nanosleep k req rem
  perform (call_pthread_exit retval) = exit_call k retval
