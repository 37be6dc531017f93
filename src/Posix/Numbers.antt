-- ===== src/Posix/Numbers.antt =====
-- sw/lib/vsync_posix.h: the system call numbers, and the constants that the programs pass.
use vsync.Prelude.{ℕ}

abbrev pub fd_type_uart : ℕ
fd_type_uart = 1

abbrev pub fd_type_gpio : ℕ
fd_type_gpio = 2

abbrev pub gpio_set_output : ℕ
gpio_set_output = 0x00

abbrev pub gpio_set_dir : ℕ
gpio_set_dir = 0x08

abbrev pub sys_pthread_create : ℕ
sys_pthread_create = 0x00

abbrev pub sys_pthread_exit : ℕ
sys_pthread_exit = 0x01

abbrev pub sys_pthread_join : ℕ
sys_pthread_join = 0x02

abbrev pub sys_pthread_detach : ℕ
sys_pthread_detach = 0x03

abbrev pub sys_pthread_self : ℕ
sys_pthread_self = 0x04

abbrev pub sys_pthread_yield : ℕ
sys_pthread_yield = 0x05

abbrev pub sys_mutex_init : ℕ
sys_mutex_init = 0x10

abbrev pub sys_mutex_lock : ℕ
sys_mutex_lock = 0x11

abbrev pub sys_mutex_trylock : ℕ
sys_mutex_trylock = 0x12

abbrev pub sys_mutex_unlock : ℕ
sys_mutex_unlock = 0x13

abbrev pub sys_mutex_destroy : ℕ
sys_mutex_destroy = 0x14

abbrev pub sys_sem_init : ℕ
sys_sem_init = 0x20

abbrev pub sys_sem_wait : ℕ
sys_sem_wait = 0x21

abbrev pub sys_sem_trywait : ℕ
sys_sem_trywait = 0x22

abbrev pub sys_sem_post : ℕ
sys_sem_post = 0x24

abbrev pub sys_sem_getvalue : ℕ
sys_sem_getvalue = 0x25

abbrev pub sys_sem_destroy : ℕ
sys_sem_destroy = 0x26

abbrev pub sys_mq_open : ℕ
sys_mq_open = 0x30

abbrev pub sys_mq_send : ℕ
sys_mq_send = 0x31

abbrev pub sys_mq_receive : ℕ
sys_mq_receive = 0x32

abbrev pub sys_mq_close : ℕ
sys_mq_close = 0x33

abbrev pub sys_clock_gettime : ℕ
sys_clock_gettime = 0x40

abbrev pub sys_nanosleep : ℕ
sys_nanosleep = 0x42

abbrev pub sys_open : ℕ
sys_open = 0x50

abbrev pub sys_close : ℕ
sys_close = 0x51

abbrev pub sys_read : ℕ
sys_read = 0x52

abbrev pub sys_write : ℕ
sys_write = 0x53

abbrev pub sys_ioctl : ℕ
sys_ioctl = 0x54

abbrev pub sys_lseek : ℕ
sys_lseek = 0x55
