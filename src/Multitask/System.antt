-- ===== src/Multitask/System.antt =====
-- The threads of multitask.c as one system: the calls that each has still to make, interleaved in
-- any order, and what sw/lib/vsync_posix.h says of the calls on which the threads wait, where they
-- succeed; Failures adds their error returns.
use vsync.Prelude.{
  Bool, List, Option, [], false, get_or, if◌then◌else◌, none, some, suc, true, zero, ℕ, ◌&&◌, ◌++◌,
  ◌+◌, ◌==◌, ◌∷◌, ◌≡◌,
}
use vsync.Posix.Decode.{Trap}
use vsync.Multitask.{Places}
use vsync.Multitask.Scripts.{task1_script, task2_script, main_script}

pub data Thread : Type 0 where
  main_thread thread1 thread2 : Thread

pub record System : Type 0 where
  -- The value of the semaphore.
  pub count : ℕ
  pub created1 : Bool
  pub created2 : Bool
  -- The calls to come.
  pub main : List Trap
  pub task1 : List Trap
  pub task2 : List Trap
  -- The calls made, in order.
  pub log : List (Thread × Trap)

-- What a call does to the others.
pub data Kind : Type 0 where
  other init wait post create1 create2 join1 join2 : Kind

abbrev arg : Trap → ℕ → ℕ
arg t i = get_or t.args i 0

-- sem_init stores a value, sem_wait waits until it is above zero and takes one, sem_post adds one,
-- pthread_create lets a task run, and pthread_join waits until a task has ended: where they succeed.
unfoldable pub effect : Kind → Trap → System → Option System
effect other t s = some s
effect init t s = some (record s { count = get_or t.args 2 0 })
effect wait t s = elim s.count [ zero ↦ none | suc n ↦ some (record s { count = n }) ]
effect post t s = some (record s { count = s.count + 1 })
effect create1 t s = some (record s { created1 = true })
effect create2 t s = some (record s { created2 = true })
effect join1 t s = elim s.task1 [ [] ↦ some s | c ∷ cs ↦ none ]
effect join2 t s = elim s.task2 [ [] ↦ some s | c ∷ cs ↦ none ]

-- A thread makes its next call.
abbrev pub main_goes : System → Trap → List Trap → System
main_goes s t rest = record s { main = rest; log = s.log ++ ((main_thread, t) ∷ []) }

abbrev pub task1_goes : System → Trap → List Trap → System
task1_goes s t rest = record s { task1 = rest; log = s.log ++ ((thread1, t) ∷ []) }

abbrev pub task2_goes : System → Trap → List Trap → System
task2_goes s t rest = record s { task2 = rest; log = s.log ++ ((thread2, t) ∷ []) }

-- The addresses, the descriptor of the UART and the ids of the tasks.
pub record Demo : Type 0 where
  pub at : Places
  pub fd : ℕ
  pub id1 : ℕ
  pub id2 : ℕ

module _ (d : Demo) where
  unfoldable pub kind : Trap → Kind
  kind t =
      if t.num == 0x20 && arg t 0 == d.at.sync_sem
      then init
      else if t.num == 0x21 && arg t 0 == d.at.sync_sem
      then wait
      else if t.num == 0x24 && arg t 0 == d.at.sync_sem
      then post
      else if t.num == 0x00 && arg t 2 == d.at.task1_func
      then create1
      else if t.num == 0x00 && arg t 2 == d.at.task2_func
      then create2
      else if t.num == 0x02 && arg t 0 == d.id1
      then join1
      else if t.num == 0x02 && arg t 0 == d.id2
      then join2
      else other

  pub data Step (s : System) : System → Type 0 where
    by_main :
        {t : Trap} {rest : List Trap} {u : System}
        → s.main ≡ t ∷ rest
        → effect (kind t) t (main_goes s t rest) ≡ some u
        → Step s u
    by_task1 :
        {t : Trap} {rest : List Trap} {u : System}
        → s.created1 ≡ true
        → s.task1 ≡ t ∷ rest
        → effect (kind t) t (task1_goes s t rest) ≡ some u
        → Step s u
    by_task2 :
        {t : Trap} {rest : List Trap} {u : System}
        → s.created2 ≡ true
        → s.task2 ≡ t ∷ rest
        → effect (kind t) t (task2_goes s t rest) ≡ some u
        → Step s u

  -- The start, with an arbitrary value in the semaphore, which no one has set.
  abbrev pub start : ℕ → System
  start garbage = record {
    count = garbage;
    created1 = false;
    created2 = false;
    main = main_script d.at d.fd d.id1 d.id2;
    task1 = task1_script d.at d.fd;
    task2 = task2_script d.at d.fd;
    log = [];
  }

  pub data Reach (garbage : ℕ) : System → Type 0 where
    here : Reach garbage (start garbage)
    next : {s u : System} → Reach garbage s → Step s u → Reach garbage u
