-- ===== src/Multitask/Invariant/Kinds.antt =====
-- The kinds of the calls of multitask.c: what each does to the other threads.
use vsync.Prelude.{All, List, [], arith, codes, false, map, refl, ℕ, ◌++◌, ◌∷◌, ◌≡◌, ◌≢◌}
use Prim.Native.String.{String}
use vsync.Posix.{is_negative}
use vsync.Posix.Decode.{Trap}
use vsync.Multitask.Scripts.{
  open_trap, cleanup, yield_trap, sleep_trap, init_trap, wait_trap, post_trap, create1_trap,
  create2_trap, join_trap, write_trap, says,
}
use vsync.Multitask.System.{
  Demo, Kind, other, init, wait, post, create1, create2, join1, join2, kind,
}
use vsync.Multitask.Invariant.Defs.{kind_of, tally, Ordered}

module _ (d : Demo) where
  -- The calls of uart_puts do nothing to the other threads.
  quiet-tally :
      (w : Kind → ℕ) (p : List ℕ) (rest : List Trap)
      → w other ≡ 0
      → tally d w (map (write_trap d.fd) p ++ rest) ≡ tally d w rest
  unfolding kind
  quiet-tally w [] rest e = refl
  quiet-tally w (c ∷ p) rest e = let ih = quiet-tally w p rest e in omega arith

  quiet-Ordered :
      (p : List ℕ) (rest : List Trap) → Ordered d rest → Ordered d (map (write_trap d.fd) p ++ rest)
  unfolding kind
  quiet-Ordered [] rest o = o
  quiet-Ordered (c ∷ p) rest o = (tt, quiet-Ordered p rest o)

  quiet-All :
      (P : Kind → Type 0) (p : List ℕ)
      → P other
      → All (λ x. P (kind_of d x)) (map (write_trap d.fd) p)
  unfolding kind
  quiet-All P [] o = tt
  quiet-All P (c ∷ p) o = (o, quiet-All P p o)

  -- The functions of the tasks and the variables for their ids have two addresses each, the tasks
  -- have two ids, and the descriptor is not negative.
  pub record Apart : Type 0 where
    pub functions : d.at.task1_func ≢ d.at.task2_func
    pub ids : d.id1 ≢ d.id2
    pub variables : d.at.task1 ≢ d.at.task2
    pub is_fd : is_negative d.fd ≡ false

  pub init-Kind : kind d (init_trap d.at d.fd) ≡ init
  unfolding kind
  init-Kind = ground arith

  pub wait-Kind : kind d (wait_trap d.at d.fd) ≡ wait
  unfolding kind
  wait-Kind = ground arith

  pub post-Kind : kind d (post_trap d.at d.fd) ≡ post
  unfolding kind
  post-Kind = ground arith

  pub create1-Kind : kind d (create1_trap d.at d.fd) ≡ create1
  unfolding kind
  create1-Kind = ground arith

  pub create2-Kind : Apart → kind d (create2_trap d.at d.fd) ≡ create2
  unfolding kind
  create2-Kind a = let f = a.functions in ground arith

  pub join1-Kind : kind d (join_trap d.at d.fd d.id1) ≡ join1
  unfolding kind
  join1-Kind = ground arith

  pub join2-Kind : Apart → kind d (join_trap d.at d.fd d.id2) ≡ join2
  unfolding kind
  join2-Kind a = let f = a.ids in ground arith

  pub yield-Kind : kind d (yield_trap d.at d.fd) ≡ other
  unfolding kind
  yield-Kind = refl

  pub open-Kind : kind d (open_trap d.at d.fd) ≡ other
  unfolding kind
  open-Kind = refl

  pub sleep-Kind : kind d (sleep_trap d.at d.fd) ≡ other
  unfolding kind
  sleep-Kind = refl

  pub cleanup-Tally : (w : Kind → ℕ) → w other ≡ 0 → tally d w (cleanup d.at d.fd) ≡ 0
  unfolding kind
  cleanup-Tally w e = omega arith

  pub cleanup-Ordered : Ordered d (cleanup d.at d.fd)
  unfolding kind
  cleanup-Ordered = (tt, (tt, tt))

  pub says-tally :
      (w : Kind → ℕ) (text : String) (rest : List Trap)
      → w other ≡ 0
      → tally d w (says d.fd text ++ rest) ≡ tally d w rest
  unfolding says
  says-tally w text rest e = quiet-tally w (codes text) rest e

  pub says-Ordered :
      (text : String) (rest : List Trap) → Ordered d rest → Ordered d (says d.fd text ++ rest)
  unfolding says
  says-Ordered text rest o = quiet-Ordered (codes text) rest o

  pub says-All :
      (P : Kind → Type 0) (text : String) → P other → All (λ x. P (kind_of d x)) (says d.fd text)
  unfolding says
  says-All P text o = quiet-All P (codes text) o
