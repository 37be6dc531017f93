-- ===== src/Multitask/Schedule.antt =====
-- Runs of the threads of multitask.c under a given schedule.
use vsync.Prelude.{
  Bool, List, Option, [], false, if◌then◌else◌, none, refl, some, subst, true, ℕ, ◌∷◌, ◌≡◌,
}
use mathlib.Core.Option.{none-ne-some, some-injective}
use vsync.Posix.Decode.{Trap}
use vsync.Multitask.Program.{Runs, goes_on}
use vsync.Multitask.System.{
  Thread, main_thread, thread1, thread2, System, Demo, effect, main_goes, task1_goes, task2_goes,
  kind, Step, by_main, by_task1, by_task2,
}

module _ (d : Demo) where
  abbrev first_call : (List Trap) → (Trap → List Trap → System) → Option System
  first_call [] goes = none
  first_call (t ∷ rest) goes = effect (kind d t) t (goes t rest)

  -- A thread takes its turn, if it can.
  unfoldable pub turn : Thread → System → Option System
  turn main_thread s = first_call s.main (main_goes s)
  turn thread1 s = if s.created1 then first_call s.task1 (task1_goes s) else none
  turn thread2 s = if s.created2 then first_call s.task2 (task2_goes s) else none

  unfoldable pub run : List Thread → System → Option System
  run [] s = some s
  run (x ∷ xs) s = elim (turn x s) [ none ↦ none | some u ↦ run xs u ]

  called :
      (ts : List Trap) (goes : Trap → List Trap → System) (u : System)
      → first_call ts goes ≡ some u
      → (t : Trap) × (rest : List Trap) × (ts ≡ t ∷ rest)
        × (effect (kind d t) t (goes t rest) ≡ some u)
  called [] goes u e = absurd (none-ne-some u e)
  called (t ∷ rest) goes u e = (t, rest, refl, e)

  guarded :
      (b : Bool) (o : Option System) (u : System)
      → (if b then o else none) ≡ some u
      → (b ≡ true) × (o ≡ some u)
  guarded true o u e = (refl, e)
  guarded false o u e = absurd (none-ne-some u e)

  turn-Step : (x : Thread) (s u : System) → turn x s ≡ some u → Step d s u
  unfolding turn
  turn-Step main_thread s u e = let (t, rest, h, g) = called s.main (main_goes s) u e in by_main h g
  turn-Step thread1 s u e =
      let (c, o) = guarded s.created1 (first_call s.task1 (task1_goes s)) u e in
      let (t, rest, h, g) = called s.task1 (task1_goes s) u o in by_task1 c h g
  turn-Step thread2 s u e =
      let (c, o) = guarded s.created2 (first_call s.task2 (task2_goes s)) u e in
      let (t, rest, h, g) = called s.task2 (task2_goes s) u o in by_task2 c h g

  run-next :
      {garbage : ℕ} (x : Thread) (s u : System) (o : Option System)
      → Runs d garbage s
      → turn x s ≡ o
      → (xs : List Thread)
      → elim o as (λ _. Option System) [ none ↦ none | some v ↦ run xs v ] ≡ some u
      → (v : System) × Runs d garbage v × (run xs v ≡ some u)
  run-next x s u none r e xs g = absurd (none-ne-some u g)
  run-next x s u (some v) r e xs g = (v, goes_on r (turn-Step x s v e), g)

  pub run-Runs :
      {garbage : ℕ} (xs : List Thread) (s u : System)
      → Runs d garbage s
      → run xs s ≡ some u
      → Runs d garbage u
  unfolding run
  run-Runs {garbage} [] s u r e = subst (Runs d garbage) (some-injective s u e) r
  run-Runs (x ∷ xs) s u r e =
      let (v, rv, ev) = run-next x s u (turn x s) r refl xs e in run-Runs xs v u rv ev
