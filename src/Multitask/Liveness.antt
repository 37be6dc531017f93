-- ===== src/Multitask/Liveness.antt =====
-- The threads of multitask.c never block each other for good.
use vsync.Prelude.{[], true, ◌≡◌}
use vsync.Multitask.System.{System, Demo, Step}
use vsync.Multitask.Invariant.Defs.{tally, is_init}

abbrev pub Finished : System → Type 0
Finished s = (s.main ≡ []) × (s.task1 ≡ []) × (s.task2 ≡ [])

module _ (d : Demo) where
  abbrev pub Enabled : System → Type 0
  Enabled s = (u : System) × Step d s u

  Begun : System → Type 0
  Begun s = (s.created1 ≡ true) × (s.created2 ≡ true) × (tally d is_init s.main ≡ 0)
