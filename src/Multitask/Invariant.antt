-- ===== src/Multitask/Invariant.antt =====
-- Every move of a thread of multitask.c keeps the invariant, which holds at the start.
pub mod Defs
pub mod Main
pub mod Tasks
pub mod Kinds
pub mod Start
use vsync.Prelude.{arith, refl, sym, ℕ, ◌∙◌, ◌≡◌}
use vsync.Posix.Decode.{Trap}
use Prim.Native.String.{String}
use vsync.Multitask.Scripts.{
  open_trap, cleanup, joins, creates, task1_after, yield_trap, sleep_trap, init_trap, wait_trap,
  post_trap, create1_trap, create2_trap, join_trap, write_trap, says, task1_script, task2_before,
  task2_script, wait_script, demo_script, main_script,
}
use vsync.Multitask.System.{
  System, Demo, Kind, other, init, wait, post, create1, create2, join1, join2, effect, main_goes,
  task1_goes, task2_goes, kind, Step, by_main, by_task1, by_task2, start, Reach, here, next,
}
use vsync.Multitask.Invariant.Defs.{
  is_init, is_wait, is_post, is_create1, is_create2, is_join1, is_join2, In1, In2, kind_of, tally,
  Fits, Ordered, Inv, zero-or-positive, zero-not-positive, tally-goes, Ordered-goes, head-All,
  result-Inv,
}
use vsync.Multitask.Invariant.Main.{main_goes-Inv}
use vsync.Multitask.Invariant.Tasks.{task1_goes-Inv, task2_goes-Inv}
use vsync.Multitask.Invariant.Kinds.{Apart}
use vsync.Multitask.Invariant.Start.{
  main_script-Tally, main_script-Ordered, task1_script-All, task2_script-All, task1_script-Tally,
  task2_script-Tally,
}

module _ (d : Demo) where
  pub Step-Inv : {s u : System} → Step d s u → Inv d s → Inv d u
  Step-Inv {s} {u} (by_main {t} {rest} h g) v = main_goes-Inv d (kind_of d t) s u t rest refl h g v
  Step-Inv {s} {u} (by_task1 {t} {rest} c h g) v =
      task1_goes-Inv d (kind_of d t) s u t rest refl c h g v
  Step-Inv {s} {u} (by_task2 {t} {rest} c h g) v =
      task2_goes-Inv d (kind_of d t) s u t rest refl c h g v

  pub start-Inv : (garbage : ℕ) → Apart d → Inv d (start d garbage)
  start-Inv garbage a =
      let m = λ (w : Kind → ℕ) (e : w other ≡ 0). main_script-Tally d w a e in
      record {
        ordered = main_script-Ordered d a;
        calls1 = task1_script-All d;
        calls2 = task2_script-All d;
        begun1 = λ p. absurd (zero-not-positive p (omega (arith, m is_create1 refl)));
        begun2 = λ p. absurd (zero-not-positive p (omega (arith, m is_create2 refl)));
        joined1 = λ p. absurd (zero-not-positive p (omega (arith, m is_join1 refl)));
        joined2 = λ p. absurd (zero-not-positive p (omega (arith, m is_join2 refl)));
        balance = λ p. absurd (zero-not-positive p (omega (arith, m is_init refl)));
        fresh = λ p. (
          refl,
          refl,
          task2_script-Tally d is_post refl ∙ sym (task1_script-Tally d is_wait refl),
        );
      }

  pub Reach-Inv : {garbage : ℕ} {s : System} → Apart d → Reach d garbage s → Inv d s
  Reach-Inv {garbage} a here = start-Inv garbage a
  Reach-Inv a (next r m) = Step-Inv m (Reach-Inv a r)
