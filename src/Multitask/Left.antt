-- ===== src/Multitask/Left.antt =====
-- The number of calls of multitask.c that are to come.
use vsync.Prelude.{ap, arith, false, inl, inr, length, refl, suc, sym, true, ℕ, ◌+◌, ◌∙◌, ◌≡◌}
use vsync.Posix.Decode.{Trap}
use vsync.Multitask.System.{Thread, main_thread, thread1, thread2, System}
use mathlib.Core.Bool.{true≢false}
use vsync.Multitask.Order.{calls, same, Moved}

-- How many calls are to come.
unfoldable pub left : System → ℕ
left s = length s.main + (length s.task1 + length s.task2)

same_self : (x : Thread) → same x x ≡ true
same_self main_thread = refl
same_self thread1 = refl
same_self thread2 = refl

still-length :
    (x who : Thread) (t : Trap) (s u : System)
    → Moved s u who t
    → same x who ≡ false
    → length (calls x u) ≡ length (calls x s)
still-length x who t s u m f = elim (m.others x) [
  | inl e ↦ absurd (true≢false (sym (same_self x) ∙ (ap (same x) e ∙ f)))
  | inr (_, k) ↦ ap length k
]

pub Moved-left : (s u : System) (who : Thread) (t : Trap) → Moved s u who t → left s ≡ suc (left u)
unfolding left
Moved-left s u main_thread t m =
    let l1 = still-length thread1 main_thread t s u m refl in
    let l2 = still-length thread2 main_thread t s u m refl in omega (arith, ap length m.own)
Moved-left s u thread1 t m =
    let l1 = still-length main_thread thread1 t s u m refl in
    let l2 = still-length thread2 thread1 t s u m refl in omega (arith, ap length m.own)
Moved-left s u thread2 t m =
    let l1 = still-length main_thread thread2 t s u m refl in
    let l2 = still-length thread1 thread2 t s u m refl in omega (arith, ap length m.own)
