-- ===== src/Multitask/Invariant/Tasks.antt =====
-- The moves of the tasks in multitask.c.
use vsync.Prelude.{
  All, List, Option, [], ap, arith, inl, inr, none, refl, set, some, subst, suc, sym, true, zero, ℕ,
  ◌+◌, ◌∙◌, ◌∷◌, ◌≡◌,
}
use vsync.Posix.Decode.{Trap}
use vsync.Multitask.System.{
  System, Demo, Kind, other, init, wait, post, create1, create2, join1, join2, effect, task1_goes,
  task2_goes,
}
use vsync.Multitask.Invariant.Defs.{
  is_init, is_wait, is_post, is_create1, is_create2, is_join1, is_join2, In1, In2, kind_of, tally,
  Ordered, Inv, zero-or-positive, zero-not-positive, tally-goes, head-All, result-Inv,
}
use mathlib.Core.List.{cons≢nil}
use mathlib.Core.Bool.{true≢false}
use mathlib.Core.Option.{none-ne-some, some-injective}

nonempty : {t : Trap} {rest ts : List Trap} → ts ≡ t ∷ rest → ts ≡ [] → ⊥
nonempty h e = cons≢nil (sym h ∙ e)

module _ (d : Demo) where
  -- Once a task runs, the semaphore has been set.
  pub set-by-create1 : (s : System) → s.created1 ≡ true → Inv d s → tally d is_init s.main ≡ 0
  set-by-create1 s e v = elim (zero-or-positive (tally d is_init s.main)) [
    | inl z ↦ z
    | inr p ↦ absurd (true≢false (sym e ∙ (v.fresh p).0))
  ]

  pub set-by-create2 : (s : System) → s.created2 ≡ true → Inv d s → tally d is_init s.main ≡ 0
  set-by-create2 s e v = elim (zero-or-positive (tally d is_init s.main)) [
    | inl z ↦ z
    | inr p ↦ absurd (true≢false (sym e ∙ (v.fresh p).1))
  ]

  -- A task has made a call, and the semaphore has the value that fits.
  task-Inv :
      (s u : System)
      → (u.main ≡ s.main) × (u.created1 ≡ s.created1) × (u.created2 ≡ s.created2)
      → All (λ x. In1 (kind_of d x)) u.task1
      → All (λ x. In2 (kind_of d x)) u.task2
      → (tally d is_join1 s.main ≡ 0 → u.task1 ≡ [])
      → (tally d is_join2 s.main ≡ 0 → u.task2 ≡ [])
      → tally d is_init s.main ≡ 0
      → u.count + tally d is_post u.task2 ≡ tally d is_wait u.task1
      → Inv d s
      → Inv d u
  task-Inv s u (m, c1, c2) a1 a2 j1 j2 set even v =
      let same = λ (w : Kind → ℕ). ap (tally d w) m in
      record {
        ordered = subst (Ordered d) (sym m) v.ordered;
        calls1 = a1;
        calls2 = a2;
        begun1 = λ p. c1 ∙ v.begun1 (omega (arith, same is_create1));
        begun2 = λ p. c2 ∙ v.begun2 (omega (arith, same is_create2));
        joined1 = λ p. j1 (omega (arith, same is_join1));
        joined2 = λ p. j2 (omega (arith, same is_join2));
        balance = λ p. even;
        fresh = λ p. absurd (zero-not-positive (same is_init ∙ set) p);
      }

  taken :
      (c : ℕ) (f : ℕ → System) (u : System)
      → elim c as (λ _. Option System) [ zero ↦ none | suc n ↦ some (f n) ] ≡ some u
      → (n : ℕ) × (c ≡ suc n) × (f n ≡ u)
  taken zero f u g = absurd (none-ne-some u g)
  taken (suc n) f u g = (n, refl, some-injective (f n) u g)

  -- A call of task 1 takes at most one from the semaphore.
  pub task1_goes-Inv :
      (k : Kind) (s u : System) (t : Trap) (rest : List Trap)
      → kind_of d t ≡ k
      → s.created1 ≡ true
      → s.task1 ≡ t ∷ rest
      → effect k t (task1_goes s t rest) ≡ some u
      → Inv d s
      → Inv d u
  unfolding effect
  task1_goes-Inv other s u t rest e c h g v =
      let set = set-by-create1 s c v in
      let running = λ (p : tally d is_join1 s.main ≡ 0). absurd (nonempty h (v.joined1 p)) in
      let n = tally-goes d is_wait other t rest s.task1 e h in
      let a = (head-All d In1 other t rest s.task1 e h v.calls1).1 in
      let b = v.balance set in
      result-Inv d g (
        task-Inv s (task1_goes s t rest) (refl, refl, refl) a v.calls2 running v.joined2 set
          (omega arith) v)
  task1_goes-Inv wait s u t rest e c h g v =
      let set = set-by-create1 s c v in
      let running = λ (p : tally d is_join1 s.main ≡ 0). absurd (nonempty h (v.joined1 p)) in
      let n = tally-goes d is_wait wait t rest s.task1 e h in
      let a = (head-All d In1 wait t rest s.task1 e h v.calls1).1 in
      let b = v.balance set in
      let after = λ (left : ℕ). record (task1_goes s t rest) { count = left } in
      let (left, q, r) = taken s.count after u g in
      subst (Inv d) r (
        task-Inv s (after left) (refl, refl, refl) a v.calls2 running v.joined2 set (omega arith) v)
  task1_goes-Inv init s u t rest e c h g v =
      absurd (head-All d In1 init t rest s.task1 e h v.calls1).0
  task1_goes-Inv post s u t rest e c h g v =
      absurd (head-All d In1 post t rest s.task1 e h v.calls1).0
  task1_goes-Inv create1 s u t rest e c h g v =
      absurd (head-All d In1 create1 t rest s.task1 e h v.calls1).0
  task1_goes-Inv create2 s u t rest e c h g v =
      absurd (head-All d In1 create2 t rest s.task1 e h v.calls1).0
  task1_goes-Inv join1 s u t rest e c h g v =
      absurd (head-All d In1 join1 t rest s.task1 e h v.calls1).0
  task1_goes-Inv join2 s u t rest e c h g v =
      absurd (head-All d In1 join2 t rest s.task1 e h v.calls1).0

  -- A call of task 2 adds at most one to the semaphore.
  pub task2_goes-Inv :
      (k : Kind) (s u : System) (t : Trap) (rest : List Trap)
      → kind_of d t ≡ k
      → s.created2 ≡ true
      → s.task2 ≡ t ∷ rest
      → effect k t (task2_goes s t rest) ≡ some u
      → Inv d s
      → Inv d u
  unfolding effect
  task2_goes-Inv other s u t rest e c h g v =
      let set = set-by-create2 s c v in
      let running = λ (p : tally d is_join2 s.main ≡ 0). absurd (nonempty h (v.joined2 p)) in
      let n = tally-goes d is_post other t rest s.task2 e h in
      let a = (head-All d In2 other t rest s.task2 e h v.calls2).1 in
      let b = v.balance set in
      result-Inv d g (
        task-Inv s (task2_goes s t rest) (refl, refl, refl) v.calls1 a v.joined1 running set
          (omega arith) v)
  task2_goes-Inv post s u t rest e c h g v =
      let set = set-by-create2 s c v in
      let running = λ (p : tally d is_join2 s.main ≡ 0). absurd (nonempty h (v.joined2 p)) in
      let n = tally-goes d is_post post t rest s.task2 e h in
      let a = (head-All d In2 post t rest s.task2 e h v.calls2).1 in
      let b = v.balance set in
      let after = record (task2_goes s t rest) { count = s.count + 1 } in
      result-Inv d g
        (task-Inv s after (refl, refl, refl) v.calls1 a v.joined1 running set (omega arith) v)
  task2_goes-Inv wait s u t rest e c h g v =
      absurd (head-All d In2 wait t rest s.task2 e h v.calls2).0
  task2_goes-Inv init s u t rest e c h g v =
      absurd (head-All d In2 init t rest s.task2 e h v.calls2).0
  task2_goes-Inv create1 s u t rest e c h g v =
      absurd (head-All d In2 create1 t rest s.task2 e h v.calls2).0
  task2_goes-Inv create2 s u t rest e c h g v =
      absurd (head-All d In2 create2 t rest s.task2 e h v.calls2).0
  task2_goes-Inv join1 s u t rest e c h g v =
      absurd (head-All d In2 join1 t rest s.task2 e h v.calls2).0
  task2_goes-Inv join2 s u t rest e c h g v =
      absurd (head-All d In2 join2 t rest s.task2 e h v.calls2).0
