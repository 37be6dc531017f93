-- ===== src/Multitask/Invariant/Main.antt =====
-- The moves of main in multitask.c.
use vsync.Prelude.{List, Option, [], arith, none, refl, set, some, subst, ℕ, ◌∷◌, ◌≡◌}
use vsync.Posix.Decode.{Trap}
use vsync.Multitask.System.{
  System, Demo, Kind, other, init, wait, post, create1, create2, join1, join2, effect, main_goes,
}
use vsync.Multitask.Invariant.Defs.{
  is_init, is_create1, is_create2, is_join1, is_join2, kind_of, tally, Inv, zero-not-positive,
  tally-goes, Ordered-goes, result-Inv,
}
use mathlib.Core.Option.{none-ne-some, some-injective}

module _ (d : Demo) where
  -- A call of main that changes neither the semaphore nor what is created.
  stay-Inv :
      (k : Kind) (s : System) (t : Trap) (rest : List Trap)
      → (is_init k ≡ 0) × (is_create1 k ≡ 0) × (is_create2 k ≡ 0)
      → kind_of d t ≡ k
      → s.main ≡ t ∷ rest
      → (tally d is_join1 rest ≡ 0 → s.task1 ≡ [])
      → (tally d is_join2 rest ≡ 0 → s.task2 ≡ [])
      → Inv d s
      → Inv d (main_goes s t rest)
  stay-Inv k s t rest (i, c1, c2) e h j1 j2 v =
      let n = λ (w : Kind → ℕ). tally-goes d w k t rest s.main e h in
      record {
        ordered = (Ordered-goes d k t rest s.main e h v.ordered).1;
        calls1 = v.calls1;
        calls2 = v.calls2;
        begun1 = λ p. v.begun1 (omega (arith, n is_create1));
        begun2 = λ p. v.begun2 (omega (arith, n is_create2));
        joined1 = j1;
        joined2 = j2;
        balance = λ p. v.balance (omega (arith, n is_init));
        fresh = λ p. v.fresh (omega (arith, n is_init));
      }

  -- A call of pthread_join that returns has found the task's calls at their end.
  joined :
      (calls : List Trap) (u s : System)
      → elim calls as (λ _. Option System) [ [] ↦ some s | c ∷ cs ↦ none ] ≡ some u
      → (calls ≡ []) × (s ≡ u)
  joined [] u s g = (refl, some-injective s u g)
  joined (c ∷ cs) u s g = absurd (none-ne-some u g)

  pub main_goes-Inv :
      (k : Kind) (s u : System) (t : Trap) (rest : List Trap)
      → kind_of d t ≡ k
      → s.main ≡ t ∷ rest
      → effect k t (main_goes s t rest) ≡ some u
      → Inv d s
      → Inv d u
  unfolding effect
  main_goes-Inv other s u t rest e h g v =
      let n = λ (w : Kind → ℕ). tally-goes d w other t rest s.main e h in
      let j1 = λ (p : tally d is_join1 rest ≡ 0). v.joined1 (omega (arith, n is_join1)) in
      let j2 = λ (p : tally d is_join2 rest ≡ 0). v.joined2 (omega (arith, n is_join2)) in
      result-Inv d g (stay-Inv other s t rest (refl, refl, refl) e h j1 j2 v)
  main_goes-Inv init s u t rest e h g v =
      let (zero_value, o) = Ordered-goes d init t rest s.main e h v.ordered in
      let n = λ (w : Kind → ℕ). tally-goes d w init t rest s.main e h in
      let (no1, no2, even) = v.fresh (omega (arith, n is_init)) in
      result-Inv d g (record {
        ordered = o;
        calls1 = v.calls1;
        calls2 = v.calls2;
        begun1 = λ p. v.begun1 (omega (arith, n is_create1));
        begun2 = λ p. v.begun2 (omega (arith, n is_create2));
        joined1 = λ p. v.joined1 (omega (arith, n is_join1));
        joined2 = λ p. v.joined2 (omega (arith, n is_join2));
        balance = λ p. omega arith;
        fresh = λ p. (no1, no2, even);
      })
  main_goes-Inv wait s u t rest e h g v = absurd (Ordered-goes d wait t rest s.main e h v.ordered).0
  main_goes-Inv post s u t rest e h g v = absurd (Ordered-goes d post t rest s.main e h v.ordered).0
  main_goes-Inv create1 s u t rest e h g v =
      let (set, o) = Ordered-goes d create1 t rest s.main e h v.ordered in
      let n = λ (w : Kind → ℕ). tally-goes d w create1 t rest s.main e h in
      result-Inv d g (record {
        ordered = o;
        calls1 = v.calls1;
        calls2 = v.calls2;
        begun1 = λ p. refl;
        begun2 = λ p. v.begun2 (omega (arith, n is_create2));
        joined1 = λ p. v.joined1 (omega (arith, n is_join1));
        joined2 = λ p. v.joined2 (omega (arith, n is_join2));
        balance = λ p. v.balance (omega (arith, n is_init));
        fresh = λ p. absurd (zero-not-positive set p);
      })
  main_goes-Inv create2 s u t rest e h g v =
      let (set, o) = Ordered-goes d create2 t rest s.main e h v.ordered in
      let n = λ (w : Kind → ℕ). tally-goes d w create2 t rest s.main e h in
      result-Inv d g (record {
        ordered = o;
        calls1 = v.calls1;
        calls2 = v.calls2;
        begun1 = λ p. v.begun1 (omega (arith, n is_create1));
        begun2 = λ p. refl;
        joined1 = λ p. v.joined1 (omega (arith, n is_join1));
        joined2 = λ p. v.joined2 (omega (arith, n is_join2));
        balance = λ p. v.balance (omega (arith, n is_init));
        fresh = λ p. absurd (zero-not-positive set p);
      })
  main_goes-Inv join1 s u t rest e h g v =
      let n = tally-goes d is_join2 join1 t rest s.main e h in
      let (over, same) = joined s.task1 u (main_goes s t rest) g in
      let j2 = λ (p : tally d is_join2 rest ≡ 0). v.joined2 (omega arith) in
      subst (Inv d) same (stay-Inv join1 s t rest (refl, refl, refl) e h (λ p. over) j2 v)
  main_goes-Inv join2 s u t rest e h g v =
      let n = tally-goes d is_join1 join2 t rest s.main e h in
      let (over, same) = joined s.task2 u (main_goes s t rest) g in
      let j1 = λ (p : tally d is_join1 rest ≡ 0). v.joined1 (omega arith) in
      subst (Inv d) same (stay-Inv join2 s t rest (refl, refl, refl) e h j1 (λ p. over) v)
