-- ===== src/Multitask/Order.antt =====
-- Each thread of multitask.c makes the calls of its script in their order, whatever the others do.
use vsync.Prelude.{
  Bool, List, Option, [], ap, append-nil, append_assoc, false, get_or, if◌then◌else◌, inl, inr,
  none, refl, some, subst, suc, sym, true, zero, ℕ, ◌++◌, ◌+◌, ◌∙◌, ◌∷◌, ◌≡◌, ◌⊎◌,
}
use mathlib.Core.Option.{none-ne-some, some-injective}
use vsync.Posix.Decode.{Trap}
use vsync.Multitask.Scripts.{main_script, task1_script, task2_script}
use vsync.Multitask.System.{
  Thread, main_thread, thread1, thread2, System, Demo, Kind, other, init, wait, post, create1,
  create2, join1, join2, effect, main_goes, task1_goes, task2_goes, kind, Step, by_main, by_task1,
  by_task2, Reach, here, next,
}

abbrev pub same : Thread → Thread → Bool
same main_thread main_thread = true
same thread1 thread1 = true
same thread2 thread2 = true
same _ _ = false

-- The calls that a thread has made.
unfoldable pub made : Thread → List (Thread × Trap) → List Trap
made x [] = []
made x ((y, t) ∷ log) = let rest = made x log in if same x y then t ∷ rest else rest

-- The calls that it has still to make.
abbrev pub calls : Thread → System → List Trap
calls main_thread s = s.main
calls thread1 s = s.task1
calls thread2 s = s.task2

made-append :
    (x : Thread) (log more : List (Thread × Trap))
    → made x (log ++ more) ≡ made x log ++ made x more
unfolding made
made-append x [] more = refl
made-append x ((y, t) ∷ log) more =
    let ih = made-append x log more in
    elim (same x y)
      as (λ b.
        (if b then t ∷ made x (log ++ more) else made x (log ++ more))
        ≡ (if b then t ∷ made x log else made x log) ++ made x more) [
          | true ↦ ap (λ l. t ∷ l) ih
          | false ↦ ih
        ]

made-own : (x : Thread) (t : Trap) → made x ((x, t) ∷ []) ≡ t ∷ []
unfolding made
made-own main_thread t = refl
made-own thread1 t = refl
made-own thread2 t = refl

made-other : (x who : Thread) (t : Trap) → same x who ≡ false → made x ((who, t) ∷ []) ≡ []
unfolding made
made-other x who t e = rw e refl

-- An effect is on the semaphore and on what is created only.
Kept : System → System → Type 0
Kept s u = (u.main ≡ s.main) × (u.task1 ≡ s.task1) × (u.task2 ≡ s.task2) × (u.log ≡ s.log)

Kept-same : (s v u : System) → Kept s v → some v ≡ some u → Kept s u
Kept-same s v u k g = subst (Kept s) (some-injective v u g) k

Kept-wait :
    (n : ℕ) (s u : System) (f : ℕ → System)
    → ((m : ℕ) → Kept s (f m))
    → elim n as (λ _. Option System) [ zero ↦ none | suc m ↦ some (f m) ] ≡ some u
    → Kept s u
Kept-wait zero s u f k g = absurd (none-ne-some u g)
Kept-wait (suc n) s u f k g = Kept-same s (f n) u (k n) g

Kept-join :
    (ts : List Trap) (s u : System)
    → elim ts as (λ _. Option System) [ [] ↦ some s | c ∷ cs ↦ none ] ≡ some u
    → Kept s u
unfolding Kept
Kept-join [] s u g = Kept-same s s u (refl, refl, refl, refl) g
Kept-join (t ∷ ts) s u g = absurd (none-ne-some u g)

effect-Kept : (k : Kind) (t : Trap) (s u : System) → effect k t s ≡ some u → Kept s u
unfolding effect Kept
effect-Kept other t s u g = Kept-same s s u (refl, refl, refl, refl) g
effect-Kept init t s u g =
    Kept-same s (record s { count = get_or t.args 2 0 }) u (refl, refl, refl, refl) g
effect-Kept wait t s u g =
    Kept-wait s.count s u (λ n. record s { count = n }) (λ n. (refl, refl, refl, refl)) g
effect-Kept post t s u g =
    Kept-same s (record s { count = s.count + 1 }) u (refl, refl, refl, refl) g
effect-Kept create1 t s u g =
    Kept-same s (record s { created1 = true }) u (refl, refl, refl, refl) g
effect-Kept create2 t s u g =
    Kept-same s (record s { created2 = true }) u (refl, refl, refl, refl) g
effect-Kept join1 t s u g = Kept-join s.task1 s u g
effect-Kept join2 t s u g = Kept-join s.task2 s u g

-- The threads beside one.
abbrev pub Still : Thread → System → System → Thread → Type 0
Still who s u x = (x ≡ who) ⊎ ((same x who ≡ false) × (calls x u ≡ calls x s))

beside_main :
    (s u : System) → u.task1 ≡ s.task1 → u.task2 ≡ s.task2 → (x : Thread) → Still main_thread s u x
beside_main s u k1 k2 main_thread = inl refl
beside_main s u k1 k2 thread1 = inr (refl, k1)
beside_main s u k1 k2 thread2 = inr (refl, k2)

beside_task1 :
    (s u : System) → u.main ≡ s.main → u.task2 ≡ s.task2 → (x : Thread) → Still thread1 s u x
beside_task1 s u m k2 main_thread = inr (refl, m)
beside_task1 s u m k2 thread1 = inl refl
beside_task1 s u m k2 thread2 = inr (refl, k2)

beside_task2 :
    (s u : System) → u.main ≡ s.main → u.task1 ≡ s.task1 → (x : Thread) → Still thread2 s u x
beside_task2 s u m k1 main_thread = inr (refl, m)
beside_task2 s u m k1 thread1 = inr (refl, k1)
beside_task2 s u m k1 thread2 = inl refl

-- Thread who has made the call t, and the others none.
pub record Moved (s u : System) (who : Thread) (t : Trap) : Type 0 where
  pub own : calls who s ≡ t ∷ calls who u
  pub others : (x : Thread) → Still who s u x
  pub logged : u.log ≡ s.log ++ ((who, t) ∷ [])

module _ (d : Demo) where
  pub Step-Moved : {s u : System} → Step d s u → (who : Thread) × (t : Trap) × Moved s u who t
  unfolding Kept
  Step-Moved {s} {u} (by_main {t} {rest} h g) =
      let (m, k1, k2, l) = effect-Kept (kind d t) t (main_goes s t rest) u g in
      (
        main_thread,
        t,
        record { own = h ∙ ap (λ ts. t ∷ ts) (sym m); others = beside_main s u k1 k2; logged = l },
      )
  Step-Moved {s} {u} (by_task1 {t} {rest} c h g) =
      let (m, k1, k2, l) = effect-Kept (kind d t) t (task1_goes s t rest) u g in
      (
        thread1,
        t,
        record { own = h ∙ ap (λ ts. t ∷ ts) (sym k1); others = beside_task1 s u m k2; logged = l },
      )
  Step-Moved {s} {u} (by_task2 {t} {rest} c h g) =
      let (m, k1, k2, l) = effect-Kept (kind d t) t (task2_goes s t rest) u g in
      (
        thread2,
        t,
        record { own = h ∙ ap (λ ts. t ∷ ts) (sym k2); others = beside_task2 s u m k1; logged = l },
      )

  abbrev pub script : Thread → List Trap
  script main_thread = main_script d.at d.fd d.id1 d.id2
  script thread1 = task1_script d.at d.fd
  script thread2 = task2_script d.at d.fd

  own-order :
      (who : Thread) (t : Trap) (s u : System)
      → Moved s u who t
      → made who u.log ++ calls who u ≡ made who s.log ++ calls who s
  own-order who t s u m =
      ap (λ l. made who l ++ calls who u) m.logged
      ∙ (ap (λ l. l ++ calls who u) (made-append who s.log ((who, t) ∷ []))
          ∙ (ap (λ l. (made who s.log ++ l) ++ calls who u) (made-own who t)
              ∙ (append_assoc (made who s.log) (t ∷ []) (calls who u)
                  ∙ ap (λ l. made who s.log ++ l) (sym m.own))))

  other-order :
      (x who : Thread) (t : Trap) (s u : System)
      → Moved s u who t
      → same x who ≡ false
      → calls x u ≡ calls x s
      → made x u.log ++ calls x u ≡ made x s.log ++ calls x s
  other-order x who t s u m no_one e =
      ap (λ l. made x l ++ calls x u) m.logged
      ∙ (ap (λ l. l ++ calls x u) (made-append x s.log ((who, t) ∷ []))
          ∙ (ap (λ l. (made x s.log ++ l) ++ calls x u) (made-other x who t no_one)
              ∙ (ap (λ l. l ++ calls x u) (append-nil (made x s.log))
                  ∙ ap (λ l. made x s.log ++ l) e)))

  pub script-order :
      {garbage : ℕ} {s : System} (x : Thread)
      → Reach d garbage s
      → made x s.log ++ calls x s ≡ script x
  unfolding made
  script-order main_thread here = refl
  script-order thread1 here = refl
  script-order thread2 here = refl
  script-order x (next {s} {u} r m) =
      let (who, t, moved) = Step-Moved m in
      elim (moved.others x) [
        | inl e ↦
            subst (λ y. made y u.log ++ calls y u ≡ made y s.log ++ calls y s) (sym e)
              (own-order who t s u moved)
            ∙ script-order x r
        | inr (no_one, e) ↦ other-order x who t s u moved no_one e ∙ script-order x r
      ]
