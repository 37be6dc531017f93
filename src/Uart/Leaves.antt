-- ===== src/Uart/Leaves.antt =====
-- What the operations of the console leave alone, whether or not they return.
use vsync.Prelude.{
  Bool, Option, Option-cases, [], ap, arith, false, if◌then◌else◌, inl, inr, none, refl, some,
  subst, suc, sym, true, zero, ℕ, ◌∙◌, ◌∷◌, ◌≡◌,
}
use vsync.Machine.{M, pure, fault, ◌>>=◌, ◌>>◌}
use vsync.Commands.{test_bit}
use vsync.Uart.{Hardware, reg32, shell_getchar, shell_getchar_blocking, wait_tx, shell_putchar}
use vsync.Uart.Polling.{write_one, shell_putchar_lem}

-- Code that leaves a property of the state as it is, if it returns.
pub record Leaves {S A : Type 0} (P : S → Type 0) (m : M S A) : Type 0 where
  pub at : (s t : S) (a : A) → m s ≡ some (a, t) → P s → P t

module _ {S : Type 0} {P : S → Type 0} where
  Leaves-pure : {A : Type 0} (a : A) → Leaves P (pure a)
  Leaves-pure a = record { at = λ s t b e h. subst P (ground (arith, e)) h }

  Leaves-bind :
      {A B : Type 0} (m : M S A) (f : A → M S B)
      → Leaves P m
      → ((a : A) → Leaves P (f a))
      → Leaves P (m >>= f)
  Leaves-bind m f p q = record {
    at = λ s t b e h. elim (Option-cases (m s)) [
      | inl stuck ↦
          let fails : (m >>= f) s ≡ none = rw (stuck, ◌>>=◌) in absurd (ground (arith, fails, e))
      | inr ((a, u), run) ↦
          let goes_on : (m >>= f) s ≡ f a u = rw (run, ◌>>=◌) in
          (q a).at u t b (sym goes_on ∙ e) (p.at s u a run h)
    ];
  }

  Leaves-then :
      {B : Type 0} (m : M S (Unit {0})) (k : M S B) → Leaves P m → Leaves P k → Leaves P (m >> k)
  Leaves-then m k p q = record {
    at = λ s t b e h. elim (Option-cases (m s)) [
      | inl stuck ↦
          let fails : (m >> k) s ≡ none = rw (stuck, ◌>>◌) in absurd (ground (arith, fails, e))
      | inr ((a, u), run) ↦
          let goes_on : (m >> k) s ≡ k u = rw (run, ◌>>◌) in
          q.at u t b (sym goes_on ∙ e) (p.at s u a run h)
    ];
  }

  Leaves-if :
      {A : Type 0} (b : Bool) (m k : M S A)
      → Leaves P m
      → Leaves P k
      → Leaves P (if b then m else k)
  Leaves-if true m k p q = p
  Leaves-if false m k p q = q

  -- Code that always returns.
  pub Leaves-some :
      {A : Type 0} (f : S → A × S) → ((s : S) → P s → P (f s).1) → Leaves P (λ s. some (f s))
  Leaves-some f h = record {
    at = λ s t a e p.
        let same : f s ≡ (a, t) =
          ap (λ (o : Option (_ × S)). elim o [ none ↦ f s | some x ↦ x ]) e in
        subst (λ x. P x.1) same (h s p);
  }

  Leaves-fault : {A : Type 0} → Leaves {A = A} P fault
  Leaves-fault = record { at = λ s t a e h. absurd (ground (arith, e)) }

-- The polling loops leave alone what the hardware's reads do.
module _ {S : Type 0} (hw : Hardware S) (P : S → Type 0)
    (reads : (a : ℕ) (s : S) → P s → P (hw.read a s).1) where
  pub reg32-Leaves : (a : ℕ) → Leaves P (reg32 hw a)
  unfolding reg32
  reg32-Leaves a = Leaves-some (hw.read a) (reads a)

  ruleset leaves_rules = (Leaves-pure, Leaves-bind, Leaves-if, Leaves-fault, reg32-Leaves)

  shell_getchar-Leaves : Leaves P (shell_getchar hw)
  unfolding shell_getchar
  shell_getchar-Leaves = search leaves_rules

  Leaves-answer :
      (polls : ℕ) (c : Option ℕ)
      → Leaves P (shell_getchar_blocking hw polls)
      → Leaves P (elim c as (λ x. M S ℕ) [
        | none ↦ shell_getchar_blocking hw polls
        | some char ↦ pure char
      ])
  Leaves-answer polls none h = h
  Leaves-answer polls (some char) h = Leaves-pure char

  pub shell_getchar_blocking-Leaves : (polls : ℕ) → Leaves P (shell_getchar_blocking hw polls)
  unfolding shell_getchar_blocking
  shell_getchar_blocking-Leaves zero = Leaves-fault
  shell_getchar_blocking-Leaves (suc polls) =
      Leaves-bind (shell_getchar hw) _ shell_getchar-Leaves
        λ c. Leaves-answer polls c (shell_getchar_blocking-Leaves polls)

  pub wait_tx-Leaves : (polls : ℕ) → Leaves P (wait_tx hw polls)
  unfolding wait_tx
  wait_tx-Leaves zero = Leaves-fault
  wait_tx-Leaves (suc polls) =
      Leaves-bind (reg32 hw _) _ (reg32-Leaves _)
        λ status. Leaves-if (test_bit status 0) _ _ (wait_tx-Leaves polls) (Leaves-pure tt)

module _ {S : Type 0} (hw : Hardware S) where
  -- Where shell_putchar returns, its last act is the SYS_WRITE call with the byte, made when the loop
  -- has ended.
  pub shell_putchar-ends :
      (polls fd c : ℕ) (s t : S) (u : Unit {0})
      → shell_putchar hw polls fd c s ≡ some (u, t)
      → (ready : S) × (wait_tx hw polls s ≡ some (tt, ready))
        × ((hw.kernel.ecall 0x53 (fd ∷ c ∷ 1 ∷ []) ready).1 ≡ t)
  shell_putchar-ends polls fd c s t u e = elim (Option-cases (wait_tx hw polls s)) [
    | inl stuck ↦
        let fails : shell_putchar hw polls fd c s ≡ none =
          rw (shell_putchar_lem hw polls fd c s, stuck) refl in
        absurd (ground (arith, fails, e))
    | inr ((v, ready), run) ↦
        let sent = (hw.kernel.ecall 0x53 (fd ∷ c ∷ 1 ∷ []) ready).1 in
        let runs : shell_putchar hw polls fd c s ≡ some (tt, sent) =
          rw (shell_putchar_lem hw polls fd c s, run, write_one hw fd c ready) refl in
        let same =
          ap (λ (o : Option (Unit {0} × S)). elim o [ none ↦ s | some x ↦ x.1 ]) (sym runs ∙ e) in
        (ready, run, same)
  ]

  pub shell_putchar-Leaves :
      (P : S → Type 0)
      → ((a : ℕ) (s : S) → P s → P (hw.read a s).1)
      → ((fd c : ℕ) (s : S) → P s → P (hw.kernel.ecall 0x53 (fd ∷ c ∷ 1 ∷ []) s).1)
      → (polls fd c : ℕ) → Leaves P (shell_putchar hw polls fd c)
  shell_putchar-Leaves P reads sends polls fd c = record {
    at = λ s t u e h.
        let (ready, run, same) = shell_putchar-ends polls fd c s t u e in
        subst P same (sends fd c ready ((wait_tx-Leaves hw P reads polls).at s ready tt run h));
  }

  -- What the write call adds to, shell_putchar adds to once.
  pub shell_putchar-adds :
      {A : Type 0} (sent : S → A) (add : A → A)
      → ((a : ℕ) (s : S) → sent (hw.read a s).1 ≡ sent s)
      → (polls fd c : ℕ)
      → ((s : S) → sent (hw.kernel.ecall 0x53 (fd ∷ c ∷ 1 ∷ []) s).1 ≡ add (sent s))
      → (s t : S) (u : Unit {0}) → shell_putchar hw polls fd c s ≡ some (u, t)
      → sent t ≡ add (sent s)
  shell_putchar-adds sent add reads polls fd c adds s t u e =
      let (ready, run, same) = shell_putchar-ends polls fd c s t u e in
      let kept : sent ready ≡ sent s =
        (wait_tx-Leaves hw (λ x. sent x ≡ sent s) (λ a x h. reads a x ∙ h) polls).at s ready tt run
          refl in
      ap sent (sym same) ∙ (adds ready ∙ ap add kept)
