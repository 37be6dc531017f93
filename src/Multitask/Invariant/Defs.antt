-- ===== src/Multitask/Invariant/Defs.antt =====
-- What holds in every state that the threads of multitask.c can reach.
use vsync.Prelude.{
  All, List, [], ap, arith, false, get_or, some, subst, true, ℕ, ◌+◌, ◌<◌, ◌∙◌, ◌∷◌, ◌≡◌, ◌⊎◌,
}
use vsync.Posix.Decode.{Trap}
use vsync.Multitask.System.{
  System, Demo, Kind, other, init, wait, post, create1, create2, join1, join2, kind,
}
use mathlib.Core.Option.{some-injective}

abbrev pub is_init : Kind → ℕ
is_init init = 1
is_init _ = 0

abbrev pub is_wait : Kind → ℕ
is_wait wait = 1
is_wait _ = 0

abbrev pub is_post : Kind → ℕ
is_post post = 1
is_post _ = 0

abbrev pub is_create1 : Kind → ℕ
is_create1 create1 = 1
is_create1 _ = 0

abbrev pub is_create2 : Kind → ℕ
is_create2 create2 = 1
is_create2 _ = 0

abbrev pub is_join1 : Kind → ℕ
is_join1 join1 = 1
is_join1 _ = 0

abbrev pub is_join2 : Kind → ℕ
is_join2 join2 = 1
is_join2 _ = 0

-- The kinds that occur in the functions of the tasks.
abbrev pub In1 : Kind → Type 0
In1 other = Unit
In1 wait = Unit
In1 _ = ⊥

abbrev pub In2 : Kind → Type 0
In2 other = Unit
In2 post = Unit
In2 _ = ⊥

pub zero-or-positive : (n : ℕ) → (n ≡ 0) ⊎ (0 < n)
zero-or-positive n = omega arith

pub zero-not-positive : {n : ℕ} → n ≡ 0 → 0 < n → ⊥
zero-not-positive e p = omega arith

module _ (d : Demo) where
  abbrev pub kind_of : Trap → Kind
  kind_of = kind d

  -- How many of the calls are of a kind.
  abbrev pub tally : (Kind → ℕ) → List Trap → ℕ
  tally w [] = 0
  tally w (t ∷ ts) = w (kind_of t) + tally w ts

  -- What main may do where: the semaphore is set to 0, and before the tasks are created; both tasks
  -- are created before one is waited for.
  abbrev pub Fits : Kind → Trap → List Trap → Type 0
  Fits other t ts = Unit
  Fits init t ts = get_or t.args 2 0 ≡ 0
  Fits wait t ts = ⊥
  Fits post t ts = ⊥
  Fits create1 t ts = tally is_init ts ≡ 0
  Fits create2 t ts = tally is_init ts ≡ 0
  Fits join1 t ts = (tally is_create1 ts ≡ 0) × (tally is_create2 ts ≡ 0)
  Fits join2 t ts = (tally is_create1 ts ≡ 0) × (tally is_create2 ts ≡ 0)

  abbrev pub Ordered : List Trap → Type 0
  Ordered [] = Unit
  Ordered (t ∷ ts) = Fits (kind_of t) t ts × Ordered ts

  pub record Inv (s : System) : Type 0 where
    pub ordered : Ordered s.main
    pub calls1 : All (λ t. In1 (kind_of t)) s.task1
    pub calls2 : All (λ t. In2 (kind_of t)) s.task2
    pub begun1 : tally is_create1 s.main ≡ 0 → s.created1 ≡ true
    pub begun2 : tally is_create2 s.main ≡ 0 → s.created2 ≡ true
    pub joined1 : tally is_join1 s.main ≡ 0 → s.task1 ≡ []
    pub joined2 : tally is_join2 s.main ≡ 0 → s.task2 ≡ []
    pub balance : tally is_init s.main ≡ 0 → s.count + tally is_post s.task2 ≡ tally is_wait s.task1
    pub fresh :
        0 < tally is_init s.main
        → (s.created1 ≡ false)
          × (s.created2 ≡ false)
          × (tally is_post s.task2 ≡ tally is_wait s.task1)

  pub tally-goes :
      (w : Kind → ℕ) (k : Kind) (t : Trap) (rest ts : List Trap)
      → kind_of t ≡ k
      → ts ≡ t ∷ rest
      → tally w ts ≡ w k + tally w rest
  tally-goes w k t rest ts e h = ap (tally w) h ∙ ap (λ x. w x + tally w rest) e

  pub Ordered-goes :
      (k : Kind) (t : Trap) (rest ts : List Trap)
      → kind_of t ≡ k
      → ts ≡ t ∷ rest
      → Ordered ts
      → Fits k t rest × Ordered rest
  Ordered-goes k t rest ts e h o =
      let (f, r) = subst Ordered h o in (subst (λ x. Fits x t rest) e f, r)

  pub head-All :
      (P : Kind → Type 0) (k : Kind) (t : Trap) (rest ts : List Trap)
      → kind_of t ≡ k
      → ts ≡ t ∷ rest
      → All (λ x. P (kind_of x)) ts
      → P k × All (λ x. P (kind_of x)) rest
  head-All P k t rest ts e h a =
      let (p, ps) = subst (All (λ x. P (kind_of x))) h a in (subst P e p, ps)

  pub result-Inv : {s u : System} → some s ≡ some u → Inv s → Inv u
  result-Inv {s} {u} g v = subst Inv (some-injective s u g) v
