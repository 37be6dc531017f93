-- ===== src/Machine/Kept.antt =====
-- A machine whose states all have a property that its operations keep, made of one whose states need
-- not have it.
use vsync.Prelude.{
  List, Option, Option-cases, ap, arith, inl, inr, none, refl, some, subst, sym, ℕ, ◌∙◌, ◌≡◌, ◌⊎◌,
}
use vsync.Machine.{M, Io, IoLaws, Event, Does}

-- The operations keep the property.
pub record Keeping {P : Type 0} (Agrees : P → Type 0) (io : Io P) : Type 0 where
  pub keeps_getchar : (p q : P) (c : ℕ) → io.getchar_blocking p ≡ some (c, q) → Agrees p → Agrees q
  pub keeps_putchar :
      (c : ℕ) (p q : P) (u : Unit {0}) → io.putchar c p ≡ some (u, q) → Agrees p → Agrees q
  pub keeps_load : (a : ℕ) (p q : P) (v : ℕ) → io.load a p ≡ some (v, q) → Agrees p → Agrees q
  pub keeps_store :
      (a v : ℕ) (p q : P) (u : Unit {0}) → io.store a v p ≡ some (u, q) → Agrees p → Agrees q
  pub keeps_mask : (p q : P) (u : Unit {0}) → io.clear_mie p ≡ some (u, q) → Agrees p → Agrees q
  pub keeps_jump :
      (a : ℕ) (p q : P) (u : Unit {0}) → io.jump a p ≡ some (u, q) → Agrees p → Agrees q

module _ {P : Type 0} (Agrees : P → Type 0) where
  -- A state with the property.
  abbrev pub Kept : Type 0
  Kept = (p : P) × Agrees p

  module _ {A : Type 0} (m : M P A)
      (keeps : (p q : P) (a : A) → m p ≡ some (a, q) → Agrees p → Agrees q) where
    abbrev pub carried :
        (p : P) → Agrees p → (m p ≡ none) ⊎ ((r : A × P) × (m p ≡ some r)) → Option (A × Kept)
    carried p h (inl stuck) = none
    carried p h (inr (r, e)) = some (r.0, (r.1, keeps p r.1 r.0 e h))

    -- The operation on states with the property.
    abbrev pub carry : M Kept A
    carry (p, h) = carried p h (Option-cases (m p))

    carried-some :
        (p : P) (h : Agrees p) (o : (m p ≡ none) ⊎ ((r : A × P) × (m p ≡ some r))) (a : A) (q : P)
        → m p ≡ some (a, q)
        → (h' : Agrees q) × (carried p h o ≡ some (a, (q, h')))
    carried-some p h (inl stuck) a q e = absurd (ground (arith, stuck, e))
    carried-some p h (inr (r, e')) a q e =
        let same : r ≡ (a, q) =
          ap (λ (o : Option (A × P)). elim o [ none ↦ r | some x ↦ x ]) (sym e' ∙ e) in
        subst
          (λ (x : A × P). (h' : Agrees x.1) × (carried p h (inr (r, e')) ≡ some (x.0, (x.1, h'))))
          same (keeps p r.1 r.0 e' h, refl)

    pub carry-Does :
        (input : P → List ℕ) (log : P → List Event) (p : P) (h : Agrees p) (a : A) (es : List Event)
        (rest : List ℕ)
        → Does input log m p a es rest
        → Does (λ s. input s.0) (λ s. log s.0) carry (p, h) a es rest
    carry-Does input log p h a es rest (q, e, i, l) =
        let (h', run) = carried-some p h (Option-cases (m p)) a q e in ((q, h'), run, i, l)

  module _ (io : Io P) (keeping : Keeping Agrees io) where
    abbrev pub kept_io : Io Kept
    kept_io = record {
      getchar_blocking = carry io.getchar_blocking keeping.keeps_getchar;
      putchar = λ c. carry (io.putchar c) (keeping.keeps_putchar c);
      load = λ a. carry (io.load a) (keeping.keeps_load a);
      store = λ a v. carry (io.store a v) (keeping.keeps_store a v);
      clear_mie = carry io.clear_mie keeping.keeps_mask;
      jump = λ a. carry (io.jump a) (keeping.keeps_jump a);
    }

    -- The laws of it.
    abbrev pub kept_laws : IoLaws io → IoLaws kept_io
    kept_laws laws =
        let i = laws.input in
        let l = laws.log in
        record {
          input = λ s. i s.0;
          log = λ s. l s.0;
          getchar_law = λ s c rest e.
              carry-Does io.getchar_blocking keeping.keeps_getchar i l s.0 s.1 c _ rest
                (laws.getchar_law s.0 c rest e);
          putchar_law = λ s c.
              carry-Does (io.putchar c) (keeping.keeps_putchar c) i l s.0 s.1 tt _ _
                (laws.putchar_law s.0 c);
          load_law = λ s a.
              let (r, below, d) = laws.load_law s.0 a in
              (r, below, carry-Does (io.load a) (keeping.keeps_load a) i l s.0 s.1 r.0 _ r.1 d);
          store_law = λ s a v.
              let (rest, d) = laws.store_law s.0 a v in
              (rest, carry-Does (io.store a v) (keeping.keeps_store a v) i l s.0 s.1 tt _ rest d);
          is_memory = laws.is_memory;
          memory_law = λ s a v e.
              carry-Does (io.store a v) (keeping.keeps_store a v) i l s.0 s.1 tt _ _
                (laws.memory_law s.0 a v e);
          mask_law = λ s.
              carry-Does io.clear_mie keeping.keeps_mask i l s.0 s.1 tt _ _ (laws.mask_law s.0);
          jump_law = λ s a.
              carry-Does (io.jump a) (keeping.keeps_jump a) i l s.0 s.1 tt _ _
                (laws.jump_law s.0 a);
        }
