-- ===== src/Machine/Effects.antt =====
-- Rules for runs: one after the other, and code that only prints.
use vsync.Prelude.{
  List, [], append-nil, append_assoc, map, map-append, refl, sym, ℕ, ◌++◌, ◌∙◌, ◌≡◌,
}
use vsync.Machine.{M, pure, ◌>>=◌, ◌>>◌, Event, put, Does}

module _ {S : Type 0} (input : S → List ℕ) (log : S → List Event) where
  pub Does-pure : {A : Type 0} (s : S) (a : A) → Does input log (pure a) s a [] (input s)
  Does-pure s a = (s, refl, refl, sym (append-nil (log s)))

  pub Does-bind :
      {A B : Type 0} (m : M S A) (f : A → M S B) (s : S) (a : A) (b : B) (es fs : List Event)
      (rest rest' : List ℕ)
      → Does input log m s a es rest
      → ((s' : S) → input s' ≡ rest → Does input log (f a) s' b fs rest')
      → Does input log (m >>= f) s b (es ++ fs) rest'
  Does-bind m f s a b es fs rest rest' (s1, e1, i1, l1) k =
      let (s2, e2, i2, l2) = k s1 i1 in (s2, rw (e1, ◌>>=◌) e2, i2, l2 ∙ rw (l1, append_assoc))

  pub Does-then :
      {B : Type 0} (m : M S (Unit {0})) (k : M S B) (s : S) (b : B) (es fs : List Event)
      (rest rest' : List ℕ)
      → Does input log m s tt es rest
      → ((s' : S) → input s' ≡ rest → Does input log k s' b fs rest')
      → Does input log (m >> k) s b (es ++ fs) rest'
  Does-then m k s b es fs rest rest' (s1, e1, i1, l1) h =
      let (s2, e2, i2, l2) = h s1 i1 in (s2, rw (e1, ◌>>◌) e2, i2, l2 ∙ rw (l1, append_assoc))

  -- Code that only prints the text `out`.
  abbrev pub Prints : M S (Unit {0}) → List ℕ → Type 0
  Prints m out = (s : S) → Does input log m s tt (map put out) (input s)

  pub Prints-then :
      (m k : M S (Unit {0})) (a b : List ℕ) → Prints m a → Prints k b → Prints (m >> k) (a ++ b)
  Prints-then m k a b p q s =
      let (s1, e1, i1, l1) = p s in
      let (s2, e2, i2, l2) = q s1 in
      (s2, rw (e1, ◌>>◌) e2, i2 ∙ i1, l2 ∙ rw (l1, append_assoc, map-append))

  -- Code that prints, followed by more.
  pub Does-print :
      {B : Type 0} (m : M S (Unit {0})) (k : M S B) (s : S) (b : B) (out : List ℕ) (fs : List Event)
      (rest : List ℕ)
      → Prints m out
      → ((s' : S) → input s' ≡ input s → Does input log k s' b fs rest)
      → Does input log (m >> k) s b (map put out ++ fs) rest
  Does-print m k s b out fs rest p h = Does-then m k s b (map put out) fs (input s) rest (p s) h

  -- The same rules where the events and the input left depend on a value `r` that is read later.
  module _ {R : Type 0} (fs : R → List Event) (left : R → List ℕ) where
    pub Does-then_some :
        {B : Type 0} (m : M S (Unit {0})) (k : M S B) (s : S) (b : B) (es : List Event)
        (rest : List ℕ)
        → Does input log m s tt es rest
        → ((s' : S) → (r : R) × Does input log k s' b (fs r) (left r))
        → (r : R) × Does input log (m >> k) s b (es ++ fs r) (left r)
    Does-then_some m k s b es rest (s1, e1, i1, l1) h =
        let (r, d) = h s1 in
        let (s2, e2, i2, l2) = d in (r, (s2, rw (e1, ◌>>◌) e2, i2, l2 ∙ rw (l1, append_assoc)))

    pub Does-print_some :
        {B : Type 0} (m : M S (Unit {0})) (k : M S B) (s : S) (b : B) (out : List ℕ)
        → Prints m out
        → ((s' : S) → (r : R) × Does input log k s' b (fs r) (left r))
        → (r : R) × Does input log (m >> k) s b (map put out ++ fs r) (left r)
    Does-print_some m k s b out p h = Does-then_some m k s b (map put out) (input s) (p s) h
