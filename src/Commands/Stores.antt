-- ===== src/Commands/Stores.antt =====
-- The writes of a run, and runs that write.
use vsync.Prelude.{List, [], ap, append_assoc, map, refl, ℕ, ◌++◌, ◌∙◌, ◌∷◌, ◌≡◌}
use vsync.Machine.{M, Event, got, put, loaded, stored, masked, jumped, Does, ◌>>=◌, ◌>>◌}
use vsync.Machine.Effects.{Prints}
use vsync.Machine.Memory.{Memory, update, after, shown, shown-append, shown-put}
use vsync.Readline.Edit.{edit_events, key_line, key_echo}

-- The writes among the events, in order.
abbrev pub stores : List Event → List (ℕ × ℕ)
stores [] = []
stores (stored a v ∷ es) = (a, v) ∷ stores es
stores (got c ∷ es) = stores es
stores (put c ∷ es) = stores es
stores (loaded a v ∷ es) = stores es
stores (masked ∷ es) = stores es
stores (jumped a ∷ es) = stores es

pub stores-append : (es fs : List Event) → stores (es ++ fs) ≡ stores es ++ stores fs
stores-append [] fs = refl
stores-append (stored a v ∷ es) fs = ap (λ (ps : List (ℕ × ℕ)). (a, v) ∷ ps) (stores-append es fs)
stores-append (got c ∷ es) fs = stores-append es fs
stores-append (put c ∷ es) fs = stores-append es fs
stores-append (loaded a v ∷ es) fs = stores-append es fs
stores-append (masked ∷ es) fs = stores-append es fs
stores-append (jumped a ∷ es) fs = stores-append es fs

pub stores-put : (out : List ℕ) → stores (map put out) ≡ []
stores-put [] = refl
stores-put (c ∷ out) = stores-put out

pub stores-edit_events : (cap : ℕ) (st keys : List ℕ) → stores (edit_events cap st keys) ≡ []
unfolding edit_events
stores-edit_events cap st [] = refl
stores-edit_events cap st (c ∷ keys) =
    stores-append (map put (key_echo cap st c)) (edit_events cap (key_line cap st c) keys)
    ∙ (ap (λ (ps : List (ℕ × ℕ)). ps ++ stores (edit_events cap (key_line cap st c) keys))
          (stores-put (key_echo cap st c))
        ∙ stores-edit_events cap (key_line cap st c) keys)

-- The memory after some writes.
abbrev pub write_words : Memory → List (ℕ × ℕ) → Memory
write_words mem [] = mem
write_words mem ((a, v) ∷ ps) = write_words (update mem a v) ps

pub after-stores : (mem : Memory) (es : List Event) → after mem es ≡ write_words mem (stores es)
after-stores mem [] = refl
after-stores mem (stored a v ∷ es) = after-stores (update mem a v) es
after-stores mem (got c ∷ es) = after-stores mem es
after-stores mem (put c ∷ es) = after-stores mem es
after-stores mem (loaded a v ∷ es) = after-stores mem es
after-stores mem (masked ∷ es) = after-stores mem es
after-stores mem (jumped a ∷ es) = after-stores mem es

module _ {S : Type 0} (input : S → List ℕ) (log : S → List Event) where
  -- A run that writes `ps` and shows `out`, whatever it reads, and leaves the input `rest`.
  abbrev pub Writes : M S (Unit {0}) → S → List (ℕ × ℕ) → List ℕ → List ℕ → Type 0
  Writes m s ps out rest =
      (es : List Event) × Does input log m s tt es rest × (stores es ≡ ps) × (shown es ≡ out)

  pub Writes-bind :
      {A : Type 0} (m : M S A) (f : A → M S (Unit {0})) (s : S) (a : A) (es : List Event)
      (rest rest' out : List ℕ) (qs ps : List (ℕ × ℕ))
      → Does input log m s a es rest
      → stores es ≡ qs
      → ((s' : S) → input s' ≡ rest → Writes (f a) s' ps out rest')
      → Writes (m >>= f) s (qs ++ ps) (shown es ++ out) rest'
  Writes-bind m f s a es rest rest' out qs ps (s1, e1, i1, l1) w k =
      let (fs, (s2, e2, i2, l2), w', o') = k s1 i1 in
      (
        es ++ fs,
        (s2, rw (e1, ◌>>=◌) e2, i2, l2 ∙ rw (l1, append_assoc)),
        stores-append es fs ∙ rw (w, w'),
        shown-append es fs ∙ rw o' refl,
      )

  pub Writes-store :
      (m k : M S (Unit {0})) (s : S) (a v : ℕ) (rest rest' out : List ℕ) (ps : List (ℕ × ℕ))
      → Does input log m s tt (stored a v ∷ []) rest
      → ((s' : S) → input s' ≡ rest → Writes k s' ps out rest')
      → Writes (m >> k) s ((a, v) ∷ ps) out rest'
  Writes-store m k s a v rest rest' out ps (s1, e1, i1, l1) h =
      let (fs, (s2, e2, i2, l2), w', o') = h s1 i1 in
      (
        stored a v ∷ fs,
        (s2, rw (e1, ◌>>◌) e2, i2, l2 ∙ rw (l1, append_assoc)),
        ap (λ (l : List (ℕ × ℕ)). (a, v) ∷ l) w',
        o',
      )

  -- Code that only prints writes nothing.
  pub Writes-Prints :
      (m : M S (Unit {0})) (s : S) (out rest : List ℕ)
      → Prints input log m out
      → input s ≡ rest
      → Writes m s [] out rest
  Writes-Prints m s out rest p e =
      let (s1, e1, i1, l1) = p s in
      (map put out, (s1, e1, i1 ∙ e, l1), stores-put out, shown-put out)

  pub Writes-print :
      (m k : M S (Unit {0})) (s : S) (text rest rest' out : List ℕ) (ps : List (ℕ × ℕ))
      → Prints input log m text
      → input s ≡ rest
      → ((s' : S) → input s' ≡ rest → Writes k s' ps out rest')
      → Writes (m >> k) s ps (text ++ out) rest'
  Writes-print m k s text rest rest' out ps p e h =
      let (s1, e1, i1, l1) = p s in
      let (fs, (s2, e2, i2, l2), w', o') = h s1 (i1 ∙ e) in
      (
        map put text ++ fs,
        (s2, rw (e1, ◌>>◌) e2, i2, l2 ∙ rw (l1, append_assoc)),
        stores-append (map put text) fs ∙ rw (stores-put text, w'),
        shown-append (map put text) fs ∙ rw (shown-put text, o') refl,
      )
