-- ===== src/Machine/Memory.antt =====
-- A machine with memory: what a log says of it, and rules for runs in terms of the memory, the input
-- and the screen.
use vsync.Prelude.{
  List, [], ap, append-nil, append_assoc, if◌then◌else◌, map, refl, some, subst, sym, true, ℕ, ◌%◌,
  ◌++◌, ◌==◌, ◌^◌, ◌∙◌, ◌∷◌, ◌≡◌,
}
use vsync.Machine.{
  M, Io, IoLaws, Event, got, put, loaded, stored, masked, jumped, Does, pure, ◌>>=◌, ◌>>◌,
}
use vsync.Machine.Effects.{Prints}

-- The word at each address.
abbrev pub Memory : Type 0
Memory = ℕ → ℕ

abbrev pub update : Memory → ℕ → ℕ → Memory
update mem a v b = if a == b then v % 2 ^ 32 else mem b

-- The memory after some events.
abbrev pub after : Memory → List Event → Memory
after mem [] = mem
after mem (stored a v ∷ es) = after (update mem a v) es
after mem (got c ∷ es) = after mem es
after mem (put c ∷ es) = after mem es
after mem (loaded a v ∷ es) = after mem es
after mem (masked ∷ es) = after mem es
after mem (jumped a ∷ es) = after mem es

-- The characters that are shown.
abbrev pub shown : List Event → List ℕ
shown [] = []
shown (put c ∷ es) = c ∷ shown es
shown (stored a v ∷ es) = shown es
shown (got c ∷ es) = shown es
shown (loaded a v ∷ es) = shown es
shown (masked ∷ es) = shown es
shown (jumped a ∷ es) = shown es

-- Memory keeps what is written: a read at an address of a word of memory gives the last value that
-- was stored there, or the initial one, and takes no character.
pub record MemoryLaws {S : Type 0} (io : Io S) (laws : IoLaws io) : Type 0 where
  pub initial : Memory
  pub read_law :
      (s : S) (a : ℕ)
      → laws.is_memory a ≡ true
      → let v = after initial (laws.log s) a in
        Does laws.input laws.log (io.load a) s v (loaded a v ∷ []) (laws.input s)

pub after-append :
    (mem : Memory) (es fs : List Event) → after mem (es ++ fs) ≡ after (after mem es) fs
after-append mem [] fs = refl
after-append mem (stored a v ∷ es) fs = after-append (update mem a v) es fs
after-append mem (got c ∷ es) fs = after-append mem es fs
after-append mem (put c ∷ es) fs = after-append mem es fs
after-append mem (loaded a v ∷ es) fs = after-append mem es fs
after-append mem (masked ∷ es) fs = after-append mem es fs
after-append mem (jumped a ∷ es) fs = after-append mem es fs

pub shown-append : (es fs : List Event) → shown (es ++ fs) ≡ shown es ++ shown fs
shown-append [] fs = refl
shown-append (put c ∷ es) fs = ap (λ l. c ∷ l) (shown-append es fs)
shown-append (stored a v ∷ es) fs = shown-append es fs
shown-append (got c ∷ es) fs = shown-append es fs
shown-append (loaded a v ∷ es) fs = shown-append es fs
shown-append (masked ∷ es) fs = shown-append es fs
shown-append (jumped a ∷ es) fs = shown-append es fs

pub after-put : (mem : Memory) (out : List ℕ) → after mem (map put out) ≡ mem
after-put mem [] = refl
after-put mem (c ∷ out) = after-put mem out

pub shown-put : (out : List ℕ) → shown (map put out) ≡ out
shown-put [] = refl
shown-put (c ∷ out) = ap (λ l. c ∷ l) (shown-put out)

-- What the code acts on: the characters to come, and the memory.
pub record World : Type 0 where
  pub input : List ℕ
  pub memory : Memory

abbrev pub write : ℕ → ℕ → World → World
write a v w = record { input = w.input; memory = update w.memory a v }

module _ {S : Type 0} (io : Io S) (laws : IoLaws io) (words : MemoryLaws io laws) where
  abbrev pub world : S → World
  world s = record { input = laws.input s; memory = after words.initial (laws.log s) }

  -- From every state with the world `w` the code returns; it shows `out`, and leaves the world `w'`.
  pub record Acts (m : M S (Unit {0})) (w : World) (out : List ℕ) (w' : World) : Type 0 where
    pub run :
        (s : S)
        → world s ≡ w
        → (s' : S) × (m s ≡ some (tt, s'))
          × (world s' ≡ w')
          × (shown (laws.log s') ≡ shown (laws.log s) ++ out)

  -- What a run does to the world.
  pub world-Does :
      {A : Type 0} (m : M S A) (s : S) (a : A) (es : List Event) (rest : List ℕ) (w : World)
      → Does laws.input laws.log m s a es rest
      → world s ≡ w
      → (s' : S) × (m s ≡ some (a, s'))
        × (world s' ≡ record { input = rest; memory = after w.memory es })
        × (shown (laws.log s') ≡ shown (laws.log s) ++ shown es)
  world-Does m s a es rest w (s', e, i, l) h =
      (s', e, rw (i, l, after-append, ← h) refl, ap shown l ∙ shown-append (laws.log s) es)

  pub Acts-pure : (w : World) → Acts (pure tt) w [] w
  Acts-pure w = record { run = λ s h. (s, refl, h, sym (append-nil _)) }

  pub Acts-Prints :
      (m : M S (Unit {0})) (w : World) (out : List ℕ)
      → Prints laws.input laws.log m out
      → Acts m w out w
  Acts-Prints m w out p = record {
    run = λ s h.
        let (s', e, v, l) = world-Does m s tt (map put out) (laws.input s) w (p s) h in
        (s', e, rw (v, after-put, ← h) refl, rw (l, shown-put) refl);
  }

  pub Acts-then :
      (m k : M S (Unit {0})) (w w1 w2 : World) (a b : List ℕ)
      → Acts m w a w1
      → Acts k w1 b w2
      → Acts (m >> k) w (a ++ b) w2
  Acts-then m k w w1 w2 a b p q = record {
    run = λ s h.
        let (s1, e1, v1, l1) = p.run s h in
        let (s2, e2, v2, l2) = q.run s1 v1 in
        (s2, rw (e1, ◌>>◌) e2, v2, l2 ∙ rw (l1, append_assoc) refl);
  }

  pub Acts-load :
      (a : ℕ) (f : ℕ → M S (Unit {0})) (w w' : World) (out : List ℕ)
      → laws.is_memory a ≡ true
      → Acts (f (w.memory a)) w out w'
      → Acts (io.load a >>= f) w out w'
  Acts-load a f w w' out is_word p = record {
    run = λ s h.
        let v = after words.initial (laws.log s) a in
        let (s1, e1, v1, l1) =
          world-Does (io.load a) s v (loaded a v ∷ []) (laws.input s) w (words.read_law s a is_word)
            h in
        let same : w.memory a ≡ v = ap (λ (x : World). x.memory a) (sym h) in
        let (s2, e2, v2, l2) =
          (subst (λ x. Acts (f x) w out w') same p).run s1 (rw (v1, ← h) refl) in
        (s2, rw (e1, ◌>>=◌) e2, v2, l2 ∙ rw (l1, append-nil) refl);
  }

  pub Acts-store :
      (a v : ℕ) (k : M S (Unit {0})) (w w' : World) (out : List ℕ)
      → laws.is_memory a ≡ true
      → Acts k (write a v w) out w'
      → Acts (io.store a v >> k) w out w'
  Acts-store a v k w w' out is_word p = record {
    run = λ s h.
        let (s1, e1, v1, l1) =
          world-Does (io.store a v) s tt (stored a v ∷ []) (laws.input s) w
            (laws.memory_law s a v is_word) h in
        let (s2, e2, v2, l2) = p.run s1 (rw (v1, ← h) refl) in
        (s2, rw (e1, ◌>>◌) e2, v2, l2 ∙ rw (l1, append-nil) refl);
  }
