-- ===== src/Tests/Kept.antt =====
-- A machine with memory: a read there gives what the log says was stored last, or 0; every other
-- address reads 7.
use vsync.Prelude.{
  Bool, List, [], ap, arith, if◌then◌else◌, ltb, refl, subst, ℕ, ◌%◌, ◌&&◌, ◌++◌, ◌<◌, ◌==◌, ◌^◌,
  ◌∷◌, ◌≡◌,
}
use vsync.Machine.{Does, Io, IoLaws, Event, got, put, loaded, stored, masked, jumped}
use vsync.Machine.Memory.{Memory, update, MemoryLaws, after}
use vsync.Tests.Bench.{Bench, emit, next_char}

abbrev pub blank_memory : Memory
blank_memory a = 0

-- The words of memory stand at the multiples of 4 below 0x14000.
abbrev pub in_memory : ℕ → Bool
in_memory a = ltb a 0x1_4000 && a % 4 == 0

-- The word at an address, behind a log.
abbrev pub word : List Event → ℕ → ℕ
word es a = if in_memory a then after blank_memory es a else 7

pub after-bound :
    (mem : Memory) (es : List Event)
    → ((a : ℕ) → mem a < 2 ^ 32)
    → (a : ℕ) → after mem es a < 2 ^ 32
after-bound mem [] h a = h a
after-bound mem (stored b v ∷ es) h a = after-bound (update mem b v) es (λ c. ground (arith, h c)) a
after-bound mem (got c ∷ es) h a = after-bound mem es h a
after-bound mem (put c ∷ es) h a = after-bound mem es h a
after-bound mem (loaded b v ∷ es) h a = after-bound mem es h a
after-bound mem (masked ∷ es) h a = after-bound mem es h a
after-bound mem (jumped b ∷ es) h a = after-bound mem es h a

pub word-bound : (es : List Event) (a : ℕ) → word es a < 2 ^ 32
word-bound es a = ground (arith, after-bound blank_memory es (λ b. omega arith) a)

abbrev pub kept_io : Io Bench
kept_io = record {
  getchar_blocking = λ s. next_char s.input s.log;
  putchar = λ c. emit (put c) tt;
  load = λ a s. emit (loaded a (word s.log a)) (word s.log a) s;
  store = λ a v. emit (stored a v) tt;
  clear_mie = emit masked tt;
  jump = λ a. emit (jumped a) tt;
}

abbrev pub kept_laws : IoLaws kept_io
kept_laws = record {
  input = λ s. s.input;
  log = λ s. s.log;
  getchar_law = λ s c rest e. (
    record { input = rest; log = s.log ++ (got c ∷ []) },
    ap (λ i. next_char i s.log) e,
    refl,
    refl,
  );
  putchar_law = λ s c. (record { input = s.input; log = s.log ++ (put c ∷ []) }, refl, refl, refl);
  load_law = λ s a. (
    (word s.log a, s.input),
    word-bound s.log a,
    (record { input = s.input; log = s.log ++ (loaded a (word s.log a) ∷ []) }, refl, refl, refl),
  );
  store_law = λ s a v.
      (s.input, (record { input = s.input; log = s.log ++ (stored a v ∷ []) }, refl, refl, refl));
  is_memory = in_memory;
  memory_law =
      λ s a v e. (record { input = s.input; log = s.log ++ (stored a v ∷ []) }, refl, refl, refl);
  mask_law = λ s. (record { input = s.input; log = s.log ++ (masked ∷ []) }, refl, refl, refl);
  jump_law = λ s a. (record { input = s.input; log = s.log ++ (jumped a ∷ []) }, refl, refl, refl);
}

abbrev pub kept_words : MemoryLaws kept_io kept_laws
kept_words = record {
  initial = blank_memory;
  read_law = λ s a e.
      let v = word s.log a in
      let same : v ≡ after blank_memory s.log a = rw e refl in
      subst (λ x. Does kept_laws.input kept_laws.log (kept_io.load a) s x (loaded a x ∷ []) s.input)
        same (record { input = s.input; log = s.log ++ (loaded a v ∷ []) }, refl, refl, refl);
}
