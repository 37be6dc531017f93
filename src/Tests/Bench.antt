-- ===== src/Tests/Bench.antt =====
-- A machine to test on: the characters to come and the log are its state, every register reads 7.
use vsync.Prelude.{List, Option, [], ap, arith, ltb, none, refl, some, ℕ, ◌++◌, ◌∷◌}
use vsync.Machine.{M, Io, IoLaws, Event, got, put, loaded, stored, masked, jumped}

pub record Bench : Type 0 where
  pub input : List ℕ
  pub log : List Event

abbrev pub emit : {A : Type 0} → Event → A → M Bench A
emit e a s = some (a, record { input = s.input; log = s.log ++ (e ∷ []) })

abbrev pub next_char : List ℕ → List Event → Option (ℕ × Bench)
next_char [] log = none
next_char (c ∷ rest) log = some (c, record { input = rest; log = log ++ (got c ∷ []) })

abbrev pub bench_io : Io Bench
bench_io = record {
  getchar_blocking = λ s. next_char s.input s.log;
  putchar = λ c. emit (put c) tt;
  load = λ a. emit (loaded a 7) 7;
  store = λ a v. emit (stored a v) tt;
  clear_mie = emit masked tt;
  jump = λ a. emit (jumped a) tt;
}

abbrev pub bench_laws : IoLaws bench_io
bench_laws = record {
  input = λ s. s.input;
  log = λ s. s.log;
  getchar_law = λ s c rest e. (
    record { input = rest; log = s.log ++ (got c ∷ []) },
    ap (λ i. next_char i s.log) e,
    refl,
    refl,
  );
  putchar_law = λ s c. (record { input = s.input; log = s.log ++ (put c ∷ []) }, refl, refl, refl);
  load_law = λ s a. (
    (7, s.input),
    omega arith,
    (record { input = s.input; log = s.log ++ (loaded a 7 ∷ []) }, refl, refl, refl),
  );
  store_law = λ s a v.
      (s.input, (record { input = s.input; log = s.log ++ (stored a v ∷ []) }, refl, refl, refl));
  is_memory = λ a. ltb a 0x1_4000;
  memory_law =
      λ s a v e. (record { input = s.input; log = s.log ++ (stored a v ∷ []) }, refl, refl, refl);
  mask_law = λ s. (record { input = s.input; log = s.log ++ (masked ∷ []) }, refl, refl, refl);
  jump_law = λ s a. (record { input = s.input; log = s.log ++ (jumped a ∷ []) }, refl, refl, refl);
}

-- A machine with the given characters to come.
abbrev pub typing : List ℕ → Bench
typing keys = record { input = keys; log = [] }
