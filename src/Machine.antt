-- ===== src/Machine.antt =====
-- What the C code asks of the machine: memory-mapped registers through REG32
-- (sw/lib/vsync_hw.h), and the inline assembly of sw/lib/vsync_posix.h and of cmd_go. Stateful code
-- is a function of the state; `none` is no C value: a spin loop ran out of the rounds it was given,
-- or memory was accessed out of bounds.
pub mod Effects
pub mod Memory
pub mod Kept
use vsync.Prelude.{Bool, List, Option, [], none, some, true, ℕ, ◌++◌, ◌<◌, ◌^◌, ◌∷◌, ◌≡◌}

abbrev pub M : Type 0 → Type 0 → Type 0
M S A = S → Option (A × S)

module _ {S : Type 0} where
  abbrev pub pure : {A : Type 0} → A → M S A
  pure a s = some (a, s)

  abbrev pub fault : {A : Type 0} → M S A
  fault s = none

  infixl 5 ◌>>=◌ ◌>>◌
  abbrev pub ◌>>=◌ : {A B : Type 0} → M S A → (A → M S B) → M S B
  ◌>>=◌ m f s = elim (m s) [ none ↦ none | some (a, s') ↦ f a s' ]

  abbrev pub ◌>>◌ : {B : Type 0} → M S (Unit {0}) → M S B → M S B
  ◌>>◌ m k s = elim (m s) [ none ↦ none | some (a, s') ↦ k s' ]

-- The console and the registers as the shell uses them. The implementation of the console is
-- in `Uart`.
pub record Io (S : Type 0) : Type 0 where
  pub getchar_blocking : M S ℕ
  pub putchar : ℕ → M S (Unit {0})
  pub load : ℕ → M S ℕ
  pub store : ℕ → ℕ → M S (Unit {0})
  pub clear_mie : M S (Unit {0})
  pub jump : ℕ → M S (Unit {0})

-- What an observer sees of a run.
pub data Event : Type 0 where
  got : ℕ → Event
  put : ℕ → Event
  loaded : ℕ → ℕ → Event
  stored : ℕ → ℕ → Event
  masked : Event
  jumped : ℕ → Event

-- A run of `m` from `s` returns `a`; `es` is what it adds to the log, and `rest` the input it
-- leaves.
abbrev pub Does :
    {S A : Type 0} → (S → List ℕ) → (S → List Event) → M S A → S → A → List Event → List ℕ → Type 0
Does {S} input log m s a es rest =
    (s' : S) × (m s ≡ some (a, s')) × (input s' ≡ rest) × (log s' ≡ log s ++ es)

-- How the operations behave, in terms of the characters that are still to come, and of a log. A
-- register access may change what is to come: a read of the UART's data register takes a character.
pub record IoLaws {S : Type 0} (io : Io S) : Type 0 where
  pub input : S → List ℕ
  pub log : S → List Event
  pub getchar_law :
      (s : S) (c : ℕ) (rest : List ℕ)
      → input s ≡ c ∷ rest
      → Does input log io.getchar_blocking s c (got c ∷ []) rest
  pub putchar_law : (s : S) (c : ℕ) → Does input log (io.putchar c) s tt (put c ∷ []) (input s)
  pub load_law :
      (s : S) (a : ℕ)
      → (r : ℕ × List ℕ) × (r.0 < 2 ^ 32) × Does input log (io.load a) s r.0 (loaded a r.0 ∷ []) r.1
  pub store_law :
      (s : S) (a v : ℕ)
      → (rest : List ℕ) × Does input log (io.store a v) s tt (stored a v ∷ []) rest
  -- The addresses at which a write is only a write to memory.
  pub is_memory : ℕ → Bool
  pub memory_law :
      (s : S) (a v : ℕ)
      → is_memory a ≡ true
      → Does input log (io.store a v) s tt (stored a v ∷ []) (input s)
  pub mask_law : (s : S) → Does input log io.clear_mie s tt (masked ∷ []) (input s)
  pub jump_law : (s : S) (a : ℕ) → Does input log (io.jump a) s tt (jumped a ∷ []) (input s)
