-- ===== src/Tests/Launch.antt =====
-- A program of two words that is loaded and started.
use vsync.Prelude.{
  All, List, [], arith, codes, get_or, inr, refl, replicate, some, ℕ, ◌++◌, ◌<◌, ◌∷◌, ◌≡◌,
}
use vsync.Machine.Memory.{Memory}
use vsync.Readline.Edit.{edit_line, key_line}
use vsync.Args.Words.{words_from}
use vsync.Hex.Parse.{digit_value}
use vsync.Commands.{word_align}
use vsync.Commands.Go.{empty}
use vsync.Commands.Peek.{word_at}
use vsync.Commands.Script.{Typed, IsBody, words_of}
use vsync.Shell.{Fuel, shell_round, shell_loop}
use vsync.Shell.Monitor.{asking, Entry, IsEntry, poke_word, asks_poke, load_words, asks_load}
use vsync.Shell.Monitor.Launch.{Jumps, CanDrain, program_starts}
use vsync.Tests.Bench.{Bench, typing}
use vsync.Tests.Kept.{kept_io, kept_laws, kept_words, in_memory}

abbrev few : Fuel
few = record { keys = 20; lines = 5; polls = 3 }

abbrev keys : List ℕ → Typed
keys text = record { keys = text; enter = b'\r' }

abbrev program : List Typed
program = keys (codes "13") ∷ keys (codes "6F") ∷ []

program_lines : All (IsBody 20) program
unfolding edit_line key_line
program_lines = (((refl, refl, omega arith), refl), (((refl, refl, omega arith), refl), tt))

abbrev before : List Entry
before = asking (keys (codes "poke 8 FF")) (poke_word 8 0xFF) ∷ []

abbrev loading : Entry
loading = asking (keys (codes "load 4")) (load_words 4 program (keys (codes ".")))

launch_Entries : All (IsEntry in_memory few) (before ++ (loading ∷ []))
unfolding edit_line key_line words_from digit_value word_align words_of
launch_Entries = (
  inr ((refl, refl, omega arith), asks_poke refl refl refl),
  (
    inr (
      (refl, refl, omega arith),
      asks_load {a = 4} {body = program} refl (program_lines, omega arith, refl)
          (refl, refl, omega arith) refl,
    ),
    tt,
  ),
)

drains : CanDrain kept_io kept_laws few
drains s = (0, empty s refl, omega arith)

program_starts_example :
    (buf : List ℕ) × (s1 : Bench) × (mem : Memory) × (shell_loop kept_io few 2
        (replicate 80 0)
        (replicate 80 0)
        (typing (codes "poke 8 FF\rload 4\r13\r6F\r.\rgo 4\r"))
      ≡ some (buf, s1))
    × Jumps kept_io kept_laws kept_words (shell_round kept_io few (replicate 80 0) buf) s1 4 mem
    × ((i : ℕ) → i < 2 → mem (word_at 4 i) ≡ get_or (0x13 ∷ 0x6F ∷ []) i 0)
unfolding edit_line key_line words_from digit_value word_align words_of
program_starts_example =
    program_starts kept_io kept_laws kept_words few (replicate 80 0) refl before
      (keys (codes "load 4")) (keys (codes "go 4")) (keys (codes ".")) program 4 4 (codes "4") []
      (replicate 80 0) [] (typing (codes "poke 8 FF\rload 4\r13\r6F\r.\rgo 4\r")) refl
      launch_Entries (omega arith) (omega arith) (refl, refl, omega arith) refl refl drains refl
