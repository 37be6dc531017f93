-- ===== src/Tests/Monitor.antt =====
-- A session at the prompt, on a machine with memory.
use vsync.Prelude.{
  All, List, [], append-nil, arith, codes, drop, inl, inr, refl, replicate, some, sym, take, true,
  ℕ, ◌%◌, ◌*◌, ◌++◌, ◌+◌, ◌<◌, ◌^◌, ◌∷◌, ◌≡◌, ◌≢◌,
}
use mathlib.Core.List.{cons≢nil}
use vsync.Readline.Edit.{edit_line, edit_events, key_line, key_echo}
use vsync.Args.Words.{words_from}
use vsync.Hex.Parse.{digit_value}
use vsync.Hex.Print.{hex_digits}
use vsync.Commands.{word_align}
use vsync.Commands.Memory.{clamp_count}
use vsync.Commands.Worlds.{peek_text}
use vsync.Commands.Script.{Typed, IsBody, words_of}
use vsync.Shell.{Command, help, Fuel, shell_loop}
use vsync.Shell.Table.{command_name}
use vsync.Shell.Monitor.{
  nothing, cancelled, poke_word, peek_words, load_words, complaint, unknown, Entry, asking,
  prompt_text, answer, IsEntry, decimal, asks_nothing, asks_poke, asks_peek, asks_unknown,
  asks_load, entry_chars, transcript, memory_after_all, bad_poke_value,
}
use vsync.Shell.Monitor.Session.{Ends}
use vsync.Shell.Main.{run_shell}
use vsync.Shell.Monitor.Start.{banner_text, run_shell-Refines}
use vsync.Shell.Monitor.Reads.{load_then_peek}
use vsync.Shell.Monitor.RoundTrip.{lines_of}
use vsync.Tests.Bench.{typing}
use vsync.Machine.{Event}
use vsync.Machine.Memory.{shown}
use vsync.Uart.Memory.{Agrees, console}
use vsync.Shell.Monitor.OnUart.{uart_shell-Refines}
use vsync.Tests.Receiver.{Board, board, board_Receives, board_memory, queued}
use vsync.Tests.Kept.{kept_io, kept_laws, kept_words, blank_memory}

abbrev fuel : Fuel
fuel = record { keys = 20; lines = 5; polls = 3 }

abbrev line : List ℕ → Typed
line keys = record { keys = keys; enter = b'\r' }

abbrev words_end : Typed
words_end = line (codes ".")

abbrev load_body : List Typed
load_body = line (codes "13") ∷ line (codes "# x") ∷ line (codes "FF") ∷ []

-- A poke, a cancelled line, an empty one, a wrong one, one that is no command, a load, a peek.
abbrev session : List Entry
session =
    record { line = line (codes "poke 0x12 FF"); request = poke_word 0x12 0xFF }
    ∷ record { line = record { keys = codes "peek"; enter = 0x03 }; request = cancelled }
    ∷ record { line = line []; request = nothing }
    ∷ record {
      line = line (codes "poke 8 z");
      request = complaint (codes "Error: invalid value\r\n");
    }
    ∷ record { line = line (codes "boo"); request = unknown (codes "boo") }
    ∷ record { line = line (codes "load 14"); request = load_words 0x14 load_body words_end }
    ∷ record { line = line (codes "peek 10 3"); request = peek_words 0x10 3 }
    ∷ []

abbrev keys_typed : List ℕ
keys_typed =
    codes "poke 0x12 FF\rpeek\u{3}\rpoke 8 z\rboo\rload 14\r13\r# x\rFF\r.\rpeek 10 3\rmore"

session-chars : keys_typed ≡ entry_chars session (codes "more")
session-chars = refl

no_boo : (c : Command) → codes "boo" ≢ command_name c
unfolding command_name
no_boo help = ground arith
no_boo _ = ground arith

three_words : (i : ℕ) → i < clamp_count 3 → kept_laws.is_memory ((0x10 + i * 4) % 2 ^ 32) ≡ true
unfolding clamp_count
three_words i h = ground arith

load_lines : All (IsBody 20) load_body
unfolding edit_line key_line
load_lines = (
  ((refl, refl, omega arith), refl),
  (((refl, refl, omega arith), refl), (((refl, refl, omega arith), refl), tt)),
)

two_words : (i : ℕ) → i < clamp_count 2 → kept_laws.is_memory ((0x14 + i * 4) % 2 ^ 32) ≡ true
unfolding clamp_count
two_words i h = ground arith

session-Entries : All (IsEntry kept_laws.is_memory fuel) session
unfolding edit_line key_line words_from digit_value word_align words_of
session-Entries = (
  inr ((refl, refl, omega arith), asks_poke refl refl refl),
  (
    inl ((refl, refl, omega arith), refl),
    (
      inr ((refl, refl, omega arith), asks_nothing),
      (
        inr ((refl, refl, omega arith), bad_poke_value {a = 8} refl refl),
        (
          inr ((refl, refl, omega arith), asks_unknown no_boo),
          (
            inr (
              (refl, refl, omega arith),
              asks_load {a = 0x14} {body = load_body} refl (load_lines, omega arith, refl)
                  (refl, refl, omega arith) refl,
            ),
            (
              inr (
                (refl, refl, omega arith),
                asks_peek refl (decimal (refl, cons≢nil) (omega arith)) three_words,
              ),
              tt,
            ),
          ),
        ),
      ),
    ),
  ),
)

run_shell-Refines_example :
    Ends kept_io kept_laws kept_words
      (run_shell kept_io fuel 7)
      (typing keys_typed)
      (banner_text ++ transcript blank_memory session)
      (record { input = codes "more"; memory = memory_after_all blank_memory session })
run_shell-Refines_example =
    run_shell-Refines kept_io kept_laws fuel kept_words session (codes "more") (typing keys_typed)
      session-Entries refl

uart_shell-Refines_example :
    (buf : List ℕ) × (t : Board) × (log : List Event) × (agrees : Agrees board 1 5 board_Receives
      board_memory blank_memory []
      (t, log))
    × (run_shell
          (console board 1 5 board_Receives board_memory blank_memory [])
          fuel
          7
          (((keys_typed, (blank_memory, [])), []), (λ b is_word. refl, sym (append-nil [])))
        ≡ some (buf, ((t, log), agrees)))
    × (queued t ≡ codes "more")
    × ((b : ℕ)
        → board_Receives.is_memory b ≡ true
        → t.1.0 b % 2 ^ 32 ≡ memory_after_all blank_memory session b)
    × (t.1.1 ≡ banner_text ++ transcript blank_memory session)
    × (shown log ≡ banner_text ++ transcript blank_memory session)
uart_shell-Refines_example =
    uart_shell-Refines board 1 5 board_Receives board_memory fuel session (codes "more")
      (keys_typed, (blank_memory, [])) session-Entries refl

-- The answer to the last line.
session_ends :
    transcript (memory_after_all blank_memory (take 6 session)) (drop 6 session)
    ≡ codes
        "vsync> peek 10 3\r\n0x00000010: 0x000000FF\r\n0x00000014: 0x00000013\r\n0x00000018: 0x000000FF\r\n"
unfolding edit_events edit_line key_line key_echo digit_value word_align words_of clamp_count
    hex_digits peek_text
session_ends = refl

abbrev peek_two : Typed
peek_two = line (codes "peek 14 2")

load_then_peek-Entries : All (IsEntry kept_laws.is_memory fuel) (
    asking (line (codes "load 14")) (load_words 0x14 load_body words_end)
    ∷ asking peek_two (peek_words 0x14 2)
    ∷ [])
unfolding edit_line key_line words_from digit_value word_align words_of
load_then_peek-Entries = (
  inr (
    (refl, refl, omega arith),
    asks_load {a = 0x14} {body = load_body} refl (load_lines, omega arith, refl)
        (refl, refl, omega arith) refl,
  ),
  (
    inr (
      (refl, refl, omega arith),
      asks_peek refl (decimal (refl, cons≢nil) (omega arith)) two_words,
    ),
    tt,
  ),
)

load_then_peek_example :
    Ends kept_io kept_laws kept_words
      (shell_loop kept_io fuel 2 (replicate 80 0) (replicate 80 0))
      (typing (codes "load 14\r13\r# x\rFF\r.\rpeek 14 2\r"))
      ((prompt_text (line (codes "load 14"))
          ++ answer blank_memory (load_words 0x14 load_body words_end))
        ++ (prompt_text peek_two ++ codes "0x00000014: 0x00000013\r\n0x00000018: 0x000000FF\r\n"))
      (record {
        input = [];
        memory = memory_after_all blank_memory (
            asking (line (codes "load 14")) (load_words 0x14 load_body words_end)
            ∷ asking peek_two (peek_words 0x14 2)
            ∷ []);
      })
unfolding lines_of hex_digits edit_line key_line digit_value word_align words_of
load_then_peek_example =
    load_then_peek kept_io kept_laws kept_words fuel (replicate 80 0) refl (replicate 80 0) []
      (typing (codes "load 14\r13\r# x\rFF\r.\rpeek 14 2\r")) refl (line (codes "load 14")) peek_two
      words_end load_body 0x14 load_then_peek-Entries refl (omega arith) (omega arith) (omega arith)
