-- ===== src/Shell/Monitor.antt =====
-- What the monitor is for its user, with no buffers, no parser and no devices: lines are typed, some
-- of them change the words of a memory, and each has an answer.
pub mod Answers
pub mod Dispatch
pub mod Session
pub mod RoundTrip
pub mod Reads
pub mod Start
pub mod OnUart
pub mod Launch
use vsync.Prelude.{
  All, Bool, List, [], all, codes, if◌then◌else◌, length, map, none, some, true, ℕ, ◌++◌, ◌<◌, ◌^◌,
  ◌∷◌, ◌≡◌, ◌≢◌, ◌⊎◌,
}
use vsync.Hex.Parse.{hex_meaning}
use vsync.Decimal.Parse.{IsNumber, dec_value}
use vsync.Machine.Memory.{Memory, update}
use vsync.Readline.Edit.{is_cancel}
use vsync.Args.Words.{words}
use vsync.Commands.{imem_base, word_align}
use vsync.Commands.Memory.{clamp_count}
use vsync.Commands.Peek.{word_at}
use vsync.Commands.Worlds.{poke_text, peek_text}
use vsync.Commands.Stores.{write_words}
use vsync.Commands.Script.{
  Typed, typed_text, chars, IsTyped, IsBody, IsCancelled, is_last, words_of, at_words, echo,
  body_text, end_text, abort_text,
}
use vsync.Commands.Loading.{session_text}
use vsync.Commands.Texts.{help_text, info_text}
use vsync.Shell.{Command, Fuel}
use vsync.Shell.Table.{command_name}

-- What a line asks for. `load_words` and `load_aborted` come with the lines that are typed behind
-- the command, and the one that ends them.
pub data Request : Type 0 where
  nothing help_list system_info : Request
  cancelled : Request
  poke_word peek_words : ℕ → ℕ → Request
  load_words load_aborted : ℕ → List Typed → Typed → Request
  complaint : List ℕ → Request
  unknown : List ℕ → Request

-- The count of peek: decimal, or else hexadecimal; 1 if there is none.
pub data Counts : List (List ℕ) → ℕ → Type 0 where
  one : Counts [] 1
  decimal :
      {w : List ℕ} {more : List (List ℕ)}
      → IsNumber w
      → dec_value 0 w < 2 ^ 32
      → Counts (w ∷ more) (dec_value 0 w)
  hexadecimal :
      {w : List ℕ} {more : List (List ℕ)} {n : ℕ}
      → ¬ IsNumber w
      → hex_meaning w ≡ some n
      → Counts (w ∷ more) n

-- The memory behind a request.
abbrev pub memory_after : Memory → Request → Memory
memory_after mem (poke_word a v) = update mem (word_align a) v
memory_after mem (load_words a body end) =
    write_words mem (at_words (word_align a) (words_of (map typed_text body)))
memory_after mem (load_aborted a body end) =
    write_words mem (at_words (word_align a) (words_of (map typed_text body)))
memory_after mem _ = mem

-- The answer to a request, on the memory in front of it.
abbrev pub answer : Memory → Request → List ℕ
answer mem nothing = []
answer mem cancelled = []
answer mem help_list = help_text
answer mem system_info = info_text
answer mem (poke_word a v) = poke_text (update mem (word_align a) v) (word_align a) v
answer mem (peek_words a n) = peek_text mem (word_align a) (clamp_count n) 0
answer mem (load_words a body end) =
    session_text (word_align a) (body_text (end_text (word_align a) end) (word_align a) 0 body)
answer mem (load_aborted a body end) =
    session_text (word_align a) (body_text (λ cur count. abort_text end.keys) (word_align a) 0 body)
answer mem (complaint message) = message
answer mem (unknown w) =
    codes "Unknown command: " ++ (w ++ codes "\r\nType 'help' for command list.\r\n")

-- The characters that belong to a request behind its first line, with `rest` behind them.
abbrev pub request_chars : Request → List ℕ → List ℕ
request_chars (load_words a body end) rest = chars body (end.keys ++ end.enter ∷ rest)
request_chars (load_aborted a body end) rest = chars body (end.keys ++ end.enter ∷ rest)
request_chars _ rest = rest

module _ (is_memory : ℕ → Bool) (fuel : Fuel) where
  -- The words that lines spell are to go to memory.
  abbrev pub Loads : ℕ → List Typed → Type 0
  Loads a body =
      All (IsBody fuel.keys) body
      × (length body < fuel.lines)
      × (all (λ (p : ℕ × ℕ). is_memory p.0)
            (at_words (word_align a) (words_of (map typed_text body)))
          ≡ true)

  -- Which words ask for what.
  pub data Asks : List (List ℕ) → Request → Type 0 where
    asks_nothing : Asks [] nothing
    asks_help : {ws : List (List ℕ)} → Asks (codes "help" ∷ ws) help_list
    asks_info : {ws : List (List ℕ)} → Asks (codes "info" ∷ ws) system_info
    asks_poke :
        {wa wv : List ℕ} {more : List (List ℕ)} {a v : ℕ}
        → hex_meaning wa ≡ some a
        → hex_meaning wv ≡ some v
        → is_memory (word_align a) ≡ true
        → Asks (codes "poke" ∷ wa ∷ wv ∷ more) (poke_word a v)
    asks_peek :
        {wa : List ℕ} {more : List (List ℕ)} {a n : ℕ}
        → hex_meaning wa ≡ some a
        → Counts more n
        → ((i : ℕ) → i < clamp_count n → is_memory (word_at (word_align a) i) ≡ true)
        → Asks (codes "peek" ∷ wa ∷ more) (peek_words a n)
    asks_load :
        {wa : List ℕ} {more : List (List ℕ)} {a : ℕ} {body : List Typed} {end : Typed}
        → hex_meaning wa ≡ some a
        → Loads a body
        → IsTyped fuel.keys end
        → is_last (typed_text end) ≡ true
        → Asks (codes "load" ∷ wa ∷ more) (load_words a body end)
    asks_load_imem :
        {body : List Typed} {end : Typed}
        → Loads imem_base body
        → IsTyped fuel.keys end
        → is_last (typed_text end) ≡ true
        → Asks (codes "load" ∷ []) (load_words imem_base body end)
    asks_load_aborted :
        {wa : List ℕ} {more : List (List ℕ)} {a : ℕ} {body : List Typed} {end : Typed}
        → hex_meaning wa ≡ some a
        → Loads a body
        → IsCancelled fuel.keys end
        → Asks (codes "load" ∷ wa ∷ more) (load_aborted a body end)
    asks_unknown :
        {w : List ℕ} {ws : List (List ℕ)}
        → ((c : Command) → w ≢ command_name c)
        → Asks (w ∷ ws) (unknown w)
    no_value : Asks (codes "poke" ∷ []) (complaint (codes "Usage: poke <addr> <value>\r\n"))
    one_value :
        {wa : List ℕ}
        → Asks (codes "poke" ∷ wa ∷ []) (complaint (codes "Usage: poke <addr> <value>\r\n"))
    no_address : Asks (codes "peek" ∷ []) (complaint (codes "Usage: peek <addr> [count]\r\n"))
    bad_poke_address :
        {wa wv : List ℕ} {more : List (List ℕ)}
        → hex_meaning wa ≡ none
        → Asks (codes "poke" ∷ wa ∷ wv ∷ more) (complaint (codes "Error: invalid address\r\n"))
    bad_poke_value :
        {wa wv : List ℕ} {more : List (List ℕ)} {a : ℕ}
        → hex_meaning wa ≡ some a
        → hex_meaning wv ≡ none
        → Asks (codes "poke" ∷ wa ∷ wv ∷ more) (complaint (codes "Error: invalid value\r\n"))
    bad_peek_address :
        {wa : List ℕ} {more : List (List ℕ)}
        → hex_meaning wa ≡ none
        → Asks (codes "peek" ∷ wa ∷ more) (complaint (codes "Error: invalid address\r\n"))
    bad_count :
        {wa wn : List ℕ} {more : List (List ℕ)} {a : ℕ}
        → hex_meaning wa ≡ some a
        → ¬ IsNumber wn
        → hex_meaning wn ≡ none
        → Asks (codes "peek" ∷ wa ∷ wn ∷ more) (complaint (codes "Error: invalid count\r\n"))
    bad_load_address :
        {wa : List ℕ} {more : List (List ℕ)}
        → hex_meaning wa ≡ none
        → Asks (codes "load" ∷ wa ∷ more) (complaint (codes "Error: invalid address\r\n"))

-- A line that is typed at the prompt, and what it asks for.
pub record Entry : Type 0 where
  pub line : Typed
  pub request : Request

abbrev pub asking : Typed → Request → Entry
asking t r = record { line = t; request = r }

-- The line is cancelled, or it is entered and its words ask for the request.
abbrev pub IsEntry : (ℕ → Bool) → Fuel → Entry → Type 0
IsEntry is_memory fuel e =
    (IsCancelled fuel.keys e.line × (e.request ≡ cancelled))
    ⊎ (IsTyped fuel.keys e.line × Asks is_memory fuel (words (typed_text e.line)) e.request)

-- The characters that are typed.
abbrev pub entry_chars : List Entry → List ℕ → List ℕ
entry_chars [] rest = rest
entry_chars (e ∷ es) rest =
    e.line.keys ++ e.line.enter ∷ request_chars e.request (entry_chars es rest)

abbrev pub line_end : ℕ → List ℕ
line_end c = if is_cancel c then codes "^C\r\n" else codes "\r\n"

-- What is shown of a line at the prompt.
abbrev pub prompt_text : Typed → List ℕ
prompt_text t = codes "vsync> " ++ (echo t.keys ++ line_end t.enter)

-- What is shown in all.
abbrev pub transcript : Memory → List Entry → List ℕ
transcript mem [] = []
transcript mem (e ∷ es) =
    (prompt_text e.line ++ answer mem e.request) ++ transcript (memory_after mem e.request) es

abbrev pub memory_after_all : Memory → List Entry → Memory
memory_after_all mem [] = mem
memory_after_all mem (e ∷ es) = memory_after_all (memory_after mem e.request) es
