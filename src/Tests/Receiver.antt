-- ===== src/Tests/Receiver.antt =====
-- A UART that has its input in a queue and always room to send, beside a memory.
use vsync.Prelude.{
  List, [], ap, arith, false, get_or, if◌then◌else◌, ltb, map, refl, some, sym, true, ℕ, ◌%◌, ◌&&◌,
  ◌++◌, ◌+◌, ◌<◌, ◌==◌, ◌^◌, ◌∷◌, ◌≡◌,
}
use mathlib.Core.List.{cons≢nil, head-eq_of_cons-eq, tail-eq_of_cons-eq}
use vsync.Commands.{uart_base}
use vsync.Machine.{IoLaws, Event, loaded, stored, masked, jumped}
use vsync.Machine.Memory.{Memory, update}
use vsync.Uart.{Hardware, uart_io}
use vsync.Uart.Polling.{Turns, now}
use vsync.Uart.Console.{traced, Receives, uart_io-Refines}
use vsync.Uart.Memory.{Remembers}

-- The characters that are to come, the words of memory, and the bytes that were written.
abbrev pub Board : Type 0
Board = List ℕ × (Memory × List ℕ)

abbrev pub take_char : Board → ℕ × Board
take_char ([], rest) = (0, ([], rest))
take_char (c ∷ cs, rest) = (c % 256, (cs, rest))

abbrev pub receive_status : Board → ℕ
receive_status ([], rest) = 8
receive_status (c ∷ cs, rest) = 0

-- A read of the data register at 4 takes a character; the status register at 8 has bit 3 set if
-- there is none; all else is memory. Each system call writes the byte in its second register.
abbrev pub board : Hardware Board
board = record {
  read = λ a s.
      if a == 0x10000004
      then take_char s
      else if a == 0x10000008
      then (receive_status s, s)
      else (s.1.0 a % 2 ^ 32, s);
  set_reg = λ a v s. (s.0, (update s.1.0 a v, s.1.1));
  csrci = λ s. s;
  jump_to = λ a s. s;
  kernel = record { ecall = λ num args s. (1, (s.0, (s.1.0, s.1.1 ++ (get_or args 1 0 ∷ [])))) };
}

abbrev pub queued : Board → List ℕ
queued s = map (λ c. c % 256) s.0

pub board-arrives :
    (s : Board) (c : ℕ) (rest : List ℕ)
    → queued s ≡ c ∷ rest
    → (n : ℕ) × (t : Board) × Turns board 3 false n s t
      × (n < 1)
      × ((board.read (uart_base + 0x04) t).0 % 256 ≡ c)
      × (queued (board.read (uart_base + 0x04) t).1 ≡ rest)
board-arrives ([], mem) c rest e = absurd (cons≢nil (sym e))
board-arrives (x ∷ xs, mem) c rest e =
    let h = head-eq_of_cons-eq e in
    (0, (x ∷ xs, mem), now (x ∷ xs, mem) refl, omega arith, omega arith, tail-eq_of_cons-eq e)

pub board-drains :
    (s : Board)
    → (n : ℕ) × (t : Board) × Turns board 0 false n s t × (n < 1) × (queued t ≡ queued s)
board-drains ([], mem) = (0, ([], mem), now ([], mem) refl, omega arith, refl)
board-drains (x ∷ xs, mem) = (0, (x ∷ xs, mem), now (x ∷ xs, mem) refl, omega arith, refl)

pub board-is_word : (a : ℕ) (s : Board) → (board.read a s).0 < 2 ^ 32
board-is_word a ([], mem) = ground arith
board-is_word a (x ∷ xs, mem) = ground arith

pub board-reads_sent : (a : ℕ) (s : Board) → (board.read a s).1.1.1 ≡ s.1.1
board-reads_sent a ([], rest) = ground arith
board-reads_sent a (c ∷ cs, rest) = ground arith

abbrev pub board_Receives : Receives board 1 5
board_Receives = record {
  input = queued;
  arrives = board-arrives;
  drains = board-drains;
  sends = λ c s. refl;
  is_word = board-is_word;
  is_memory = λ a. ltb a 0x1_4000 && a % 4 == 0;
  writes = λ a v s e. refl;
  masks = λ s. refl;
  jumps = λ a s. refl;
  sent = λ s. s.1.1;
  sends_byte = λ c s. refl;
  reads_sent = board-reads_sent;
  writes_sent = λ a v s. refl;
  masks_sent = λ s. refl;
  jumps_sent = λ a s. refl;
}

pub board-holds :
    (a : ℕ) (s : Board) → board_Receives.is_memory a ≡ true → board.read a s ≡ (s.1.0 a % 2 ^ 32, s)
board-holds a s h =
    let not_data : (a == 0x10000004) ≡ false = ground (arith, h) in
    let not_status : (a == 0x10000008) ≡ false = ground (arith, h) in rw (not_data, not_status) refl

pub board-read_memory : (a : ℕ) (s : Board) → (board.read a s).1.1.0 ≡ s.1.0
board-read_memory a ([], mem) = ground arith
board-read_memory a (c ∷ cs, mem) = ground arith

pub board-set_cell :
    (s : Board) (a v b : ℕ) → update s.1.0 a v b % 2 ^ 32 ≡ update (λ c. s.1.0 c % 2 ^ 32) a v b
board-set_cell s a v b = ground arith

abbrev pub board_memory : Remembers board 1 5 board_Receives
board_memory = record {
  cell = λ s a. s.1.0 a % 2 ^ 32;
  holds = λ a s h. ap (λ (x : ℕ × Board). x.0) (board-holds a s h);
  quiet = λ a s h. ap (λ (x : ℕ × Board). queued x.1) (board-holds a s h);
  read_cell = λ a b s h. ap (λ (m : Memory). m b % 2 ^ 32) (board-read_memory a s);
  set_cell = λ a v b s h. board-set_cell s a v b;
  send_cell = λ fd c b s h. refl;
  mask_cell = λ b s h. refl;
  jump_cell = λ a b s h. refl;
}

uart_io-Refines_example :
    ((laws : IoLaws (traced (uart_io board 1 5))) × (laws.input ≡ (λ s. board_Receives.input s.0))
      × (laws.log ≡ (λ s. s.1))
      × (laws.is_memory ≡ board_Receives.is_memory))
    × ((c : ℕ) (s : Board) (es : List Event) (q : Board × List Event) (u : Unit {0})
        → (traced (uart_io board 1 5)).putchar c (s, es) ≡ some (u, q)
        → q.0.1.1 ≡ s.1.1 ++ (c ∷ []))
    × ((a : ℕ) (s : Board) (es : List Event)
        → (traced (uart_io board 1 5)).load a (s, es)
          ≡ some
              ((board.read a s).0, ((board.read a s).1, es ++ (loaded a (board.read a s).0 ∷ []))))
    × ((a v : ℕ) (s : Board) (es : List Event)
        → (traced (uart_io board 1 5)).store a v (s, es)
          ≡ some (tt, (board.set_reg a v s, es ++ (stored a v ∷ []))))
    × ((s : Board) (es : List Event)
        → (traced (uart_io board 1 5)).clear_mie (s, es) ≡ some (tt, (s, es ++ (masked ∷ []))))
    × ((a : ℕ) (s : Board) (es : List Event)
        → (traced (uart_io board 1 5)).jump a (s, es) ≡ some (tt, (s, es ++ (jumped a ∷ []))))
uart_io-Refines_example = uart_io-Refines board 1 5 board_Receives
