-- ===== src/Commands/Memory.antt =====
-- sw/examples/shell.c: cmd_peek and cmd_poke.
use vsync.Prelude.{
  List, Option, if◌then◌else◌, leb, ltb, none, some, suc, zero, ℕ, ◌%◌, ◌*◌, ◌+◌, ◌==◌, ◌^◌,
}
use vsync.Machine.{M, Io, pure, ◌>>=◌, ◌>>◌}
use vsync.Console.{shell_newline, shell_put_hex}
use vsync.Hex.{hex_to_uint32}
use vsync.Decimal.{dec_to_uint32}
use vsync.Commands.{argc, argv, say, word_align}

-- PEEK_MAX_WORDS
abbrev pub peek_max_words : ℕ
peek_max_words = 16

-- The count argument: decimal, or else hexadecimal; 1 if there is none.
unfoldable pub peek_count : List (List ℕ) → Option ℕ
peek_count args =
    if leb 3 (argc args)
    then elim (dec_to_uint32 (argv args 2)) [
      | none ↦ hex_to_uint32 (argv args 2)
      | some count ↦ some count
    ]
    else some 1

unfoldable pub clamp_count : ℕ → ℕ
clamp_count count =
    let count' = if count == 0 then 1 else count in
    if ltb peek_max_words count' then peek_max_words else count'

module _ {S : Type 0} (io : Io S) where
  -- The body of the loop at word `i`.
  unfoldable pub peek_word : ℕ → ℕ → M S (Unit {0})
  peek_word addr i = do
    let a = (addr + i * 4) % 2 ^ 32
    val ← io.load a
    shell_put_hex io a
    say io ": "
    shell_put_hex io val
    shell_newline io

  -- `for (i = 0; i < count; i++)`, with `n` rounds left.
  unfoldable pub peek_loop : ℕ → ℕ → ℕ → M S (Unit {0})
  peek_loop addr zero i = pure tt
  peek_loop addr (suc n) i = peek_word addr i >> peek_loop addr n (i + 1)

  unfoldable pub cmd_peek : List (List ℕ) → M S (Unit {0})
  cmd_peek args =
      if ltb (argc args) 2
      then say io "Usage: peek <addr> [count]\r\n"
      else elim (hex_to_uint32 (argv args 1)) [
        | none ↦ say io "Error: invalid address\r\n"
        | some addr ↦ elim (peek_count args) [
          | none ↦ say io "Error: invalid count\r\n"
          | some count ↦ peek_loop (word_align addr) (clamp_count count) 0
        ]
      ]

  -- The write and the confirmation.
  unfoldable pub poke_word : ℕ → ℕ → M S (Unit {0})
  poke_word addr val = do
    io.store addr val
    shell_put_hex io addr
    say io " <- "
    shell_put_hex io val
    say io " (readback: "
    readback ← io.load addr
    shell_put_hex io readback
    say io ")"
    shell_newline io

  unfoldable pub cmd_poke : List (List ℕ) → M S (Unit {0})
  cmd_poke args =
      if ltb (argc args) 3
      then say io "Usage: poke <addr> <value>\r\n"
      else elim (hex_to_uint32 (argv args 1)) [
        | none ↦ say io "Error: invalid address\r\n"
        | some addr ↦ elim (hex_to_uint32 (argv args 2)) [
          | none ↦ say io "Error: invalid value\r\n"
          | some val ↦ poke_word (word_align addr) val
        ]
      ]
