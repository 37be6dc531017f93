-- ===== src/Commands/Worlds.antt =====
-- What peek and poke do on a machine with memory, and what they say.
use vsync.Prelude.{
  List, [], arith, codes, cstr, subst, suc, sym, true, zero, ℕ, ◌++◌, ◌+◌, ◌<◌, ◌≡◌,
}
use Prim.Native.String.{String}
use vsync.Machine.{M, Io, IoLaws, ◌>>◌}
use vsync.Machine.Memory.{
  Memory, update, MemoryLaws, World, write, Acts, Acts-pure, Acts-Prints, Acts-then, Acts-load,
  Acts-store,
}
use vsync.Console.{shell_newline, shell_put_hex, shell_puts}
use vsync.Console.Output.{shell_puts-cstr, shell_newline-crlf, shell_put_hex-digits}
use vsync.Commands.{say}
use vsync.Commands.Memory.{peek_word, peek_loop, poke_word}
use vsync.Commands.Poke.{hex_text}
use vsync.Commands.Peek.{word_at}

-- The confirmation of poke, on the memory behind the write.
abbrev pub poke_text : Memory → ℕ → ℕ → List ℕ
poke_text mem a v =
    hex_text a
    ++ (codes " <- "
        ++ (hex_text v
            ++ (codes " (readback: " ++ (hex_text (mem a) ++ (codes ")" ++ codes "\r\n")))))

-- The line of peek on the word at an address.
abbrev pub word_text : Memory → ℕ → List ℕ
word_text mem a = hex_text a ++ (codes ": " ++ (hex_text (mem a) ++ codes "\r\n"))

-- The lines of peek on `n` words, from word `k` behind the address on.
unfoldable pub peek_text : Memory → ℕ → ℕ → ℕ → List ℕ
peek_text mem addr zero k = []
peek_text mem addr (suc n) k = word_text mem (word_at addr k) ++ peek_text mem addr n (k + 1)

module _ {S : Type 0} (io : Io S) (laws : IoLaws io) (words : MemoryLaws io laws) where
  abbrev pub Acting : M S (Unit {0}) → World → List ℕ → World → Type 0
  Acting = Acts io laws words

  pub Acts-puts : (text : List ℕ) (w : World) → Acting (shell_puts io text) w (cstr text) w
  Acts-puts text w = Acts-Prints io laws words _ w (cstr text) (shell_puts-cstr io laws text)

  pub Acts-hex : (v : ℕ) (w : World) → Acting (shell_put_hex io v) w (hex_text v) w
  Acts-hex v w = Acts-Prints io laws words _ w (hex_text v) (shell_put_hex-digits io laws v)

  pub Acts-newline : (w : World) → Acting (shell_newline io) w (codes "\r\n") w
  Acts-newline w = Acts-Prints io laws words _ w (codes "\r\n") (shell_newline-crlf io laws)

  -- Code that prints and goes on in the same world.
  pub prints :
      {m k : M S (Unit {0})} {w w' : World} {a b : List ℕ}
      → Acting m w a w
      → Acting k w b w'
      → Acting (m >> k) w (a ++ b) w'
  prints p q = Acts-then io laws words _ _ _ _ _ _ _ p q

  -- `poke` writes the word once, and what it reads back is what it wrote.
  pub poke_word-Acts :
      (a v : ℕ) (w : World)
      → laws.is_memory a ≡ true
      → Acting (poke_word io a v) w (poke_text (update w.memory a v) a v) (write a v w)
  unfolding poke_word
  poke_word-Acts a v w h =
      let w' = write a v w in
      let text : (t : String) → Acting (say io t) w' (cstr (codes t)) w' =
        λ t. Acts-puts (codes t) w' in
      Acts-store io laws words a v _ w w' _ h (
        prints (Acts-hex a w') (
          prints (text " <- ") (
            prints (Acts-hex v w') (
              prints (text " (readback: ") (
                Acts-load io laws words a _ w' w' _ h
                  (prints (Acts-hex (w'.memory a) w') (prints (text ")") (Acts-newline w'))))))))

  peek_word-Acts :
      (addr n : ℕ) (w : World)
      → laws.is_memory (word_at addr n) ≡ true
      → Acting (peek_word io addr n) w (word_text w.memory (word_at addr n)) w
  unfolding peek_word
  peek_word-Acts addr n w h =
      let a = word_at addr n in
      Acts-load io laws words a _ w w _ h (
        prints (Acts-hex a w)
          (prints (Acts-puts (codes ": ") w) (prints (Acts-hex (w.memory a) w) (Acts-newline w))))

  -- `peek` leaves the world alone, and shows what the memory holds.
  pub peek_loop-Acts :
      (addr n k : ℕ) (w : World)
      → ((i : ℕ) → i < n → laws.is_memory (word_at addr (k + i)) ≡ true)
      → Acting (peek_loop io addr n k) w (peek_text w.memory addr n k) w
  unfolding peek_loop peek_text
  peek_loop-Acts addr zero k w h = Acts-pure io laws words w
  peek_loop-Acts addr (suc n) k w h =
      let here : k + 0 ≡ k = omega arith in
      let first : laws.is_memory (word_at addr k) ≡ true =
        subst (λ j. laws.is_memory (word_at addr j) ≡ true) here (h 0 (omega arith)) in
      Acts-then io laws words (peek_word io addr k) (peek_loop io addr n (k + 1)) w w w _ _
        (peek_word-Acts addr k w first)
        (peek_loop-Acts addr n (k + 1) w λ i below.
          let e : k + 1 + i ≡ k + suc i = omega arith in
          subst (λ j. laws.is_memory (word_at addr j) ≡ true) (sym e) (h (suc i) (omega arith)))
