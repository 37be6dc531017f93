-- ===== src/Commands/Loading.antt =====
-- cmd_load: what it writes to memory, and what it shows.
use vsync.Prelude.{All, List, arith, codes, length, map, some, true, ℕ, ◌++◌, ◌<◌, ◌∷◌, ◌≡◌}
use vsync.Machine.{M, Io, IoLaws}
use vsync.Commands.{word_align}
use vsync.Commands.Load.{cmd_buf_size, load_loop, cmd_load, address_arg}
use vsync.Commands.Poke.{hex_text}
use vsync.Console.Output.{shell_put_hex-digits}
use vsync.Commands.Stores.{Writes, Writes-print}
use vsync.Commands.Script.{
  Typed, typed_text, chars, IsTyped, IsBody, IsCancelled, is_last, words_of, at_words, body_text,
  end_text, abort_text,
}
use vsync.Commands.LoadLoop.{InMemory, load_loop-Writes, last-Writes, abort-Writes}
use vsync.Commands.Round.{puts-Prints}

-- What is shown from the start of the loading.
abbrev pub session_text : ℕ → List ℕ → List ℕ
session_text at rest =
    codes "Loading to " ++ (hex_text at ++ (codes " ... (empty line or '.' to end)\r\n" ++ rest))

module _ {S : Type 0} (io : Io S) (laws : IoLaws io) where
  abbrev pub Writing : M S (Unit {0}) → S → List (ℕ × ℕ) → List ℕ → List ℕ → Type 0
  Writing = Writes laws.input laws.log

  -- The message in front of the loop.
  cmd_load-session :
      (lines fuel : ℕ) (buf : List ℕ) (args : List (List ℕ)) (a : ℕ) (s : S) (inp rest out : List ℕ)
      (ps : List (ℕ × ℕ))
      → address_arg args ≡ some a
      → laws.input s ≡ inp
      → ((s' : S)
          → laws.input s' ≡ inp
          → Writing (load_loop io lines fuel buf (word_align a) (word_align a) 0) s' ps out rest)
      → Writing (cmd_load io lines fuel buf args) s ps (session_text (word_align a) out) rest
  unfolding cmd_load
  cmd_load-session lines fuel buf args a s inp rest out ps addr i k =
      let print = Writes-print laws.input laws.log in
      let text = puts-Prints io laws in
      let at = word_align a in
      let hint = codes " ... (empty line or '.' to end)\r\n" in
      rw (addr, cmd_load)
        (print _ _ s (codes "Loading to ") inp rest (hex_text at ++ (hint ++ out)) ps
          (text (codes "Loading to ")) i
          λ s1 i1.
            print _ _ s1 (hex_text at) inp rest (hint ++ out) ps (shell_put_hex-digits io laws at)
              i1 λ s2 i2. print _ _ s2 hint inp rest out ps (text hint) i2 k)

  -- Lines with an address that can be read.
  module _ (lines fuel : ℕ) (buf : List ℕ) (args : List (List ℕ)) (a : ℕ) (s : S)
      (body : List Typed) (end : Typed) (rest : List ℕ) (addr : address_arg args ≡ some a)
      (len : length buf ≡ cmd_buf_size) (ok : All (IsBody fuel) body) (enough : length body < lines)
      (mem : InMemory io laws (at_words (word_align a) (words_of (map typed_text body))))
      (inp : laws.input s ≡ chars body (end.keys ++ end.enter ∷ rest)) where
    -- With an address that can be read, on typed lines of which the last is empty or begins with
    -- '.', `cmd_load` returns, given io laws a round for each line and the fuel that each line takes. If
    -- the places are memory it writes the words that the lines before the last one spell to
    -- consecutive addresses from the aligned address on, and nothing else; comments and lines that
    -- are no word take no place. It shows the message, the echo of each line with an error behind
    -- each line that is no word, and the report, and leaves the input behind the last line.
    pub cmd_load-Writes :
        IsTyped fuel end
        → is_last (typed_text end) ≡ true
        → Writing
            (cmd_load io lines fuel buf args)
            s
            (at_words (word_align a) (words_of (map typed_text body)))
            (session_text
              (word_align a)
              (body_text (end_text (word_align a) end) (word_align a) 0 body))
            rest
    cmd_load-Writes ok' last =
        let at = word_align a in
        cmd_load-session lines fuel buf args a s _ rest _ _ addr inp λ s' i'.
          load_loop-Writes io laws lines fuel at _ rest (end_text at end)
            (last-Writes io laws fuel at end rest ok' last) buf at 0 s' body len (omega arith) ok
            enough mem i'

    -- With Ctrl-C in place of the last line, `cmd_load` returns too: the words of the lines before
    -- it are written, no other, and "Aborted." is shown in place of the report.
    pub cmd_load_aborts :
        IsCancelled fuel end
        → Writing
            (cmd_load io lines fuel buf args)
            s
            (at_words (word_align a) (words_of (map typed_text body)))
            (session_text
              (word_align a)
              (body_text (λ cur count. abort_text end.keys) (word_align a) 0 body))
            rest
    cmd_load_aborts ok' =
        let at = word_align a in
        cmd_load-session lines fuel buf args a s _ rest _ _ addr inp λ s' i'.
          load_loop-Writes io laws lines fuel at _ rest (λ cur count. abort_text end.keys)
            (abort-Writes io laws fuel at end rest ok') buf at 0 s' body len (omega arith) ok enough
            mem i'
