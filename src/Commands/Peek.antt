-- ===== src/Commands/Peek.antt =====
-- cmd_peek: what it reads and shows.
use vsync.Prelude.{
  List, [], ap, append-nil, append_assoc, arith, codes, false, length, ltb, map, refl, some, suc,
  sym, zero, ℕ, ◌%◌, ◌*◌, ◌++◌, ◌+◌, ◌^◌, ◌∙◌, ◌∷◌, ◌≡◌, ◌≤◌,
}
use vsync.Machine.{Io, IoLaws, Does, Event, put, loaded, ◌>>◌}
use vsync.Machine.Effects.{Does-bind, Prints-then}
use vsync.Console.{shell_put_hex}
use vsync.Console.Output.{shell_puts-cstr, shell_newline-crlf, shell_put_hex-digits}
use vsync.Hex.{hex_to_uint32}
use vsync.Commands.{argc, argv, say, word_align}
use vsync.Commands.Memory.{peek_count, clamp_count, peek_word, peek_loop, cmd_peek}
use vsync.Commands.Poke.{hex_text}

-- The address of word `i`, on 32 bits.
abbrev pub word_at : ℕ → ℕ → ℕ
word_at addr i = (addr + i * 4) % 2 ^ 32

abbrev pub peek_event : ℕ → ℕ → List Event
peek_event a v = loaded a v ∷ map put (hex_text a ++ (codes ": " ++ (hex_text v ++ codes "\r\n")))

-- Each word is read once, and shown with its address on a line of its own.
unfoldable pub peek_events : ℕ → ℕ → List ℕ → List Event
peek_events addr i [] = []
peek_events addr i (v ∷ vals) = peek_event (word_at addr i) v ++ peek_events addr (i + 1) vals

module _ {S : Type 0} (io : Io S) (laws : IoLaws io) where
  peek_word-events :
      (addr n : ℕ) (s : S)
      → (r : ℕ × List ℕ) × Does laws.input laws.log
          (peek_word io addr n)
          s
          tt
          (peek_event (word_at addr n) r.0)
          r.1
  unfolding peek_word
  peek_word-events addr n s =
      let i = laws.input in
      let l = laws.log in
      let a = word_at addr n in
      let hex = shell_put_hex-digits io laws in
      let (r, below, d) = laws.load_law s a in
      (
        r,
        Does-bind i l (io.load a) _ s r.0 tt (loaded a r.0 ∷ []) _ r.1 r.1 d λ s1 i1. rw (← i1) (
            Prints-then i l (shell_put_hex io a) _ (hex_text a)
              (codes ": " ++ (hex_text r.0 ++ codes "\r\n")) (hex a)
              (Prints-then i l (say io ": ") _ (codes ": ") (hex_text r.0 ++ codes "\r\n")
                (shell_puts-cstr io laws (codes ": "))
                (Prints-then i l (shell_put_hex io r.0) _ (hex_text r.0) (codes "\r\n") (hex r.0)
                  (shell_newline-crlf io laws)))
              s1),
      )

  peek_loop-events :
      (addr n k : ℕ) (s : S)
      → (vals : List ℕ) × (length vals ≡ n)
        × ((rest : List ℕ) × Does laws.input laws.log
              (peek_loop io addr n k)
              s
              tt
              (peek_events addr k vals)
              rest)
  unfolding peek_loop peek_events
  peek_loop-events addr zero k s = ([], refl, (laws.input s, (s, refl, refl, sym (append-nil _))))
  peek_loop-events addr (suc n) k s =
      let (r, d) = peek_word-events addr k s in
      let (s1, e1, i1, l1) = d in
      let (vals, len, more) = peek_loop-events addr n (k + 1) s1 in
      let (rest, d2) = more in
      let (s2, e2, i2, l2) = d2 in
      (
        r.0 ∷ vals,
        ap suc len,
        (
          rest,
          (
            s2,
            rw (e1, ◌>>◌) e2,
            i2,
            l2
                ∙ (ap (λ x. x ++ peek_events addr (k + 1) vals) l1
                    ∙ append_assoc (laws.log s) (peek_event (word_at addr k) r.0)
                        (peek_events addr (k + 1) vals)),
          ),
        ),
      )

  -- With an address and a count that can be read, `cmd_peek` reads and shows as many words as the
  -- clamped count says, at consecutive word addresses (on 32 bits) from the aligned address on,
  -- each once, and writes nothing.
  pub cmd_peek_reads :
      (args : List (List ℕ)) (a count : ℕ) (s : S)
      → 2 ≤ argc args
      → hex_to_uint32 (argv args 1) ≡ some a
      → peek_count args ≡ some count
      → (vals : List ℕ) × (length vals ≡ clamp_count count)
        × ((rest : List ℕ) × Does laws.input laws.log
              (cmd_peek io args)
              s
              tt
              (peek_events (word_align a) 0 vals)
              rest)
  unfolding cmd_peek
  cmd_peek_reads args a count s enough ea ec =
      let has_args : ltb (argc args) 2 ≡ false = ground arith in
      rw (has_args, ea, ec, cmd_peek) (peek_loop-events (word_align a) (clamp_count count) 0 s)
